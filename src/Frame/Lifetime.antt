-- ===== src/Frame/Lifetime.antt =====
-- The usage count of a payload: xcan_frame_discard, xcan_frame_copy and xcan_frame_deepcopy.
use xcan_router.Prelude.{
  ℕ, ◌+◌, ◌%◌, ◌<◌, ◌≡◌, ◌≢◌, none, some, List, arith, get_elem?, set, length, get_elem?-set_self,
  length-set,
}
use xcan_router.Memory.{Ptr, null, Frame, Mem, Returns}
use xcan_router.Frame.{frame_discard}

-- `f` is a live frame `x` over the live payload `b`, which counts `count` uses in its own block.
pub record Holds (m : Mem) (f : Ptr) (x : Frame) (b : List ℕ) (count : ℕ) : Type 0 where
  pub ne_null : f ≢ null
  pub payload_ne_null : x.payload ≢ null
  pub live : m.frames f ≡ some x
  pub counted_inside : x.usage_block ≡ x.payload
  pub payload_live : m.buffers x.payload ≡ some b
  pub in_range : x.usage_offset < length b
  pub counts : get_elem? b x.usage_offset ≡ some count

-- Frames and payloads other than those of `f` are as they were.
pub record SameElsewhere (f : Ptr) (block : Ptr) (m m' : Mem) : Type 0 where
  pub frames_same : (p : Ptr) → p ≢ f → m'.frames p ≡ m.frames p
  pub buffers_same : (p : Ptr) → p ≢ block → m'.buffers p ≡ m.buffers p
  pub queues_same : m'.queues ≡ m.queues
  pub devices_same : m'.devices ≡ m.devices
  pub pool_same : m'.pool ≡ m.pool

module _ {m : Mem} {f : Ptr} {x : Frame} {b : List ℕ} {count : ℕ} (h : Holds m f x b count) where
  -- The last use of a live frame, with a usage count of 1, gives the frame and its payload back,
  -- and nothing else.
  pub discard-last :
      count ≡ 1
      → Returns
          (λ _ m'.
            (m'.frames f ≡ none) × (m'.buffers x.payload ≡ none) × SameElsewhere f x.payload m m')
          (frame_discard f m)
  unfolding frame_discard
  discard-last e =
      ground (arith, get_elem?-set_self b x.usage_offset 0, length-set b x.usage_offset 0)

  -- Any other use gives nothing back, and counts down modulo 256.
  pub discard-kept :
      count < 256
      → count ≢ 1
      → Returns
          (λ _ m'.
            Holds m' f x (set b x.usage_offset ((count + 255) % 256)) ((count + 255) % 256)
            × SameElsewhere f x.payload m m')
          (frame_discard f m)
  unfolding frame_discard
  discard-kept lt e = ground (
    arith,
    get_elem?-set_self b x.usage_offset ((count + 255) % 256),
    length-set b x.usage_offset ((count + 255) % 256),
  )
