-- ===== src/Frame.antt =====
-- stack/xcan_frame.c: allocation, release and copies of frames. `elem` is the second argument that
-- XCAN_ZALLOC hands to calloc.
mod Tests
pub mod Alloc
pub mod Copy
pub mod Refused
pub mod Count
pub mod Lifetime
use xcan_router.Prelude.{ℕ, ◌+◌, ◌%◌, ◌^◌, some, ◌==◌, if◌then◌else◌}
use xcan_router.Memory.{
  Ptr, null, Frame, Cmd, pure, ◌>>=◌, ◌>>◌, load_frame, set_frame, load_byte, store_byte,
  load_bytes, store_bytes, frame_size, calloc_bytes, calloc_frame, free_frame, free_buffer,
}

-- What the macro passes: `#define XCAN_ZALLOC(x) calloc(x, 0)`.
abbrev pub zalloc_elem : ℕ
zalloc_elem = 0

module _ (elem : ℕ) where
  unfoldable pub frame_do_alloc : ℕ → Cmd Ptr
  frame_do_alloc size = do
    f ← calloc_frame frame_size elem
    if f == null then pure null else do
      block ← calloc_bytes (size + 1) elem
      set_frame f (λ x. record x { payload = block })
      x ← load_frame f
      (if x.payload == null then free_frame f else pure tt)
      set_frame f (λ x. record x { len = size % 2 ^ 16 })
      set_frame f (λ x. record x { flags = 0 })
      set_frame f (λ x. record x { usage_block = x.payload; usage_offset = size })
      pure f

  unfoldable pub frame_alloc : ℕ → Cmd Ptr
  unfolding frame_do_alloc
  frame_alloc size = frame_do_alloc size

  unfoldable pub frame_copy : Ptr → Cmd Ptr
  frame_copy f = do
    fresh ← calloc_frame frame_size elem
    if fresh == null then pure null else do
      x ← load_frame f
      set_frame fresh (λ _. x)
      y ← load_frame fresh
      count ← load_byte y.usage_block y.usage_offset
      store_byte y.usage_block y.usage_offset ((count + 1) % 2 ^ 8)
      set_frame fresh (λ z. record z { next = null })
      pure fresh

  -- What follows the copy of the descriptor in xcan_frame_deepcopy.
  unfoldable pub deepcopy_payload : Ptr → Ptr → Cmd Ptr
  deepcopy_payload f fresh = do
    x ← load_frame fresh
    block ← calloc_bytes (x.len + 1) elem
    set_frame fresh (λ y. record y { payload = block })
    x ← load_frame fresh
    source ← load_frame f
    bytes ← load_bytes source.payload x.len
    store_bytes x.payload bytes
    set_frame fresh (λ y. record y { usage_block = y.payload; usage_offset = y.len })
    x ← load_frame fresh
    store_byte x.usage_block x.usage_offset 1
    pure fresh

  unfoldable pub frame_deepcopy : Ptr → Cmd Ptr
  frame_deepcopy f = do
    fresh ← frame_copy f
    if f == null then pure null else deepcopy_payload f fresh

-- The count is a uint8_t: `+= -1` adds 255 modulo 256.
unfoldable pub frame_discard : Ptr → Cmd (Unit {0})
frame_discard f = if f == null then pure tt else do
  x ← load_frame f
  count ← load_byte x.usage_block x.usage_offset
  store_byte x.usage_block x.usage_offset ((count + 255) % 2 ^ 8)
  x ← load_frame f
  count ← load_byte x.usage_block x.usage_offset
  if count == 0 then (free_buffer x.payload >> free_frame f) else pure tt
