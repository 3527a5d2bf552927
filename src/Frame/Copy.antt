-- ===== src/Frame/Copy.antt =====
-- What xcan_frame_copy and xcan_frame_deepcopy return, and how they and xcan_frame_discard act on
-- the usage count together.
use xcan_router.Prelude.{
  ℕ, ◌+◌, ◌%◌, ◌≤◌, ◌<◌, ◌≡◌, ◌≢◌, false, none, some, List, arith, replicate, length-replicate,
  get_elem?, set, length, get_elem?-set_self, length-set, take, drop, ◌++◌, take-set_after,
  take-set-append, ◌∙◌, subst, ==_ne, length-append, length-take_of_le, length-drop, set-set,
  set-get_self,
}
use xcan_router.Memory.{
  Ptr, null, Frame, Mem, crash, Returns, Returns-bind, Returns-mono, IsFresh, ◌>>=◌, ◌>>◌, pure,
}
use xcan_router.Frame.{frame_discard, frame_copy, frame_deepcopy, deepcopy_payload}
use xcan_router.Frame.Lifetime.{Holds}

-- The block that xcan_frame_deepcopy fills: the first `n` bytes of the source, then a count of 1.
abbrev pub deep_bytes : ℕ → List ℕ → List ℕ
deep_bytes n source = set (take n source ++ drop (length (take n source)) (replicate (n + 1) 0)) n 1

module _ (n : ℕ) (source : List ℕ) (h : n ≤ length source) where
  length-block :
      length (take n source ++ drop (length (take n source)) (replicate (n + 1) 0)) ≡ n + 1
  length-block =
      length-append (take n source) (drop (length (take n source)) (replicate (n + 1) 0))
      ∙ omega (
        arith,
        length-take_of_le n source h,
        length-drop (length (take n source)) (replicate {A = ℕ} (n + 1) 0),
        length-replicate {A = ℕ} (n + 1) 0,
      )

  length-deep_bytes : length (deep_bytes n source) ≡ n + 1
  length-deep_bytes = length-set _ n 1 ∙ length-block

  get_elem?-deep_bytes : get_elem? (deep_bytes n source) n ≡ some 1
  get_elem?-deep_bytes = get_elem?-set_self _ n 1 (omega (arith, length-block))

  pub take-deep_bytes : take n (deep_bytes n source) ≡ take n source
  take-deep_bytes =
      subst (λ k. take k (deep_bytes n source) ≡ take n source) (length-take_of_le n source h)
        (take-set-append (take n source) _ n 1 (omega (arith, length-take_of_le n source h)))

abbrev pub counted : Frame → List ℕ → ℕ → List ℕ
counted x b n = set b x.usage_offset (n % 256)

-- Outside the new descriptor and the payload of `f`, memory is as it was.
pub record Copied (m m' : Mem) (block : Ptr) : Type 0 where
  pub brk_next : m'.brk ≡ m.brk + 1
  pub refuses_same : m'.refuses ≡ m.refuses
  pub frames_same : (p : Ptr) → p ≢ m.brk → m'.frames p ≡ m.frames p
  pub buffers_same : (p : Ptr) → p ≢ block → m'.buffers p ≡ m.buffers p

-- The second half of xcan_frame_deepcopy, on a descriptor `g` that shares the payload of `f`.
payload-Holds :
    {m : Mem} {f g : Ptr} {x : Frame} {b : List ℕ} {count : ℕ}
    → Holds m g (record x { next = null }) b count
    → Holds m f x b count
    → f ≢ g
    → m.refuses m.brk ≡ false
    → m.buffers m.brk ≡ none
    → x.len < length b
    → 0 < m.brk
    → Returns
        (λ k m'.
          (k ≡ g)
          × Holds m' g
              (record x { next = null; payload = m.brk; usage_block = m.brk; usage_offset = x.len })
              (deep_bytes x.len b)
              1
          × Holds m' f x b count)
        (deepcopy_payload 1 f g m)
unfolding deepcopy_payload
payload-Holds {x} {b} hg hf ne gr free le start = ground (
  arith,
  length-take_of_le x.len b,
  length-replicate {A = ℕ} (x.len + 1) 0,
  length-deep_bytes x.len b,
  get_elem?-deep_bytes x.len b,
  length-block x.len b,
)

module _ {m : Mem} {f : Ptr} {x : Frame} {b : List ℕ} {count : ℕ} (fr : IsFresh m)
    (h : Holds m f x b count) (granted : m.refuses m.brk ≡ false) where
  -- With a calloc that is asked for a whole struct and gives it, a copy has the fields of the frame
  -- and no successor, and shares its payload, whose usage count goes up by one, modulo 256. The
  -- frame is as it was.
  pub copy-Holds :
      Returns
        (λ g m'.
          (g ≡ m.brk)
          × Holds m' g (record x { next = null }) (counted x b (count + 1)) ((count + 1) % 256)
          × Holds m' f x (counted x b (count + 1)) ((count + 1) % 256)
          × Copied m m' x.payload)
        (frame_copy 1 f m)
  unfolding frame_copy
  copy-Holds = ground (
    arith,
    fr.no_frame m.brk,
    get_elem?-set_self b x.usage_offset ((count + 1) % 256),
    length-set b x.usage_offset ((count + 1) % 256),
  )

  pub copy-elem_zero : frame_copy 0 f m ≡ crash
  unfolding frame_copy
  copy-elem_zero = ground (arith, fr.no_frame m.brk)

  -- Giving a copy back restores the usage count of the original, where it was at least 1 and below
  -- 255. The copy itself is not given back. The copy is taken with a calloc that is asked for a
  -- whole struct and gives it.
  pub copy-discard :
      1 ≤ count
      → count < 255
      → Returns
          (λ g m'. Holds m' f x b count × (m'.frames g ≡ some (record x { next = null })))
          ((do g ← frame_copy 1 f; frame_discard g; pure g) m)
  unfolding frame_copy frame_discard
  copy-discard lo hi = ground (
    arith,
    fr.no_frame m.brk,
    get_elem?-set_self b x.usage_offset ((count + 1) % 256),
    length-set b x.usage_offset ((count + 1) % 256),
    set-set b x.usage_offset ((count + 1) % 256) count,
    get_elem?-set_self (set b x.usage_offset ((count + 1) % 256)) x.usage_offset count,
    set-get_self b x.usage_offset count,
  )

  -- With a calloc that is asked for whole blocks and gives them, and a payload with at least `len`
  -- bytes and its count, a deep copy has a payload of its own with the first `len` bytes of the
  -- block of the frame and a usage count of 1 behind them. The usage count of the frame goes up by
  -- one, modulo 256.
  pub deepcopy-Holds :
      m.refuses (m.brk + 1) ≡ false
      → x.len < length b
      → Returns
          (λ g m'.
            (g ≡ m.brk)
            × Holds m' g
                (record x {
                  next = null;
                  payload = m.brk + 1;
                  usage_block = m.brk + 1;
                  usage_offset = x.len;
                })
                (deep_bytes x.len (counted x b (count + 1)))
                1
            × Holds m' f x (counted x b (count + 1)) ((count + 1) % 256))
          (frame_deepcopy 1 f m)
  unfolding frame_deepcopy
  deepcopy-Holds gr le = Returns-bind _ _ (frame_copy 1 f m) copy-Holds (λ g m1 (e, hg, hf, same).
      rw (==_ne f null h.ne_null) (
        Returns-mono _ (deepcopy_payload 1 f g m1)
          (payload-Holds hg hf (ground (arith, fr.no_frame m.brk))
            (ground (arith, same.refuses_same, same.brk_next))
            (ground (arith, fr.no_buffer (m.brk + 1), same.buffers_same (m.brk + 1)))
            (omega (arith, length-set b x.usage_offset ((count + 1) % 256)))
            (omega (arith, same.brk_next)))
          λ k m2 (e1, hk, hf'). ground (arith, same.brk_next)))

  -- The bytes of the deep copy are those of `f`, where the count lies behind them.
  pub deepcopy-bytes :
      x.len < length b
      → x.len ≤ x.usage_offset
      → take x.len (deep_bytes x.len (counted x b (count + 1))) ≡ take x.len b
  deepcopy-bytes le after =
      take-deep_bytes x.len (counted x b (count + 1))
        (omega (arith, length-set b x.usage_offset ((count + 1) % 256)))
      ∙ take-set_after b x.len x.usage_offset ((count + 1) % 256) after
