-- ===== src/Frame/Refused.antt =====
-- xcan_frame_copy and xcan_frame_deepcopy with the blocks of no bytes that XCAN_ZALLOC asks for.
use xcan_router.Prelude.{◌+◌, ◌≡◌, ◌≢◌, refl, ◌⊎◌, inl, inr, true, false, arith, Bool-cases, ==_ne}
use xcan_router.Memory.{Ptr, null, Mem, done, crash, IsFresh}
use xcan_router.Frame.{frame_copy, deepcopy_payload, frame_deepcopy}

module _ {m : Mem} (f : Ptr) (fr : IsFresh m) where
  copy_refused :
      m.refuses m.brk ≡ true → frame_copy 0 f m ≡ done null (record m { brk = m.brk + 1 })
  unfolding frame_copy
  copy_refused refused = grind arith

  copy_crash : m.refuses m.brk ≡ false → frame_copy 0 f m ≡ crash
  unfolding frame_copy
  copy_crash given = grind (arith, fr.no_frame m.brk)

  payload_crash : (m' : Mem) → deepcopy_payload 0 f null m' ≡ crash
  unfolding deepcopy_payload
  payload_crash m' = ground arith

  deepcopy_crash : f ≢ null → frame_deepcopy 0 f m ≡ crash
  unfolding frame_deepcopy
  deepcopy_crash ne = elim (Bool-cases (m.refuses m.brk)) [
    | inl refused ↦
        rw (copy_refused refused, ==_ne f null ne) (payload_crash (record m { brk = m.brk + 1 }))
    | inr given ↦ rw (copy_crash given) refl
  ]

  -- With the blocks of no bytes that the source asks calloc for, no frame is copied. A refused block
  -- is reported by NULL from xcan_frame_copy, and nothing else changes; where it is given, the copy
  -- is written outside of it. xcan_frame_deepcopy of any frame ends in undefined behaviour, since it
  -- goes on without a test where the copy is NULL.
  pub copies-elem_zero :
      f ≢ null
      → (((m.refuses m.brk ≡ true) × (frame_copy 0 f m ≡ done null (record m { brk = m.brk + 1 })))
          ⊎ ((m.refuses m.brk ≡ false) × (frame_copy 0 f m ≡ crash)))
        × (frame_deepcopy 0 f m ≡ crash)
  copies-elem_zero ne = (
    elim (Bool-cases (m.refuses m.brk)) [
      | inl refused ↦ inl (refused, copy_refused refused)
      | inr given ↦ inr (given, copy_crash given)
    ],
    deepcopy_crash ne,
  )
