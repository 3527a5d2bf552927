-- ===== src/Frame/Count.antt =====
-- The usage count from allocation on: it starts at 0, and not at 1.
use xcan_router.Memory.{Ptr, Mem, pure, ◌>>=◌, ◌>>◌, Returns, IsFresh, Returns-bind}
use xcan_router.Prelude.{
  ℕ, ◌+◌, ◌<◌, ◌≡◌, refl, ◌∙◌, false, none, some, arith, set, replicate, length-replicate,
  get_elem?-replicate,
}
use xcan_router.Frame.{frame_alloc, frame_copy, frame_discard}
use xcan_router.Frame.Alloc.{new_frame, Allocated, alloc-Allocated}
use xcan_router.Frame.Lifetime.{Holds, discard-kept, discard-last}
use xcan_router.Frame.Copy.{copy-Holds}

zeros_Holds :
    (size : ℕ) (m : Mem) {f : Ptr} {m' : Mem}
    → 0 < m.brk
    → Allocated size m f m'
    → Holds m' f (new_frame size (m.brk + 1)) (replicate (size + 1) 0) 0
zeros_Holds size m start (e, at, bytes, _, _, _, _) =
    ground
      (arith, length-replicate {A = ℕ} (size + 1) 0, get_elem?-replicate {A = ℕ} (size + 1) size 0)

module _ (size : ℕ) {m : Mem} (fr : IsFresh m) (a : m.refuses m.brk ≡ false)
    (b : m.refuses (m.brk + 1) ≡ false) where
  -- With a calloc that is asked for whole blocks and gives them, a frame that is allocated and
  -- given back is not freed: its count goes from 0 to 255.
  pub alloc_discard-leaks :
      Returns
        (λ f m'.
          (f ≡ m.brk)
          × Holds m' f (new_frame size (m.brk + 1)) (set (replicate (size + 1) 0) size 255) 255)
        ((do f ← frame_alloc 1 size; frame_discard f; pure f) m)
  alloc_discard-leaks =
      Returns-bind _ _ (frame_alloc 1 size m) (alloc-Allocated m size fr a b) λ f m1 al.
        Returns-bind _ _ (frame_discard f m1)
          (discard-kept (zeros_Holds size m fr.started al) (omega arith) (omega arith))
          λ _ m2 (h, _). (al.0, h)

  -- Giving back a copy frees the payload that the original frame still points at.
  pub copy_discard-dangles :
      (m' : Mem) (f : Ptr)
      → Allocated size m f m'
      → m'.refuses m'.brk ≡ false
      → Returns
          (λ g m''.
            (m''.frames f ≡ some (new_frame size (m.brk + 1))) × (m''.buffers (m.brk + 1) ≡ none))
          ((do g ← frame_copy 1 f; frame_discard g; pure g) m')
  copy_discard-dangles m' f al granted =
      let h = zeros_Holds size m fr.started al in
      let (_, _, _, _, _, _, fr') = al in
      Returns-bind _ _ (frame_copy 1 f m') (copy-Holds fr' h granted) λ g m1 (e, hg, hf, same).
        Returns-bind _ _ (frame_discard g m1) (discard-last hg refl) λ _ m2 (_, freed, rest).
          (rest.frames_same f (ground (arith, fr'.no_frame m'.brk)) ∙ hf.live, freed)
