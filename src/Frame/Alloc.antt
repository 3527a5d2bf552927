-- ===== src/Frame/Alloc.antt =====
-- What xcan_frame_alloc returns.
use xcan_router.Prelude.{ℕ, ◌+◌, ◌%◌, ◌^◌, ◌≡◌, ◌≢◌, ◌⊎◌, true, false, some, arith, replicate}
use xcan_router.Memory.{Ptr, null, Frame, Mem, crash, Returns, IsFresh, zero_frame}
use xcan_router.Frame.{frame_alloc}

-- The frame that the code builds, where `calloc` gives what it is asked for.
abbrev pub new_frame : ℕ → Ptr → Frame
new_frame size block = record zero_frame {
  len = size % 2 ^ 16;
  payload = block;
  usage_block = block;
  usage_offset = size;
}

abbrev pub Allocated : ℕ → Mem → Ptr → Mem → Type 0
Allocated size m f m' =
    (f ≡ m.brk)
    × (m'.frames f ≡ some (new_frame size (m.brk + 1)))
    × (m'.buffers (m.brk + 1) ≡ some (replicate (size + 1) 0))
    × ((p : Ptr) → p ≢ m.brk → m'.frames p ≡ m.frames p)
    × ((p : Ptr) → p ≢ m.brk + 1 → m'.buffers p ≡ m.buffers p)
    × (m'.queues ≡ m.queues)
    × IsFresh m'

module _ (m : Mem) (size : ℕ) (fr : IsFresh m) where
  -- With the calloc of blocks of no bytes that XCAN_ZALLOC asks for, allocation gives NULL or is a
  -- crash at the first access to the frame.
  pub alloc-elem_zero :
      Returns (λ f _. f ≡ null) (frame_alloc 0 size m) ⊎ (frame_alloc 0 size m ≡ crash)
  unfolding frame_alloc
  alloc-elem_zero = ground arith

  -- Where calloc is asked for whole blocks and gives both, the frame is fresh, with a payload of
  -- zeros, a length modulo 2 ^ 16 and a usage count of 0 behind the payload. Nothing else changes.
  pub alloc-Allocated :
      m.refuses m.brk ≡ false
      → m.refuses (m.brk + 1) ≡ false
      → Returns (Allocated size m) (frame_alloc 1 size m)
  unfolding frame_alloc
  alloc-Allocated a b = grind (arith, fr.no_frame, fr.no_buffer, fr.no_queue)

  -- Where the frame itself is refused, the result is NULL.
  pub alloc-none :
      m.refuses m.brk ≡ true
      → Returns (λ f m'. (f ≡ null) × (m' ≡ record m { brk = m.brk + 1 })) (frame_alloc 1 size m)
  unfolding frame_alloc
  alloc-none a = ground arith

  -- Where only the payload is refused, the frame is used after it was freed.
  pub alloc-crash :
      m.refuses m.brk ≡ false → m.refuses (m.brk + 1) ≡ true → frame_alloc 1 size m ≡ crash
  unfolding frame_alloc
  alloc-crash a b = ground arith
