-- ===== src/Frame/Tests.antt =====
-- Frames on the sample memory.
use xcan_router.Prelude.{◌≡◌, ◌⊎◌, true, false, arith}
use xcan_router.Memory.{null, done, crash}
use xcan_router.Sample.{memory, memory-IsFresh}
use xcan_router.Frame.{frame_copy, frame_deepcopy}
use xcan_router.Frame.Refused.{copies-elem_zero}

copies-elem_zero_example :
    (((memory.refuses 10 ≡ true) × (frame_copy 0 1 memory ≡ done null (record memory { brk = 11 })))
      ⊎ ((memory.refuses 10 ≡ false) × (frame_copy 0 1 memory ≡ crash)))
    × (frame_deepcopy 0 1 memory ≡ crash)
copies-elem_zero_example = copies-elem_zero 1 memory-IsFresh (omega arith)
