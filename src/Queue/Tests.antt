-- ===== src/Queue/Tests.antt =====
-- The queue on the sample memory.
use xcan_router.Prelude.{◌≡◌, refl, inr, [], ◌∷◌, arith}
use xcan_router.Prelude.Int.{pos, negsuc}
use xcan_router.Memory.{Queue, done, Returns}
use xcan_router.Sample.{holding_first, memory, memory-IsQueue, output-IsQueue, first-Loaded}
use xcan_router.Queue.{enqueue, dequeue, queue_empty}
use xcan_router.Queue.Chain.{IsQueue, Queued}
use xcan_router.Queue.Fifo.{after_enqueue, Relinks, enqueue-append, enqueue-full, dequeue-cons}
use xcan_router.Queue.Drain.{Drained, queue_empty-drains}

enqueue-append_example :
    Returns
      (λ r m'.
        (r ≡ pos 0)
        × IsQueue m' 9 (after_enqueue holding_first 2) (1 ∷ 2 ∷ [])
        × Relinks 9 (2 ∷ 1 ∷ []) memory m')
      (enqueue 9 2 memory)
enqueue-append_example =
    enqueue-append 2 memory-IsQueue (inr (omega arith)) (omega arith) refl refl (omega arith)

enqueue-full_example : enqueue 8 1 memory ≡ done (negsuc 0) memory
enqueue-full_example = enqueue-full output-IsQueue 1 (omega arith, omega arith)

dequeue-cons_example :
    Returns
      (λ f m'.
        (f ≡ 1)
        × ((q' : Queue) × IsQueue m' 9 q' [] × (q'.max_frames ≡ 2))
        × Relinks 9 (1 ∷ []) memory m')
      (dequeue 9 memory)
dequeue-cons_example = dequeue-cons memory-IsQueue

queue_empty-drains_example :
    Returns (λ _ m'. Queued m' 9 [] × Drained (1 ∷ []) (3 ∷ []) memory m') (queue_empty 9 memory)
queue_empty-drains_example =
    queue_empty-drains 9 (1 ∷ []) (3 ∷ []) (holding_first, memory-IsQueue) first-Loaded
