-- ===== src/Queue.antt =====
-- stack/include/xcan_queue.h: the queue of frames, linked through the frames themselves.
pub mod Chain
pub mod Drain
pub mod Fifo
pub mod Release
mod Tests
use xcan_router.Prelude.{
  ℕ, zero, suc, ◌+◌, ◌-◌, ◌%◌, ◌^◌, ◌&&◌, not, some, ◌==◌, leb, ltb, if◌then◌else◌,
}
use xcan_router.Prelude.Int.{ℤ, pos, negsuc}
use xcan_router.Memory.{
  Ptr, null, Queue, Cmd, spin, pure, ◌>>=◌, ◌>>◌, load_frame, set_frame, load_queue, set_queue,
}
use xcan_router.Frame.{frame_discard}

-- `frames` is a uint32_t, and its increment wraps.
unfoldable pub enqueue : Ptr → Ptr → Cmd ℤ
enqueue qp f = do
  q ← load_queue qp
  if not (q.max_frames == 0) && leb q.max_frames q.frames then pure (negsuc 0) else do
    set_frame f (λ x. record x { next = null })
    (if q.head == null then set_queue qp (λ q. record q { head = f; tail = f; frames = 0 }) else (do
      set_frame q.tail (λ x. record x { next = f })
      set_queue qp (λ q. record q { tail = f })))
    set_queue qp (λ q. record q { frames = (q.frames + 1) % 2 ^ 32 })
    pure (pos 0)

-- The count is decremented only where it is at least 1.
unfoldable pub dequeue : Ptr → Cmd Ptr
dequeue qp = do
  q ← load_queue qp
  if q.head == null then pure null else if ltb q.frames 1 then pure null else do
    x ← load_frame q.head
    set_queue qp (λ q. record q { head = x.next })
    set_queue qp (λ q. record q { frames = q.frames - 1 })
    now ← load_queue qp
    (if now.head == null then set_queue qp (λ q. record q { tail = null }) else pure tt)
    set_frame q.head (λ x. record x { next = null })
    pure q.head

unfoldable pub queue_peek : Ptr → Cmd Ptr
queue_peek qp = do q ← load_queue qp; if ltb q.frames 1 then pure null else pure q.head

-- The loop of xcan_queue_empty, with a bound on its rounds.
unfoldable pub empty_loop : ℕ → Ptr → Ptr → Cmd (Unit {0})
empty_loop zero qp f = λ _. spin
empty_loop (suc k) qp f =
    if f == null then pure tt else do frame_discard f; f ← dequeue qp; empty_loop k qp f

-- It takes one round for each frame, and one to see that there is none left.
unfoldable pub queue_empty : Ptr → Cmd (Unit {0})
unfolding empty_loop
queue_empty qp = do q ← load_queue qp; f ← dequeue qp; empty_loop (q.frames + 1) qp f
