-- ===== src/Device/Intake.antt =====
-- devloop_in: the frames that a device has received.
use xcan_router.Memory.{Ptr, null, Device, Mem, Returns, Returns-bind, Returns-mono}
use xcan_router.Prelude.Int.{pos}
use xcan_router.Prelude.{
  ℕ, zero, suc, ◌-◌, ◌<◌, ◌≡◌, ap, ◌∙◌, ◌≢◌, false, Option, some, List, [], ◌∷◌, arith, ◌==◌, ==_ne,
  length, take, drop,
}
use xcan_router.Queue.{dequeue}
use xcan_router.Queue.Chain.{Queued, head_cons}
use xcan_router.Queue.Fifo.{Relinks, Relinks-refl, Relinks-trans, Relinks-devices, dequeue-cons}
use xcan_router.Device.{devloop_in_rounds, devloop_in}
use xcan_router.Datalink.{datalink_receive}

rounds-drains :
    (k n : ℕ) (dev : Ptr) {m : Mem} {d : Device} (ps : List Ptr)
    → dev ≢ null
    → m.devices dev ≡ some d
    → Queued m d.q_in ps
    → n < k
    → Returns
        (λ r m'.
          (r ≡ pos (n - length ps))
          × Queued m' d.q_in (drop n ps)
          × Relinks d.q_in (take n ps) m m')
        (devloop_in_rounds k dev (pos n) m)
unfolding devloop_in_rounds datalink_receive
rounds-drains zero n dev ps ne live is h = absurd (omega arith)
rounds-drains (suc k) zero dev {m} {d} ps ne live is h =
    (ground arith, is, Relinks-refl d.q_in [] m)
rounds-drains (suc k) (suc n) dev {m} {d} [] ne live (q, is) h =
    rw (==_ne dev null ne, live, ==_ne d.q_in null is.ne_null, is.live, is.counts)
      (ground arith, (q, is), Relinks-refl d.q_in [] m)
rounds-drains (suc k) (suc n) dev {m} {d} (p ∷ ps) ne live (q, is) h =
    rw
      (
        ==_ne dev null ne,
        live,
        ==_ne d.q_in null is.ne_null,
        is.live,
        ==_ne q.frames 0 (ground (arith, is.counts)),
      )
      (Returns-bind _ _ (dequeue d.q_in m) (dequeue-cons is) λ f m1 (e, (q1, is1, _), links).
        let fne : (f == null) ≡ false = ground (arith, head_cons is.chain) in
        rw fne (
          Returns-mono _ (devloop_in_rounds k dev (pos n) m1)
            (rounds-drains k n dev ps ne
              (ap (λ (g : Ptr → Option Device). g dev) (Relinks-devices links) ∙ live) (q1, is1)
              (omega arith))
            λ r m2 (e2, is2, links2). (e2 ∙ ap pos (omega arith), is2, Relinks-trans links links2)))

-- A live device whose input queue is in order hands in as many of its received frames as the score
-- allows, the oldest first, and the score falls by their number. Each stays allocated, with its
-- contents.
pub devloop_in-drains :
    (n : ℕ) (dev : Ptr) {m : Mem} {d : Device} (ps : List Ptr)
    → dev ≢ null
    → m.devices dev ≡ some d
    → Queued m d.q_in ps
    → Returns
        (λ r m'.
          (r ≡ pos (n - length ps))
          × Queued m' d.q_in (drop n ps)
          × Relinks d.q_in (take n ps) m m')
        (devloop_in dev (pos n) m)
unfolding devloop_in
devloop_in-drains n dev {m} {d} ps ne live is =
    rw (==_ne dev null ne) (rounds-drains (suc n) n dev ps ne live is (omega arith))
