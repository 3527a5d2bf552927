-- ===== src/Queue/Drain.antt =====
-- A run of frames that are given back: xcan_queue_empty.
use xcan_router.Memory.{
  Ptr, null, Frame, Mem, Outcome, Cmd, then_run, ◌>>=◌, Returns, Returns-bind, Returns-mono,
  Returns-done,
}
use xcan_router.Prelude.{
  ℕ, zero, suc, ◌+◌, ◌<◌, ◌≡◌, refl, subst, ◌∙◌, true, false, none, List, [], ◌∷◌, arith, ==_ne,
  length, has,
}
use xcan_router.Frame.{frame_discard}
use xcan_router.Frame.Lifetime.{Holds}
use xcan_router.Queue.{dequeue, queue_empty, empty_loop}
use xcan_router.Queue.Chain.{Queued}
use xcan_router.Queue.Fifo.{dequeue-nil, dequeue-cons}
use xcan_router.Queue.Release.{Released, release-one}

-- Each frame of the first list is the only use of its payload, which the second list names.
abbrev pub Loaded : Mem → List Ptr → List Ptr → Type 0
Loaded m [] [] = Unit
Loaded m [] (c ∷ cs) = ⊥
Loaded m (p ∷ ps) [] = ⊥
Loaded m (p ∷ ps) (c ∷ cs) =
    ((x : Frame) × (b : List ℕ) × (x.payload ≡ c) × Holds m p x b 1)
    × (has p ps ≡ false)
    × (has c cs ≡ false)
    × Loaded m ps cs

Holds-frame :
    {m m' : Mem} {f : Ptr} {x : Frame} {b : List ℕ}
    → Holds m f x b 1
    → m'.frames f ≡ m.frames f
    → m'.buffers x.payload ≡ m.buffers x.payload
    → Holds m' f x b 1
Holds-frame h e bs = ground arith

pub Loaded-frame :
    (ps cs : List Ptr) (m m' : Mem)
    → ((a : Ptr) → has a ps ≡ true → m'.frames a ≡ m.frames a)
    → ((a : Ptr) → has a cs ≡ true → m'.buffers a ≡ m.buffers a)
    → Loaded m ps cs
    → Loaded m' ps cs
Loaded-frame [] [] m m' fs bs l = tt
Loaded-frame [] (c ∷ cs) m m' fs bs l = l
Loaded-frame (p ∷ ps) [] m m' fs bs l = l
Loaded-frame (p ∷ ps) (c ∷ cs) m m' fs bs ((x, b, e, h), op, oc, l) = (
  (x, b, e, Holds-frame h (fs p (ground arith)) (bs x.payload (ground arith))),
  op,
  oc,
  Loaded-frame ps cs m m' (λ a i. fs a (ground arith)) (λ a i. bs a (ground arith)) l,
)

-- All these frames and payloads are given back, and no others change, apart from links.
pub record Drained (ps cs : List Ptr) (m m' : Mem) : Type 0 where
  pub frames_gone : (a : Ptr) → has a ps ≡ true → m'.frames a ≡ none
  pub payloads_gone : (a : Ptr) → has a cs ≡ true → m'.buffers a ≡ none
  pub frames_same : (a : Ptr) → has a ps ≡ false → m'.frames a ≡ m.frames a
  pub buffers_same : (a : Ptr) → has a cs ≡ false → m'.buffers a ≡ m.buffers a
  pub devices_same : m'.devices ≡ m.devices

pub Drained-nil : (m : Mem) → Drained [] [] m m
Drained-nil m = record {
  frames_gone = λ a i. cc;
  payloads_gone = λ a i. cc;
  frames_same = λ a o. refl;
  buffers_same = λ a o. refl;
  devices_same = refl;
}

pub Drained-cons :
    {p c : Ptr} {ps cs : List Ptr} {m m' m'' : Mem}
    → has p ps ≡ false
    → has c cs ≡ false
    → Released p c m m'
    → Drained ps cs m' m''
    → Drained (p ∷ ps) (c ∷ cs) m m''
Drained-cons {p} {c} op oc r d = record {
  frames_gone = λ a i. ground (arith, d.frames_gone a, d.frames_same a, r.frame_gone);
  payloads_gone = λ a i. ground (arith, d.payloads_gone a, d.buffers_same a, r.payload_gone);
  frames_same = λ a o. ground (arith, d.frames_same a, r.frames_same a);
  buffers_same = λ a o. ground (arith, d.buffers_same a, r.buffers_same a);
  devices_same = d.devices_same ∙ r.devices_same;
}

pub Loaded-Released :
    (ps cs : List Ptr) {p c d : Ptr} {m m' : Mem}
    → d ≡ c
    → has p ps ≡ false
    → has c cs ≡ false
    → Released p d m m'
    → Loaded m ps cs
    → Loaded m' ps cs
Loaded-Released ps cs {m = m} {m' = m'} e op oc r =
    Loaded-frame ps cs m m' (λ a i. r.frames_same a (ground arith))
      (λ a i. r.buffers_same a (ground arith))

-- The first round's dequeue and the rounds of the loop, as one.
abbrev drain_from : ℕ → Ptr → Cmd (Unit {0})
drain_from k qp = do f ← dequeue qp; empty_loop k qp f

drain-all :
    (k : ℕ) (qp : Ptr) {m : Mem} (ps cs : List Ptr)
    → Queued m qp ps
    → Loaded m ps cs
    → length ps < k
    → Returns (λ _ m'. Queued m' qp [] × Drained ps cs m m') (drain_from k qp m)
unfolding empty_loop
drain-all zero qp ps cs is l h = absurd (omega arith)
drain-all (suc k) qp {m} [] [] (q, is) l h = rw (dequeue-nil is) ((q, is), Drained-nil m)
drain-all (suc k) qp [] (c ∷ cs) is l h = absurd l
drain-all (suc k) qp (p ∷ ps) [] is l h = absurd l
drain-all (suc k) qp {m} (p ∷ ps) (c ∷ cs) (q, is) ((x, b, e, hd), op, oc, l) h =
    let (f, m1, run, (at, _, _)) = Returns-done (dequeue qp m) (dequeue-cons is) in
    rw (run, ==_ne f null (ground (arith, hd.ne_null)))
      (Returns-bind _ (λ _. drain_from k qp) (frame_discard f m1)
        (subst
          (λ (o : Outcome Ptr).
            Returns (λ _ m'. Queued m' qp ps × Released p x.payload m m')
              (then_run o frame_discard))
          run (release-one (q, is) hd))
        λ _ m2 (is2, r).
          Returns-mono _ (drain_from k qp m2)
            (drain-all k qp ps cs is2 (Loaded-Released ps cs e op oc r l) (omega arith))
            λ _ m3 (is3, d).
              (is3, Drained-cons op oc (subst (λ (c : Ptr). Released p c m m2) e r) d))

-- Of a queue that is in order and whose frames are each the only use of their payload,
-- xcan_queue_empty comes to an end, leaves the queue empty, and gives back exactly its frames and
-- their payloads.
pub queue_empty-drains :
    (qp : Ptr) {m : Mem} (ps cs : List Ptr)
    → Queued m qp ps
    → Loaded m ps cs
    → Returns (λ _ m'. Queued m' qp [] × Drained ps cs m m') (queue_empty qp m)
unfolding queue_empty
queue_empty-drains qp ps cs (q, is) l =
    rw (==_ne qp null is.ne_null, is.live)
      (drain-all (q.frames + 1) qp ps cs (q, is) l (omega (arith, is.counts)))
