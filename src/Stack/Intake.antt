-- ===== src/Stack/Intake.antt =====
-- A reception keeps the input queues of the pool in order.
use xcan_router.Prelude.{
  ℕ, ◌+◌, ◌^◌, ◌≤◌, ◌<◌, ◌≡◌, refl, sym, ap, subst, ◌∙◌, ◌≢◌, ◌⊎◌, inl, inr, true, false, Option,
  some, List, [], ◌∷◌, ◌++◌, arith, ltb, if◌then◌else◌, Bool-cases, ==_ne, has,
}
use xcan_router.Prelude.Int.{ℤ, is_zero, pos}
use xcan_router.Memory.{
  Ptr, null, Queue, Mem, Outcome, Cmd, load_device, IsFresh, pure, ◌>>=◌, ◌>>◌, Returns,
  Returns-mono, IfDone, IfDone-bind,
}
use xcan_router.Frame.{frame_discard}
use xcan_router.Frame.Lifetime.{discard-kept}
use xcan_router.Queue.{enqueue}
use xcan_router.Queue.Chain.{IsQueue, has-append}
use xcan_router.Queue.Fifo.{IsFull, after_enqueue, enqueue-append, enqueue-full}
use xcan_router.Device.{max_devices}
use xcan_router.Device.Slots.{Slot, Slots, Waiting, update, SlotHolds, Intake, Intake-change}
use xcan_router.Stack.{received_frame, stack_recv}
use xcan_router.Stack.Receive.{Built, Built-Holds}
use xcan_router.Run.{IfDone-Returns, IfDone-mono}
use xcan_router.Stack.Kept.{Kept, Intake-Kept, slot_below, Received-cases}

-- Nothing waits beyond the pool.
abbrev pub Within : Waiting → Type 0
Within c = (j : ℕ) → max_devices ≤ j → c j ≡ []

-- The count of a queue is not about to wrap around.
abbrev pub HasCount : Mem → Ptr → Type 0
HasCount m qp = (q : Queue) → m.queues qp ≡ some q → q.frames + 1 < 2 ^ 32

room_or-IsFull : (q : Queue) → (q.max_frames ≡ 0 ⊎ q.frames < q.max_frames) ⊎ IsFull q
room_or-IsFull q = grind arith

module _ (can_id : ℕ) (payload : List ℕ) {s : Slots} {m : Mem} {c : Waiting} (i : ℕ) {x : Slot}
    (intake : Intake m s c) (within : Within c) (fr : IsFresh m) (below : i < max_devices)
    (is : s i ≡ some x) where
  abbrev pub Waits : {A : Type 0} → Outcome A → Type 0
  Waits o = IfDone (λ _ m'. (c' : Waiting) × Intake m' s c' × Within c') o

  fresh_frame : (j : ℕ) → has m.brk (c j) ≡ false
  fresh_frame j = elim (Bool-cases (ltb j max_devices)) [
    | inl e ↦ slot_below m.brk j (s j) (c j) fr (omega arith) (intake.held j (ground arith))
    | inr e ↦ rw (within j (ground arith)) refl
  ]

  another : (j : ℕ) (a : Ptr) → j ≢ i → has a (c j) ≡ true → has a (m.brk ∷ c i) ≡ false
  another j a ne h = ground (arith, fresh_frame j, intake.own_frames j i a ne h)

  behind_others : (j : ℕ) (a : Ptr) → j ≢ i → has a (c j) ≡ true → has a (c i ++ m.brk ∷ []) ≡ false
  behind_others j a ne h = ground (arith, has-append a (c i) (m.brk ∷ []), another j a ne h)

  update-Within : (v : List Ptr) → Within (update c i v)
  update-Within v j le = rw (==_ne j i (omega arith)) (within j le)

  Built-Kept : {f : Ptr} {m1 : Mem} → Built x.dev can_id payload m f m1 → Kept m.brk m m1
  Built-Kept t = record {
    frames_same = t.frames_same;
    queues_same = t.queues_same;
    devices_same = t.devices_same;
    pool_same = t.pool_same;
  }

  Built-Intake : {f : Ptr} {m1 : Mem} → Built x.dev can_id payload m f m1 → Intake m1 s c
  Built-Intake t = Intake-Kept (Built-Kept t) (λ j _. fresh_frame j) intake

  here : {m1 : Mem} → Intake m1 s c → SlotHolds m1 i (some x) (c i)
  here {m1} intake1 = subst (λ (o : Option Slot). SlotHolds m1 i o (c i)) is (intake1.held i below)

  -- The new frame goes into the queue.
  queued :
      (f : Ptr) {m1 : Mem}
      → Built x.dev can_id payload m f m1
      → (q : Queue) → IsQueue m1 x.device.q_in q (c i)
      → q.max_frames ≡ 0 ⊎ q.frames < q.max_frames
      → q.frames + 1 < 2 ^ 32
      → Returns
          (λ r m2. (r ≡ pos 0) × Intake m2 s (update c i (c i ++ m.brk ∷ [])))
          (enqueue x.device.q_in f m1)
  queued f {m1} t q isq room small =
      Returns-mono _ (enqueue x.device.q_in f m1)
        (enqueue-append f isq room (ground (arith, fr.started, t.at_brk))
          (ap m1.frames t.at_brk ∙ t.frame) (rw (t.at_brk) (fresh_frame i)) small)
        λ r m2 (e, is2, links). (
          e,
          Intake-change i (Built-Intake t) below is (c i ++ m.brk ∷ []) (f ∷ c i)
              (
                after_enqueue q f,
                subst (λ (p : Ptr). IsQueue m2 x.device.q_in (after_enqueue q f) (c i ++ p ∷ []))
                    t.at_brk is2,
              )
              links
              (λ j a ne h.
                subst (λ (p : Ptr). has a (p ∷ c i) ≡ false) (sym t.at_brk) (another j a ne h))
              behind_others,
        )

  discarded-Kept :
      (f : Ptr) {m1 : Mem}
      → Built x.dev can_id payload m f m1
      → IfDone (λ _ m2. Kept m.brk m1 m2) (frame_discard f m1)
  discarded-Kept f {m1} t =
      subst (λ (p : Ptr). IfDone (λ _ m2. Kept m.brk m1 m2) (frame_discard p m1)) (sym t.at_brk)
        (IfDone-mono _ (frame_discard m.brk m1)
          (IfDone-Returns _ (frame_discard m.brk m1) (
            discard-kept
              (Built-Holds x.dev can_id payload fr
                (subst (λ (p : Ptr). Built x.dev can_id payload m p m1) t.at_brk t))
              (omega arith) (omega arith)))
          λ _ m2 (h, same). record {
            frames_same = same.frames_same;
            queues_same = same.queues_same;
            devices_same = same.devices_same;
            pool_same = same.pool_same;
          })

  -- What follows the building of the frame.
  rest_of_recv : Ptr → Cmd ℤ
  rest_of_recv f = do
    d ← load_device x.dev
    r ← enqueue d.q_in f
    if is_zero r then pure (pos 0) else (frame_discard f >> pure (pos 1))

  rest-Waits :
      (f : Ptr) {m1 : Mem}
      → HasCount m x.device.q_in
      → Built x.dev can_id payload m f m1
      → Waits (rest_of_recv f m1)
  unfolding rest_of_recv
  rest-Waits f {m1} counts t =
      let intake1 = Built-Intake t in
      let (e, ne, live, (q, isq)) = here intake1 in
      let same_queue : m.queues x.device.q_in ≡ some q =
        sym (ap (λ (g : Ptr → Option Queue). g x.device.q_in) t.queues_same) ∙ isq.live in
      elim (room_or-IsFull q) [
        | inl room ↦
            rw (==_ne x.dev null ne, live)
              (IfDone-bind _ _ (enqueue x.device.q_in f m1)
                (IfDone-Returns _ (enqueue x.device.q_in f m1)
                  (queued f t q isq room (counts q same_queue)))
                λ r m2 (e, intake2).
                  rw (e)
                    (update c i (c i ++ m.brk ∷ []), intake2, update-Within (c i ++ m.brk ∷ [])))
        | inr full ↦
            rw (==_ne x.dev null ne, live, enqueue-full isq f full)
              (IfDone-bind _ _ (frame_discard f m1) (discarded-Kept f t)
                λ _ m2 kept. (c, Intake-Kept kept (λ j _. fresh_frame j) intake1, within))
      ]

  pub recv-Waits :
      (elem : ℕ)
      → elem ≤ 1
      → (flags : ℕ) → HasCount m x.device.q_in
      → Waits (stack_recv elem x.dev can_id flags payload m)
  unfolding stack_recv rest_of_recv
  recv-Waits elem whole flags counts =
      IfDone-bind _ _ (received_frame elem x.dev can_id payload m)
        (Received-cases x.dev can_id payload fr elem whole)
        λ f m1 o. elim o [
          | inl (null_frame, kept) ↦
              rw (null_frame) (c, Intake-Kept kept (λ j _. fresh_frame j) intake, within)
          | inr t ↦ rw (==_ne f null (ground (arith, fr.started, t.at_brk))) (rest-Waits f counts t)
        ]
