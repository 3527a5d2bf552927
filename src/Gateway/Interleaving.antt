-- ===== src/Gateway/Interleaving.antt =====
-- The gateway as a state machine: a step is one call of the interrupt handler or one turn of a
-- task, and they follow each other in any order.
use xcan_router.Prelude.{
  ℕ, ◌+◌, ◌≤◌, ◌≡◌, refl, ap, subst, ◌≢◌, inl, inr, Option, none, some, List, [], ◌∷◌, arith, ltb,
  ◌==◌, Bool-cases, length, take,
}
use xcan_router.Run.{done, IfDone, IfDone-bind}
use xcan_router.Gateway.Ecu.{Ecu, Pdu, CanMessage}
use xcan_router.Gateway.Rtos.{Rtos}
use xcan_router.Gateway.State.{State, malloc_copy}
use xcan_router.Gateway.Can.{
  CanEvent, rx_complete, tx_complete, other_event, queue_pdu, can_build_pdu, can_filter_frame,
  can_event_handler,
}
use xcan_router.Gateway.Routing.{pdu_task_turn}
use xcan_router.Gateway.Control.{gateway_task_turn, heartbeat_turn}
use xcan_router.Gateway.Ownership.{
  one, one_zero, count, count-append, alive, OwnedWith, Owned, held, free-Owned,
}
use xcan_router.Gateway.Schedule.{
  HasRoom-cases, pdu_turn-Owned, gateway_turn-Owned, heartbeat-Owned,
}

module _ (rtos : Rtos) where
  queue_pdu-Owned :
      (x : Pdu) (s : State rtos.Handle)
      → OwnedWith rtos x.payload s
      → IfDone (λ _ s'. Owned rtos s') (queue_pdu rtos x s)
  queue_pdu-Owned x s o = elim (HasRoom-cases rtos s.pdu_queue) [
    | inr full ↦
        rw (queue_pdu, rtos.send_back_none s.pdu_queue x full) (free-Owned rtos x.payload s o)
    | inl room ↦
        let (q, sent, now, _) = rtos.send_back_some s.pdu_queue x room in
        rw (queue_pdu, sent)
          (record {
            owned = λ a ne. omega (
              arith,
              o.owned a ne,
              one_zero a ne,
              ap (count a) now,
              count-append a (rtos.contents s.pdu_queue) x,
            );
            fresh = o.fresh;
          })
  ]

  -- A block that malloc gives is nobody's yet.
  malloc-Owned :
      (bytes : List ℕ) (s : State rtos.Handle)
      → Owned rtos s
      → IfDone (λ p s'. OwnedWith rtos p s') (malloc_copy bytes s)
  malloc-Owned bytes s o = elim (Bool-cases (s.refuses s.brk)) [
    | inl refused ↦ elim (Bool-cases (length bytes == 0)) [
      | inl is ↦ rw (malloc_copy, refused, is) o
      | inr other ↦ rw (malloc_copy, refused, other) tt
    ]
    | inr gives ↦
        rw (malloc_copy, gives)
          (record {
            owned = λ a ne. ground (arith, o.owned a ne, one_zero a ne, o.fresh s.brk);
            fresh = λ a le. ground (arith, o.fresh a);
          })
  ]

  build-Owned :
      (f : CanMessage) (s : State rtos.Handle)
      → Owned rtos s
      → IfDone (λ _ s'. Owned rtos s') (can_build_pdu rtos f s)
  unfolding can_build_pdu
  build-Owned f s o = elim (Bool-cases (rtos.is_full s.pdu_queue)) [
    | inl full ↦ rw (can_build_pdu, full) o
    | inr room ↦ elim (Bool-cases (ltb (length f.content) f.length)) [
      | inl short ↦ rw (can_build_pdu, room, short) tt
      | inr whole ↦
          rw (can_build_pdu, room, whole)
            (IfDone-bind _ _ (malloc_copy (take f.length f.content) s)
              (malloc-Owned (take f.length f.content) s o)
              λ p t taken.
                queue_pdu-Owned (record { id = f.id; length = f.length; payload = p }) t taken)
    ]
  ]

  handler-Owned :
      (event : CanEvent) (f : CanMessage) (s : State rtos.Handle)
      → Owned rtos s
      → IfDone (λ _ s'. Owned rtos s') (can_event_handler rtos event f s)
  unfolding can_event_handler
  handler-Owned rx_complete f s o = elim (Bool-cases (can_filter_frame f)) [
    | inl accepted ↦ rw (can_event_handler, accepted) (build-Owned f s o)
    | inr rejected ↦ rw (can_event_handler, rejected) o
  ]
  handler-Owned tx_complete f s o = o
  handler-Owned other_event f s o = o

  nothing_held :
      (s : State rtos.Handle) (a : ℕ)
      → a ≢ 0
      → rtos.contents s.pdu_queue ≡ []
      → rtos.contents s.gateway_queue ≡ []
      → rtos.contents s.fw_queue ≡ []
      → held rtos s a + one a 0 ≤ alive s a
  nothing_held s a ne pdus commands parts =
      omega (arith, ap (count a) pdus, ap (count a) commands, ap (count a) parts, one_zero a ne)

  block_of :
      (v : Option (List ℕ))
      → 1 ≤ (elim v [ none ↦ 0 | some _ ↦ 1 ])
      → (bytes : List ℕ) × (v ≡ some bytes)
  block_of none le = absurd (omega arith)
  block_of (some bytes) le = (bytes, refl)

  alive_le : (s : State rtos.Handle) (a : ℕ) → alive s a ≤ 1
  alive_le s a = ground arith

  one_self : (a : ℕ) → one a a ≡ 1
  one_self a = ground arith

  owned_at :
      (s : State rtos.Handle) (x : Pdu) (xs : List Pdu)
      → rtos.contents s.pdu_queue ≡ x ∷ xs
      → held rtos s x.payload + one x.payload 0 ≤ alive s x.payload
      → one x.payload 0 ≡ 0
      → ((bytes : List ℕ) × (s.blocks x.payload ≡ some bytes))
        × (count x.payload xs ≡ 0)
        × (count x.payload (rtos.contents s.gateway_queue) ≡ 0)
        × (count x.payload (rtos.contents s.fw_queue) ≡ 0)
  owned_at s x xs head le zero_at =
      let here = ap (count x.payload) head in
      let self = one_self x.payload in
      let top = alive_le s x.payload in
      (
        block_of (s.blocks x.payload) (omega (arith, here, self, le)),
        omega (arith, here, self, top, le),
        omega (arith, here, self, top, le),
        omega (arith, here, self, top, le),
      )

  module _ (decode : List ℕ → Ecu) where
    -- A step of the system that does not run into undefined behaviour.
    pub data Step : State rtos.Handle → State rtos.Handle → Type 0 where
      interrupt :
          (event : CanEvent) (f : CanMessage) {s s' : State rtos.Handle}
          → can_event_handler rtos event f s ≡ done tt s'
          → Step s s'
      route : {s s' : State rtos.Handle} → pdu_task_turn rtos s ≡ done tt s' → Step s s'
      control :
          {s s' : State rtos.Handle} → gateway_task_turn decode rtos s ≡ done tt s' → Step s s'
      beat : {s s' : State rtos.Handle} → heartbeat_turn s ≡ done tt s' → Step s s'

    pub data Steps : State rtos.Handle → State rtos.Handle → Type 0 where
      here : {s : State rtos.Handle} → Steps s s
      then_step : {s t u : State rtos.Handle} → Steps s t → Step t u → Steps s u

    Step-Owned : {s s' : State rtos.Handle} → Step s s' → Owned rtos s → Owned rtos s'
    Step-Owned (interrupt event f {s} e) o =
        subst (IfDone (λ _ s'. Owned rtos s')) e (handler-Owned event f s o)
    Step-Owned (route {s} e) o = subst (IfDone (λ _ s'. Owned rtos s')) e (pdu_turn-Owned rtos s o)
    Step-Owned (control {s} e) o =
        subst (IfDone (λ _ s'. Owned rtos s')) e (gateway_turn-Owned rtos decode s o)
    Step-Owned (beat {s} e) o = subst (IfDone (λ _ s'. Owned rtos s')) e (heartbeat-Owned rtos s o)

    Steps-Owned : {s s' : State rtos.Handle} → Steps s s' → Owned rtos s → Owned rtos s'
    Steps-Owned here o = o
    Steps-Owned (then_step steps step) o = Step-Owned step (Steps-Owned steps o)

    -- From empty queues and a heap without blocks at addresses not yet handed out, whatever the
    -- order of interrupts and turns of the three tasks, none of which ran into undefined behaviour:
    -- the payload of a PDU at the head of the router's queue, unless it is null, is a live block,
    -- and no other PDU in the three queues has it.
    pub payload-owned :
        (start s : State rtos.Handle) (x : Pdu) (xs : List Pdu)
        → rtos.contents start.pdu_queue ≡ []
        → rtos.contents start.gateway_queue ≡ []
        → rtos.contents start.fw_queue ≡ []
        → ((a : ℕ) → start.brk ≤ a → start.blocks a ≡ none)
        → Steps start s
        → rtos.contents s.pdu_queue ≡ x ∷ xs
        → x.payload ≢ 0
        → ((bytes : List ℕ) × (s.blocks x.payload ≡ some bytes))
          × (count x.payload xs ≡ 0)
          × (count x.payload (rtos.contents s.gateway_queue) ≡ 0)
          × (count x.payload (rtos.contents s.fw_queue) ≡ 0)
    payload-owned start s x xs pdus commands parts fresh steps head ne =
        let start_owned : Owned rtos start = record {
          owned = λ a other. nothing_held start a other pdus commands parts;
          fresh = fresh;
        } in
        let o = Steps-Owned steps start_owned in
        owned_at s x xs head (o.owned x.payload ne) (one_zero x.payload ne)
