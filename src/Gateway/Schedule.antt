-- ===== src/Gateway/Schedule.antt =====
-- The interrupt handler and the tasks in any order, and what they do to the payloads.
use xcan_router.Prelude.{
  ℕ, ◌+◌, ◌≤◌, ◌<◌, ◌≡◌, refl, ap, ◌⊎◌, inl, inr, none, some, List, [], ◌∷◌, arith, ltb, Bool-cases,
  length, get_elem?,
}
use xcan_router.Run.{IfDone-mono, crash, ◌>>◌, IfDone, IfDone-bind}
use xcan_router.Gateway.Ecu.{Ecu, Pdu, has_bit, type_data_bit, type_cmd_bit, type_fw_bit}
use xcan_router.Gateway.Rtos.{Rtos}
use xcan_router.Gateway.State.{State, free}
use xcan_router.Gateway.Tables.{pdu_descriptors}
use xcan_router.Gateway.Routing.{
  send_to_all, route_entry, route_data, to_gateway, to_firmware, route_pdu, pdu_task_turn,
}
use xcan_router.Gateway.Control.{gw_parse_pdu, gateway_task_turn, heartbeat_turn}
use xcan_router.Gateway.Untouched.{
  Untouched-refl, send_to_all-Untouched, heartbeat-Untouched, parse-Untouched,
}
use xcan_router.Gateway.Ownership.{
  one, one_zero, count, count-append, OwnedWith, Owned, keeps, leaks, free-Owned,
}

module _ (rtos : Rtos) where
  pub HasRoom-cases :
      (q : rtos.Handle)
      → (length (rtos.contents q) < rtos.limit q) ⊎ (rtos.limit q ≤ length (rtos.contents q))
  HasRoom-cases q = elim (Bool-cases (ltb (length (rtos.contents q)) (rtos.limit q))) [
    | inl lt ↦ inl (ground (arith, lt))
    | inr ge ↦ inr (ground (arith, ge))
  ]

  to_firmware-Owned :
      (x : Pdu) (s : State rtos.Handle)
      → OwnedWith rtos x.payload s
      → IfDone (λ _ s'. Owned rtos s') (to_firmware rtos x s)
  unfolding to_firmware
  to_firmware-Owned x s o = elim (HasRoom-cases s.fw_queue) [
    | inr full ↦
        rw (to_firmware, rtos.send_back_none s.fw_queue x full) (free-Owned rtos x.payload s o)
    | inl room ↦
        let (q, sent, now, _) = rtos.send_back_some s.fw_queue x room in
        rw (to_firmware, sent)
          (record {
            owned = λ a ne. omega (
              arith,
              o.owned a ne,
              one_zero a ne,
              ap (count a) now,
              count-append a (rtos.contents s.fw_queue) x,
            );
            fresh = o.fresh;
          })
  ]

  to_gateway-Owned :
      (x : Pdu) (s : State rtos.Handle)
      → OwnedWith rtos x.payload s
      → IfDone (λ _ s'. Owned rtos s') (to_gateway rtos x s)
  unfolding to_gateway
  to_gateway-Owned x s o = elim (HasRoom-cases s.gateway_queue) [
    | inr full ↦
        rw (to_gateway, rtos.send_back_none s.gateway_queue x full) (free-Owned rtos x.payload s o)
    | inl room ↦
        let (q, sent, now, _) = rtos.send_back_some s.gateway_queue x room in
        rw (to_gateway, sent)
          (record {
            owned = λ a ne. omega (
              arith,
              o.owned a ne,
              one_zero a ne,
              ap (count a) now,
              count-append a (rtos.contents s.gateway_queue) x,
            );
            fresh = o.fresh;
          })
  ]

  route_entry-Owned :
      (k : ℕ) (x : Pdu) (s : State rtos.Handle)
      → OwnedWith rtos x.payload s
      → IfDone (λ _ s'. Owned rtos s') (route_entry k x s)
  route_entry-Owned k x s o =
      elim (get_elem? pdu_descriptors k)
        as (λ entry.
          IfDone (λ _ s'. Owned rtos s')
            (elim entry [
              | none ↦ crash
              | some desc ↦ (send_to_all desc.dest_count desc.dest x >> free x.payload) s
            ])) [
              | none ↦ tt
              | some desc ↦
                  IfDone-bind _ (λ _. free x.payload) (send_to_all desc.dest_count desc.dest x s)
                    (send_to_all-Untouched desc.dest_count desc.dest x s s (Untouched-refl s))
                    λ _ t u. free-Owned rtos x.payload t (keeps rtos u o)
            ]

  route_pdu-Owned :
      (x : Pdu) (s : State rtos.Handle)
      → OwnedWith rtos x.payload s
      → IfDone (λ _ s'. Owned rtos s') (route_pdu rtos x s)
  unfolding route_pdu route_data
  route_pdu-Owned x s o = elim (Bool-cases (has_bit x.id type_data_bit)) [
    | inl is ↦ rw (route_pdu, is) (route_entry-Owned _ x s o)
    | inr not_data ↦ elim (Bool-cases (has_bit x.id type_cmd_bit)) [
      | inl is ↦ rw (route_pdu, not_data, is) (to_gateway-Owned x s o)
      | inr not_cmd ↦ elim (Bool-cases (has_bit x.id type_fw_bit)) [
        | inl is ↦ rw (route_pdu, not_data, not_cmd, is) (to_firmware-Owned x s o)
        | inr not_fw ↦ rw (route_pdu, not_data, not_cmd, not_fw) (free-Owned rtos x.payload s o)
      ]
    ]
  ]

  head_cases :
      (q : rtos.Handle) (xs : List Pdu)
      → rtos.contents q ≡ xs
      → (rtos.receive q ≡ none)
        ⊎ ((x : Pdu) × (q' : rtos.Handle) × (rtos.receive q ≡ some (x, q'))
            × ((a : ℕ) → count a (rtos.contents q) ≡ one a x.payload + count a (rtos.contents q')))
  head_cases q [] e = inl (rtos.receive_none q e)
  head_cases q (x ∷ xs) e =
      let (q', got, rest, _) = rtos.receive_some q x xs e in
      inr (x, q', got, λ a. omega (arith, ap (count a) e, ap (count a) rest))

  -- A queue is empty, or has a PDU at its head.
  received :
      (q : rtos.Handle)
      → (rtos.receive q ≡ none)
        ⊎ ((x : Pdu) × (q' : rtos.Handle) × (rtos.receive q ≡ some (x, q'))
            × ((a : ℕ) → count a (rtos.contents q) ≡ one a x.payload + count a (rtos.contents q')))
  received q = head_cases q (rtos.contents q) refl

  pub pdu_turn-Owned :
      (s : State rtos.Handle) → Owned rtos s → IfDone (λ _ s'. Owned rtos s') (pdu_task_turn rtos s)
  unfolding pdu_task_turn
  pdu_turn-Owned s o = elim (received s.pdu_queue) [
    | inl nothing ↦ rw (pdu_task_turn, nothing) o
    | inr (x, q, got, counts) ↦
        rw (pdu_task_turn, got)
          (route_pdu-Owned x (record s { pdu_queue = q })
            (record {
              owned = λ a ne. omega (arith, o.owned a ne, counts a, one_zero a ne);
              fresh = o.fresh;
            }))
  ]

  pub gateway_turn-Owned :
      (decode : List ℕ → Ecu) (s : State rtos.Handle)
      → Owned rtos s
      → IfDone (λ _ s'. Owned rtos s') (gateway_task_turn decode rtos s)
  unfolding gateway_task_turn
  gateway_turn-Owned decode s o = elim (received s.gateway_queue) [
    | inl nothing ↦ rw (gateway_task_turn, nothing) o
    | inr (x, q, got, counts) ↦
        let t = record s { gateway_queue = q } in
        let taken : OwnedWith rtos x.payload t = record {
          owned = λ a ne. omega (arith, o.owned a ne, counts a, one_zero a ne);
          fresh = o.fresh;
        } in
        elim (Bool-cases (has_bit x.id type_cmd_bit)) [
          | inl is ↦
              rw (gateway_task_turn, got, is)
                (IfDone-bind _ (λ _. free x.payload) (gw_parse_pdu decode x t)
                  (parse-Untouched decode x t)
                  λ _ v u. free-Owned rtos x.payload v (keeps rtos u taken))
          | inr other ↦ rw (gateway_task_turn, got, other) (leaks rtos taken)
        ]
  ]

  pub heartbeat-Owned :
      (s : State rtos.Handle) → Owned rtos s → IfDone (λ _ s'. Owned rtos s') (heartbeat_turn s)
  unfolding heartbeat_turn
  heartbeat-Owned s o =
      IfDone-mono _ (heartbeat_turn s) (heartbeat-Untouched 4 0 s s (Untouched-refl s))
        λ _ t u. keeps rtos u o
