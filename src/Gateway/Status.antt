-- ===== src/Gateway/Status.antt =====
-- The ECUs' states: GW_parsePDU by Gateway_Task, and the requests of Heartbeat_Task.
use xcan_router.Prelude.{
  ℕ, suc, ◌+◌, ◌%◌, ◌≡◌, refl, ap, subst, ◌≢◌, true, none, some, List, [], ◌∷◌, ◌++◌, arith, ◌==◌,
  if◌then◌else◌, ==_ne, length, get_elem?, set,
}
use xcan_router.Run.{done, Returns}
use xcan_router.Gateway.Ecu.{
  Ecu, Pdu, has_bit, type_cmd_bit, typed_id, ecu_id_of, cmd_req_status, stat_updating,
}
use xcan_router.Gateway.Rtos.{Rtos}
use xcan_router.Gateway.State.{State, Sent, set_block}
use xcan_router.Gateway.Tables.{num_of_ecus}
use xcan_router.Gateway.Can.{can_send_frame}
use xcan_router.Gateway.Send.{ecu_send_command}
use xcan_router.Gateway.Control.{
  parse_cmd, gw_parse_pdu, gateway_task_turn, heartbeat_ecu, heartbeat_from, heartbeat_turn,
}
use xcan_router.Gateway.Deliver.{frame_for, latest_first, latest_first-append}

-- The request for one ECU, and those for the ECUs of a list whose first has the number `i`.
abbrev pub request_to : ℕ → Ecu → List Sent
request_to i e =
    if e.status == stat_updating
    then []
    else frame_for (typed_id type_cmd_bit i) (cmd_req_status ∷ []) e

abbrev pub requests : ℕ → List Ecu → List Sent
requests i [] = []
requests i (e ∷ es) = request_to i e ++ requests (i + 1) es

module _ {Queue : Type 0} where
  heartbeat_ecu-sends :
      (s : State Queue) (i : ℕ) (e : Ecu)
      → get_elem? s.ecus i ≡ some e
      → heartbeat_ecu i s ≡ done tt (record s { bus = latest_first (request_to i e) s.bus })
  unfolding ecu_send_command can_send_frame
  heartbeat_ecu-sends s i e at = grind (arith, at)

  heartbeat_from-sends :
      (s : State Queue) (i : ℕ) (es : List Ecu)
      → ((j k : ℕ) → k ≡ i + j → get_elem? s.ecus k ≡ get_elem? es j)
      → heartbeat_from i (length es) s
        ≡ done tt (record s { bus = latest_first (requests i es) s.bus })
  unfolding heartbeat_from
  heartbeat_from-sends s i [] at = refl
  heartbeat_from-sends s i (e ∷ es) at =
      let sent = latest_first (request_to i e) s.bus in
      rw (
        heartbeat_ecu-sends s i e (at 0 i (omega arith)),
        heartbeat_from-sends (record s { bus = sent }) (i + 1) es
            (λ j k eq. at (suc j) k (omega arith)),
        latest_first-append (request_to i e) (requests (i + 1) es) s.bus,
      )

  -- Where the list of ECUs has its 4 entries, a turn of the heartbeat asks each of the ECUs on CAN
  -- for its status, in their order, except those whose firmware is being updated, and does nothing
  -- else.
  pub heartbeat-requests :
      (s : State Queue)
      → length s.ecus ≡ num_of_ecus
      → heartbeat_turn s ≡ done tt (record s { bus = latest_first (requests 0 s.ecus) s.bus })
  unfolding heartbeat_turn
  heartbeat-requests s count =
      subst
        (λ n.
          heartbeat_from 0 n s
          ≡ done tt (record s { bus = latest_first (requests 0 s.ecus) s.bus }))
        count (heartbeat_from-sends s 0 s.ecus λ j k eq. ap (get_elem? s.ecus) (omega arith))

module _ (decode : List ℕ → Ecu) (rtos : Rtos) where
  -- The turn of the gateway's task on a status response of a known ECU at the head of its queue:
  -- the ECU's status becomes the low 4 bits of the second byte, the payload is freed, and nothing
  -- else changes.
  pub turn-sets_status :
      (s : State rtos.Handle) (x : Pdu) (xs : List Pdu) (e : Ecu) (v : ℕ) (rest : List ℕ)
      → rtos.contents s.gateway_queue ≡ x ∷ xs
      → has_bit x.id type_cmd_bit ≡ true
      → x.payload ≢ 0
      → s.blocks x.payload ≡ some (cmd_req_status ∷ v ∷ rest)
      → get_elem? s.ecus (ecu_id_of x.id) ≡ some e
      → Returns
          (λ _ s'.
            (rtos.contents s'.gateway_queue ≡ xs)
            × (s' ≡ record s {
              blocks = set_block s.blocks x.payload none;
              gateway_queue = s'.gateway_queue;
              ecus = set s.ecus (ecu_id_of x.id) (record e { status = v % 16 });
            }))
          (gateway_task_turn decode rtos s)
  unfolding gateway_task_turn gw_parse_pdu parse_cmd
  turn-sets_status s x xs e v rest head cmd ne live at =
      let (q, got, now, same) = rtos.receive_some s.gateway_queue x xs head in
      ground (arith, got, now, head, ==_ne x.payload 0 ne, cmd, live, at)
