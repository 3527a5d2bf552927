-- ===== src/Gateway/Routing.antt =====
-- _old/Framework/pdu_router/pdu_router.c: what one turn of the loop of PDU_Task does to the gateway.
-- Gateway.Printing has the turn with what it prints.
use xcan_router.Prelude.{ℕ, zero, suc, none, some, List, [], ◌∷◌, if◌then◌else◌, get_elem?}
use xcan_router.Run.{done, crash, pure, ◌>>◌}
use xcan_router.Gateway.Ecu.{Pdu, has_bit, clear_bit, type_data_bit, type_cmd_bit, type_fw_bit}
use xcan_router.Gateway.Rtos.{Rtos}
use xcan_router.Gateway.State.{Cmd, free}
use xcan_router.Gateway.Tables.{pdu_descriptors}
use xcan_router.Gateway.Send.{ecu_send_pdu}

abbrev pub pdu_discard : {Queue : Type 0} → Pdu → Cmd Queue (Unit {0})
pdu_discard x = free x.payload

-- The loop over `dest`: `count` turns are left, and an index beyond the array is a crash.
unfoldable pub send_to_all : {Queue : Type 0} → ℕ → List ℕ → Pdu → Cmd Queue (Unit {0})
send_to_all zero dest x = pure tt
send_to_all (suc count) [] x = λ _. crash
send_to_all (suc count) (d ∷ dest) x = ecu_send_pdu d x >> send_to_all count dest x

-- The entry of the table for an identifier without its type; beyond the table it is a crash.
abbrev pub route_entry : {Queue : Type 0} → ℕ → Pdu → Cmd Queue (Unit {0})
route_entry pdu_id x s = elim (get_elem? pdu_descriptors pdu_id) [
  | none ↦ crash
  | some desc ↦ (send_to_all desc.dest_count desc.dest x >> pdu_discard x) s
]

unfoldable pub route_data : {Queue : Type 0} → Pdu → Cmd Queue (Unit {0})
route_data x = route_entry (clear_bit x.id type_data_bit) x

module _ (rtos : Rtos) where
  unfoldable pub to_gateway : Pdu → Cmd rtos.Handle (Unit {0})
  to_gateway x s = elim (rtos.send_back s.gateway_queue x) [
    | none ↦ pdu_discard x s
    | some q ↦ done tt (record s { gateway_queue = q })
  ]

  unfoldable pub to_firmware : Pdu → Cmd rtos.Handle (Unit {0})
  to_firmware x s = elim (rtos.send_back s.fw_queue x) [
    | none ↦ pdu_discard x s
    | some q ↦ done tt (record s { fw_queue = q })
  ]

  unfoldable pub route_pdu : Pdu → Cmd rtos.Handle (Unit {0})
  route_pdu x =
      if has_bit x.id type_data_bit
      then route_data x
      else if has_bit x.id type_cmd_bit
      then to_gateway x
      else if has_bit x.id type_fw_bit
      then to_firmware x
      else pdu_discard x

  -- xQueueReceive with nothing received leads to the next turn.
  unfoldable pub pdu_task_turn : Cmd rtos.Handle (Unit {0})
  pdu_task_turn s = elim (rtos.receive s.pdu_queue) [
    | none ↦ done tt s
    | some (x, q) ↦ route_pdu x (record s { pdu_queue = q })
  ]
