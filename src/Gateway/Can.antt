-- ===== src/Gateway/Can.antt =====
-- _old/Framework/interfaces/can/can.c, without the initialisation of the peripheral and the
-- printing: the interrupt handler with its filter, and the sending of a frame.
use xcan_router.Prelude.{
  ℕ, Bool, true, false, none, some, List, [], ◌∷◌, ltb, ◌==◌, if◌then◌else◌, length, take,
}
use xcan_router.Run.{done, crash, ◌>>=◌}
use xcan_router.Gateway.Ecu.{Pdu, CanMessage, type_data_bit, clear_bit}
use xcan_router.Gateway.Rtos.{Rtos}
use xcan_router.Gateway.State.{Cmd, free, malloc_copy}
use xcan_router.Gateway.Tables.{can_id_filter_table}

-- `can_event_t`
pub data CanEvent : Type 0 where
  rx_complete : CanEvent
  tx_complete : CanEvent
  other_event : CanEvent

-- `bytes` are the `len` bytes that memcpy reads; sendMsg.data has room for 64. What
-- CAN_SendBlocking returns is only printed, and only where DEBUG_ENABLE is defined:
-- Console.Sends.send_reported has that report.
unfoldable pub can_send_frame : {Queue : Type 0} → ℕ → ℕ → List ℕ → Cmd Queue (Unit {0})
can_send_frame instance_no id bytes s =
    if ltb 64 (length bytes)
    then crash
    else done tt
        (record s { bus = record { instance_no = instance_no; id = id; bytes = bytes } ∷ s.bus })

abbrev found_in : ℕ → List ℕ → Bool
found_in id [] = false
found_in id (x ∷ xs) = if id == x then true else found_in id xs

-- The search of the table ends in the same result either way.
unfoldable pub can_filter_frame : CanMessage → Bool
can_filter_frame f =
    if found_in (clear_bit f.id type_data_bit) can_id_filter_table then true else true

module _ (rtos : Rtos) where
  -- The end of CAN_buildPDU: a PDU that the queue does not take is freed.
  abbrev pub queue_pdu : Pdu → Cmd rtos.Handle (Unit {0})
  queue_pdu x s = elim (rtos.send_back s.pdu_queue x) [
    | none ↦ free x.payload s
    | some q ↦ done tt (record s { pdu_queue = q })
  ]

  unfoldable pub can_build_pdu : CanMessage → Cmd rtos.Handle (Unit {0})
  can_build_pdu f s =
      if rtos.is_full s.pdu_queue
      then done tt s
      else if ltb (length f.content) f.length
      then crash
      else (malloc_copy (take f.length f.content) >>= λ p.
            queue_pdu (record { id = f.id; length = f.length; payload = p }))
          s

  -- The call of CAN_Receive at the end waits for the next frame.
  unfoldable pub can_event_handler : CanEvent → CanMessage → Cmd rtos.Handle (Unit {0})
  can_event_handler rx_complete f s = if can_filter_frame f then can_build_pdu f s else done tt s
  can_event_handler tx_complete f s = done tt s
  can_event_handler other_event f s = done tt s
