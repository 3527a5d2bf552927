-- ===== src/Gateway/Printing.antt =====
-- CAN_sendFrame, ECU_sendPDU and one turn of PDU_Task with all that they print, as config.h
-- defines DEBUG_ENABLE.
use xcan_router.Prelude.{
  ℕ, zero, suc, false, Option, none, some, List, [], ◌∷◌, ◌++◌, ◌==◌, if◌then◌else◌, length,
  get_elem?,
}
use xcan_router.Run.{Run, done, crash, spin, pure, ◌>>=◌, ◌>>◌}
use xcan_router.Gateway.Ecu.{
  Ecu, Pdu, has_bit, clear_bit, type_data_bit, type_cmd_bit, type_fw_bit, protocol_can,
  protocol_lin,
}
use xcan_router.Gateway.Rtos.{Rtos}
use xcan_router.Gateway.State.{State, Cmd, load_ecu, read_bytes}
use xcan_router.Gateway.Tables.{pdu_descriptors}
use xcan_router.Gateway.Send.{lin_send_frame}
use xcan_router.Gateway.Routing.{pdu_discard}
use xcan_router.Console.Text.{codes}
use xcan_router.Console.Serial.{Uart, Print, print_error}
use xcan_router.Console.Frames.{SendStatus, print_pdu}
use xcan_router.Console.Sends.{send_reported}

-- Code on one half of the state.
abbrev pub beside : {G L A : Type 0} → Run G A → L → Run (G × L) A
beside (done a s) t = done a (s, t)
beside crash t = crash
beside spin t = spin

abbrev pub behind : {G L A : Type 0} → G → Run L A → Run (G × L) A
behind s (done a t) = done a (s, t)
behind s crash = crash
behind s spin = spin

abbrev pub gateway_full : List ℕ
gateway_full = codes "ERROR: Gateway queue is full!"

abbrev pub firmware_full : List ℕ
firmware_full = codes "ERROR: Firmware queue is full!"

-- `status` is what CAN_SendBlocking returns for the frame of each number, `none` for
-- STATUS_SUCCESS.
module _ (Queue : Type 0) (uart : Uart) (status : ℕ → Option SendStatus) where
  -- The gateway's state and the console.
  abbrev pub Both : Type 0 → Type 0
  Both A = State Queue × uart.Line → Run (State Queue × uart.Line) A

  abbrev pub on_gateway : {A : Type 0} → Cmd Queue A → Both A
  on_gateway c (s, t) = beside (c s) t

  abbrev pub on_console : {A : Type 0} → Print uart A → Both A
  on_console c (s, t) = behind s (c t)

  unfoldable pub printing_send : ℕ → ℕ → List ℕ → Both (Unit {0})
  printing_send instance_no id bytes (s, t) =
      send_reported uart instance_no id bytes (status (length s.bus)) s t

  unfoldable pub printing_send_to : Ecu → Pdu → Both (Unit {0})
  printing_send_to e x =
      if e.protocol == protocol_can
      then on_gateway (read_bytes x.payload x.length) >>= printing_send e.instance_no x.id
      else if e.protocol == protocol_lin
      then on_gateway (lin_send_frame e.instance_no x.id x.payload x.length)
      else pure tt

  unfoldable pub printing_send_pdu : ℕ → Pdu → Both (Unit {0})
  printing_send_pdu ecu_id x = on_gateway (load_ecu ecu_id) >>= λ e. printing_send_to e x

  unfoldable pub printing_send_to_all : ℕ → List ℕ → Pdu → Both (Unit {0})
  printing_send_to_all zero dest x = pure tt
  printing_send_to_all (suc count) [] x = λ _. crash
  printing_send_to_all (suc count) (d ∷ dest) x =
      printing_send_pdu d x >> printing_send_to_all count dest x

  abbrev pub printing_route_entry : ℕ → Pdu → Both (Unit {0})
  printing_route_entry pdu_id x p = elim (get_elem? pdu_descriptors pdu_id) [
    | none ↦ crash
    | some desc ↦ (printing_send_to_all desc.dest_count desc.dest x >> on_gateway (pdu_discard x)) p
  ]

  unfoldable pub printing_route_data : Pdu → Both (Unit {0})
  printing_route_data x = printing_route_entry (clear_bit x.id type_data_bit) x

  -- PDU_printPDU of a PDU that came in: it reads the bytes of the payload.
  unfoldable pub printing_pdu : Pdu → Both (Unit {0})
  printing_pdu x = on_gateway (read_bytes x.payload x.length) >>= λ bytes.
      on_console (print_pdu uart x.id x.length bytes false)

  -- A PDU that a full queue does not take is freed, and the text is printed.
  abbrev pub dropping : Pdu → List ℕ → Both (Unit {0})
  dropping x text = on_gateway (pdu_discard x) >> on_console (print_error uart (text ++ 0 ∷ []))

module _ (rtos : Rtos) (uart : Uart) (status : ℕ → Option SendStatus) where
  unfoldable pub printing_to_gateway : Pdu → Both rtos.Handle uart status (Unit {0})
  printing_to_gateway x (s, t) = elim (rtos.send_back s.gateway_queue x) [
    | none ↦ dropping rtos.Handle uart status x gateway_full (s, t)
    | some q ↦ done tt (record s { gateway_queue = q }, t)
  ]

  unfoldable pub printing_to_firmware : Pdu → Both rtos.Handle uart status (Unit {0})
  printing_to_firmware x (s, t) = elim (rtos.send_back s.fw_queue x) [
    | none ↦ dropping rtos.Handle uart status x firmware_full (s, t)
    | some q ↦ done tt (record s { fw_queue = q }, t)
  ]

  unfoldable pub printing_route : Pdu → Both rtos.Handle uart status (Unit {0})
  printing_route x =
      if has_bit x.id type_data_bit
      then printing_route_data rtos.Handle uart status x
      else if has_bit x.id type_cmd_bit
      then printing_to_gateway x
      else if has_bit x.id type_fw_bit
      then printing_to_firmware x
      else on_gateway rtos.Handle uart status (pdu_discard x)

  unfoldable pub printing_turn : Both rtos.Handle uart status (Unit {0})
  printing_turn (s, t) = elim (rtos.receive s.pdu_queue) [
    | none ↦ done tt (s, t)
    | some (x, q) ↦
        (printing_pdu rtos.Handle uart status x >> printing_route x) (record s { pdu_queue = q }, t)
  ]
