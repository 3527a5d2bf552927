-- ===== src/Gateway/Send.antt =====
-- _old/Framework/ecu/ecu.c with the parts of lin.c that it calls: a PDU or a command goes to an
-- ECU through the interface of the ECU's protocol.
use xcan_router.Prelude.{ℕ, ◌%◌, [], ◌∷◌, ◌==◌, if◌then◌else◌}
use xcan_router.Run.{done, pure, ◌>>=◌}
use xcan_router.Gateway.Ecu.{Ecu, Pdu, protocol_can, protocol_lin, type_cmd_bit, typed_id}
use xcan_router.Gateway.State.{Cmd, load_ecu, read_bytes}
use xcan_router.Gateway.Can.{can_send_frame}

-- LIN_sendFrame fills two local variables and sends nothing.
abbrev pub lin_send_frame : {Queue : Type 0} → ℕ → ℕ → ℕ → ℕ → Cmd Queue (Unit {0})
lin_send_frame instance_no id p len s = done tt s

unfoldable pub ecu_send : {Queue : Type 0} → Ecu → Pdu → Cmd Queue (Unit {0})
ecu_send e x =
    if e.protocol == protocol_can
    then read_bytes x.payload x.length >>= can_send_frame e.instance_no x.id
    else if e.protocol == protocol_lin
    then lin_send_frame e.instance_no x.id x.payload x.length
    else pure tt

unfoldable pub ecu_send_pdu : {Queue : Type 0} → ℕ → Pdu → Cmd Queue (Unit {0})
unfolding ecu_send
ecu_send_pdu ecu_id x = load_ecu ecu_id >>= λ e. ecu_send e x

unfoldable pub ecu_send_command : {Queue : Type 0} → ℕ → ℕ → Cmd Queue (Unit {0})
ecu_send_command ecu_id cmd = load_ecu ecu_id >>= λ e.
    if e.protocol == protocol_can
    then can_send_frame e.instance_no (typed_id type_cmd_bit ecu_id) (cmd % 256 ∷ [])
    else if e.protocol == protocol_lin
    then lin_send_frame e.instance_no (typed_id type_cmd_bit ecu_id) 0 1
    else pure tt
