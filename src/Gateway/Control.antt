-- ===== src/Gateway/Control.antt =====
-- _old/Framework/gateway/gateway.c: one turn of the loop of Gateway_Task with GW_parsePDU, and one
-- of the loop of Heartbeat_Task.
use xcan_router.Prelude.{
  ℕ, zero, suc, ◌+◌, ◌%◌, none, some, List, ltb, ◌==◌, if◌then◌else◌, length, take,
}
use xcan_router.Run.{done, crash, pure, ◌>>=◌, ◌>>◌}
use xcan_router.Gateway.Ecu.{
  Ecu, Pdu, has_bit, type_cmd_bit, ecu_id_of, cmd_req_all, cmd_req_fwver, cmd_req_status,
  stat_updating,
}
use xcan_router.Gateway.Rtos.{Rtos}
use xcan_router.Gateway.State.{Cmd, load, byte_at, load_ecu, store_ecu}
use xcan_router.Gateway.Tables.{num_of_ecus}
use xcan_router.Gateway.Send.{ecu_send_command}
use xcan_router.Gateway.Routing.{pdu_discard}

abbrev set_fw_version : {Queue : Type 0} → ℕ → ℕ → Cmd Queue (Unit {0})
set_fw_version ecu_id v =
    load_ecu ecu_id >>= λ e. store_ecu ecu_id (record e { fw_version = v % 256 })

abbrev set_status : {Queue : Type 0} → ℕ → ℕ → Cmd Queue (Unit {0})
set_status ecu_id v = load_ecu ecu_id >>= λ e. store_ecu ecu_id (record e { status = v % 16 })

-- `decode` is the compiler's layout of the bit fields of an ECU in the 4 bytes that memcpy moves.
module _ (decode : List ℕ → Ecu) where
  abbrev copy_ecu : {Queue : Type 0} → ℕ → List ℕ → Cmd Queue (Unit {0})
  copy_ecu ecu_id bytes s =
      if ltb (length bytes) 4 then crash else store_ecu ecu_id (decode (take 4 bytes)) s

  -- The switch over the command, for an ECU whose address ECU_getECU has given.
  unfoldable pub parse_cmd : {Queue : Type 0} → ℕ → ℕ → List ℕ → Cmd Queue (Unit {0})
  parse_cmd ecu_id cmd bytes =
      if cmd == cmd_req_all
      then copy_ecu ecu_id bytes
      else if cmd == cmd_req_fwver
      then byte_at bytes 1 >>= set_fw_version ecu_id
      else if cmd == cmd_req_status
      then byte_at bytes 1 >>= set_status ecu_id
      else pure tt

  unfoldable pub gw_parse_pdu : {Queue : Type 0} → Pdu → Cmd Queue (Unit {0})
  gw_parse_pdu x =
      load x.payload >>= λ bytes. byte_at bytes 0 >>= λ cmd. parse_cmd (ecu_id_of x.id) cmd bytes

  module _ (rtos : Rtos) where
    -- The loop over the statuses at the end of the turn has no effect in any of its cases.
    unfoldable pub gateway_task_turn : Cmd rtos.Handle (Unit {0})
    gateway_task_turn s = elim (rtos.receive s.gateway_queue) [
      | none ↦ done tt s
      | some (x, q) ↦
          (if has_bit x.id type_cmd_bit then gw_parse_pdu x >> pdu_discard x else pure tt)
            (record s { gateway_queue = q })
    ]

-- The wait of vTaskDelay behind each request, in which other tasks run, changes nothing here.
abbrev pub heartbeat_ecu : {Queue : Type 0} → ℕ → Cmd Queue (Unit {0})
heartbeat_ecu i = load_ecu i >>= λ e.
    if e.status == stat_updating then pure tt else ecu_send_command i cmd_req_status

-- The loop over the ECUs, from `i` on with `left` turns to go.
unfoldable pub heartbeat_from : {Queue : Type 0} → ℕ → ℕ → Cmd Queue (Unit {0})
heartbeat_from i zero = pure tt
heartbeat_from i (suc left) = heartbeat_ecu i >> heartbeat_from (i + 1) left

unfoldable pub heartbeat_turn : {Queue : Type 0} → Cmd Queue (Unit {0})
heartbeat_turn = heartbeat_from 0 num_of_ecus
