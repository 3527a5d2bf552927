-- ===== src/Console/Frames.antt =====
-- CAN_printFrame, CAN_printError and CAN_errorHandler of _old/Framework/interfaces/can/can.c, and
-- PDU_printPDU of _old/Framework/pdu_router/pdu_router.c.
use xcan_router.Prelude.{
  ℕ, ◌+◌, ◌*◌, Bool, true, Option, none, some, List, [], ◌∷◌, ◌++◌, ltb, if◌then◌else◌, length,
  get_elem?, take,
}
use xcan_router.Run.{Run, crash, pure, ◌>>=◌, ◌>>◌}
use xcan_router.Gateway.Ecu.{
  CanMessage, has_bit, ecu_id_of, type_data_bit, type_cmd_bit, type_fw_bit,
}
use xcan_router.Console.Text.{codes, esc, decimal, hex, hex_byte, upper_digit, lower_digit}
use xcan_router.Console.Buffer.{sprintf}
use xcan_router.Console.Serial.{Uart, Print, print_string, print_error}

-- The labels of PDU_Descriptors.
abbrev pub pdu_labels : List (List ℕ)
pdu_labels =
    codes "Engine RPM"
    ∷ codes "Engine Temp"
    ∷ codes "Ignition Switch"
    ∷ codes "Acceleration Pedal"
    ∷ codes "Handbrake"
    ∷ []

-- `none` where PDU_Descriptors is read beyond its end.
abbrev pub label_of : ℕ → Option (List ℕ)
label_of id =
    if has_bit id type_data_bit
    then get_elem? pdu_labels (ecu_id_of id)
    else if has_bit id type_cmd_bit
    then some (codes "COMMAND  ")
    else if has_bit id type_fw_bit
    then some (codes "FIRMWARE  ")
    else some (codes "N/A")

abbrev pub direction : Bool → List ℕ
direction tx = if tx then codes "Tx" else codes "Rx"

abbrev pub colour : Bool → List ℕ
colour tx = if tx then esc ∷ codes "[33m" else esc ∷ codes "[0m"

-- "\n\r%s[CAN%d][%s] %s\t0x%08X\t0x%02X\t"
unfoldable pub can_line : Bool → ℕ → List ℕ → ℕ → ℕ → List ℕ
can_line tx instance_no label id len =
    codes "\n\r"
    ++ colour tx
    ++ codes "[CAN"
    ++ decimal instance_no
    ++ codes "]["
    ++ direction tx
    ++ codes "] "
    ++ label
    ++ codes "\t0x"
    ++ hex upper_digit 8 id
    ++ codes "\t0x"
    ++ hex upper_digit 2 len
    ++ codes "\t"

-- "\n\r%s[PDU ][%s] %s\t0x%08x\t0x%02x\t"
unfoldable pub pdu_line : Bool → List ℕ → ℕ → ℕ → List ℕ
pdu_line tx label id len =
    codes "\n\r"
    ++ colour tx
    ++ codes "[PDU ]["
    ++ direction tx
    ++ codes "] "
    ++ label
    ++ codes "\t0x"
    ++ hex lower_digit 8 id
    ++ codes "\t0x"
    ++ hex lower_digit 2 len
    ++ codes "\t"

-- "\n\r[CAN%d][Tx] %s\t0x%08X\t0x%02X\t"
unfoldable pub error_line : ℕ → List ℕ → ℕ → ℕ → List ℕ
error_line instance_no status id len =
    codes "\n\r[CAN"
    ++ decimal instance_no
    ++ codes "]["
    ++ codes "Tx"
    ++ codes "] "
    ++ status
    ++ codes "\t0x"
    ++ hex upper_digit 8 id
    ++ codes "\t0x"
    ++ hex upper_digit 2 len
    ++ codes "\t"

-- The status of CAN_SendBlocking, by the cases of the switch in CAN_printError.
pub data SendStatus : Type 0 where
  busy : SendStatus
  timeout : SendStatus
  error : SendStatus
  out_of_range : SendStatus
  other_status : SendStatus

abbrev pub status_text : SendStatus → List ℕ
status_text busy = codes "BUSY    "
status_text timeout = codes "TIMEOUT "
status_text error = codes "ERROR   "
status_text out_of_range = codes "MB OUT OF RANGE"
status_text other_status = codes "N/A"

-- The loop that writes the bytes from the i-th on over the buffer.
unfoldable pub hex_loop : {S : Type 0} → ℕ → List ℕ → List ℕ → S → Run S (List ℕ)
hex_loop i [] buff = pure buff
hex_loop i (b ∷ bs) buff = sprintf (i * 3) (hex_byte b) buff >>= λ buff'. hex_loop (i + 1) bs buff'

module _ (uart : Uart) where
  -- What CAN_printFrame and PDU_printPDU have in common: the line, then the bytes in the same buffer.
  unfoldable pub print_line : List ℕ → List ℕ → Print uart (Unit {0})
  print_line line bytes = do
    buff ← sprintf 0 line (uart.fresh (50 + length bytes * 3))
    print_string uart buff
    buff ← hex_loop 0 bytes buff
    print_string uart buff

  unfoldable pub can_print_frame : ℕ → CanMessage → Bool → Print uart (Unit {0})
  can_print_frame instance_no msg tx t =
      if ltb (length msg.content) msg.length then crash else elim (label_of msg.id) [
        | none ↦ crash
        | some label ↦
            print_line (can_line tx instance_no label msg.id msg.length)
              (take msg.length msg.content) t
      ]

  -- `bytes` are the ones that the PDU's pointer leads to.
  unfoldable pub print_pdu : ℕ → ℕ → List ℕ → Bool → Print uart (Unit {0})
  print_pdu id len bytes tx t = if ltb (length bytes) len then crash else elim (label_of id) [
    | none ↦ crash
    | some label ↦ print_line (pdu_line tx label id len) (take len bytes) t
  ]

  unfoldable pub can_print_error : ℕ → CanMessage → SendStatus → Print uart (Unit {0})
  can_print_error instance_no msg stat t =
      if ltb (length msg.content) msg.length
      then crash
      else (do
        buff ←
            sprintf 0 (error_line instance_no (status_text stat) msg.id msg.length) (uart.fresh 100)
        print_error uart buff
        buff ← hex_loop 0 (take msg.length msg.content) buff
        print_error uart buff)
          t

  abbrev pub can_error_handler : ℕ → ℕ → CanMessage → SendStatus → Print uart (Unit {0})
  can_error_handler instance_no mailbox = can_print_error instance_no

  -- What CAN_sendFrame does with the status of CAN_SendBlocking: `none` is STATUS_SUCCESS.
  unfoldable pub report_sent : ℕ → CanMessage → Option SendStatus → Print uart (Unit {0})
  report_sent instance_no msg none = can_print_frame instance_no msg true
  report_sent instance_no msg (some stat) = can_error_handler instance_no 0 msg stat
