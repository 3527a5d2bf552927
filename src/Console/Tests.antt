-- ===== src/Console/Tests.antt =====
-- The console on a line that keeps the texts, the last one first.
use xcan_router.Prelude.{
  none, ◌↔◌, ℕ, ◌<◌, ◌≡◌, refl, true, false, List, [], ◌∷◌, ◌++◌, arith, replicate,
  length-replicate,
}
use xcan_router.Run.{done, crash, Returns}
use xcan_router.Gateway.Ecu.{Pdu, CanMessage}
use xcan_router.Gateway.Tables.{ecu_list, can_ecu}
use xcan_router.Gateway.Backup.{InRange}
use xcan_router.Console.Text.{codes, hex, decimal, decimal_digits, upper_digit}
use xcan_router.Console.Serial.{Uart}
use xcan_router.Console.Frames.{
  can_line, pdu_line, timeout, can_print_frame, print_pdu, can_error_handler,
}
use xcan_router.Console.Lines.{hexes}
use xcan_router.Console.Printed.{
  can_print_frame-prints, can_print_frame-overflows, print_pdu-prints,
}
use xcan_router.Console.Overflow.{error_handler-overflows}
use xcan_router.Console.Sends.{ReportFits, Reported, send_reported, send_reported_iff}
use xcan_router.Gateway.State.{State}
use xcan_router.Console.Ecus.{rule, heading, print_ecus}
use xcan_router.Console.Rows.{rows_sent, AllInRange, print_ecus-prints}

test_hex : hex upper_digit 8 0x1000002B ≡ codes "1000002B"
unfolding hex
test_hex = refl

test_decimal : decimal 250 ≡ codes "250"
unfolding decimal_digits
test_decimal = refl

test_escapes : codes "\n\r\t" ≡ 10 ∷ 13 ∷ 9 ∷ []
test_escapes = refl

abbrev line : Uart
line = record {
  Line = List (List ℕ);
  send = λ text t. text ∷ t;
  fresh = λ n. replicate n 0xAA;
  length_fresh = λ n. length-replicate n 0xAA;
}

abbrev engine_frame : CanMessage
engine_frame = record { id = 0x10000000; length = 2; content = 0x12 ∷ 0xAB ∷ [] }

abbrev pedal_frame : CanMessage
pedal_frame = record { id = 0x10000003; length = 1; content = 0x40 ∷ [] }

abbrev long_frame : CanMessage
long_frame = record { id = 0x04000002; length = 64; content = replicate 64 0 }

can_print_frame-prints_example :
    can_print_frame line 1 engine_frame true []
    ≡ done tt (hexes (0x12 ∷ 0xAB ∷ []) ∷ can_line true 1 (codes "Engine RPM") 0x10000000 2 ∷ [])
can_print_frame-prints_example =
    can_print_frame-prints line 1 engine_frame true (codes "Engine RPM") [] (omega arith)
      (omega arith) refl (omega arith)

can_print_frame-overflows_example : can_print_frame line 1 pedal_frame true [] ≡ crash
can_print_frame-overflows_example =
    can_print_frame-overflows line 1 pedal_frame (codes "Acceleration Pedal") [] (omega arith) refl
      (omega arith)

print_pdu-prints_example :
    print_pdu line 0x10000004 1 (7 ∷ []) false []
    ≡ done tt (hexes (7 ∷ []) ∷ pdu_line false (codes "Handbrake") 0x10000004 1 ∷ [])
print_pdu-prints_example =
    print_pdu-prints line 0x10000004 1 (7 ∷ []) false (codes "Handbrake") [] (omega arith) refl
      (omega arith)

abbrev gateway : State (List Pdu)
gateway = record {
  brk = 1;
  refuses = λ _. false;
  blocks = λ _. none;
  pdu_queue = [];
  gateway_queue = [];
  fw_queue = [];
  ecus = ecu_list;
  bus = [];
}

send_reported_iff_example :
    ReportFits 0x10000000 (0x12 ∷ 0xAB ∷ []) none
    ↔ Returns
        (λ _ p. Reported line 1 0x10000000 (0x12 ∷ 0xAB ∷ []) none gateway [] p)
        (send_reported line 1 0x10000000 (0x12 ∷ 0xAB ∷ []) none gateway [])
send_reported_iff_example =
    send_reported_iff line 1 0x10000000 (0x12 ∷ 0xAB ∷ []) none gateway [] (omega arith)
      (omega arith)

error_handler-overflows_example : can_error_handler line 1 0 long_frame timeout [] ≡ crash
error_handler-overflows_example =
    error_handler-overflows line 1 0 long_frame timeout [] (omega arith) (omega arith) (omega arith)

can_ecu-InRange : (n : ℕ) → n < 16 → InRange (can_ecu n)
can_ecu-InRange n small = record {
  status_small = omega arith;
  endianness_small = omega arith;
  security_small = omega arith;
  protocol_small = omega arith;
  instance_small = small;
  version_small = omega arith;
  reserved_small = omega arith;
}

ecu_list_in_range : AllInRange ecu_list
ecu_list_in_range = (
  can_ecu-InRange 0 (omega arith),
  (
    can_ecu-InRange 1 (omega arith),
    (can_ecu-InRange 2 (omega arith), (can_ecu-InRange 3 (omega arith), tt)),
  ),
)

print_ecus-prints_example :
    print_ecus line ecu_list []
    ≡ done tt ((rule ++ codes "\n\r") ∷ rows_sent line 0 ecu_list (rule ∷ heading ∷ rule ∷ []))
print_ecus-prints_example = print_ecus-prints line ecu_list [] refl ecu_list_in_range
