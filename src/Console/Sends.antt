-- ===== src/Console/Sends.antt =====
-- CAN_sendFrame of _old/Framework/interfaces/can/can.c with the report that DEBUG_ENABLE adds.
use xcan_router.Prelude.{
  ℕ, ◌+◌, ◌*◌, ◌≤◌, ◌<◌, ◌≡◌, ◌↔◌, refl, subst, ap, sym, ◌⊎◌, inl, inr, true, Option, none, some,
  List, ◌∷◌, arith, [], Option-cases, length, take_all,
}
use xcan_router.Run.{Run, done, crash, spin, Returns}
use xcan_router.Gateway.Ecu.{CanMessage}
use xcan_router.Gateway.State.{State}
use xcan_router.Gateway.Can.{can_send_frame}
use xcan_router.Console.Serial.{Uart, in_red}
use xcan_router.Console.Frames.{
  label_of, can_line, error_line, SendStatus, status_text, can_print_frame, can_error_handler,
  report_sent,
}
use xcan_router.Console.Sizes.{length-can_line}
use xcan_router.Console.Lines.{second}
use xcan_router.Console.Printed.{fitting_frame-prints, can_print_frame-overflows}
use xcan_router.Console.Overflow.{error_handler-prints, error_handler-overflows}

-- Code that leaves the console alone, and code that leaves the gateway's state alone.
abbrev pub then_print : {G L A B : Type 0} → Run G A → Run L B → Run (G × L) B
then_print (done a s) (done b t) = done b (s, t)
then_print (done a s) crash = crash
then_print (done a s) spin = spin
then_print crash p = crash
then_print spin p = spin

abbrev pub message : ℕ → List ℕ → CanMessage
message id bytes = record { id = id; length = length bytes; content = bytes }

abbrev pub on_bus : {Queue : Type 0} → ℕ → ℕ → List ℕ → State Queue → State Queue
on_bus instance_no id bytes s = record s {
  bus = record { instance_no = instance_no; id = id; bytes = bytes } ∷ s.bus;
}

-- Whether the buffers of the report have room: for the label of a frame that was sent, or for the
-- bytes of one that was not.
abbrev pub ReportFits : ℕ → List ℕ → Option SendStatus → Type 0
ReportFits id bytes none =
    (label : List ℕ) × (label_of id ≡ some label) × (length label < 15 + length bytes * 3)
ReportFits id bytes (some stat) = length bytes ≤ 33

abbrev pub or_nothing : Option (List ℕ) → List ℕ
or_nothing none = []
or_nothing (some label) = label

abbrev pub report_line : ℕ → ℕ → List ℕ → Option SendStatus → List ℕ
report_line instance_no id bytes none =
    can_line true instance_no (or_nothing (label_of id)) id (length bytes)
report_line instance_no id bytes (some stat) =
    error_line instance_no (status_text stat) id (length bytes)

abbrev pub as_shown : Option SendStatus → List ℕ → List ℕ
as_shown none text = text
as_shown (some stat) text = in_red text

room_or_not :
    (label bytes : List ℕ)
    → (length label < 15 + length bytes * 3) ⊎ (15 + length bytes * 3 ≤ length label)
room_or_not label bytes = grind arith

short_or_long : (bytes : List ℕ) → (length bytes ≤ 33) ⊎ (34 ≤ length bytes)
short_or_long bytes = grind arith

-- Code whose printing crashes does not return.
printing_crash :
    {G L A B C : Type 0} (P : B → G × L → Type 0) (a : A) (s : G) (o : Run L B)
    → o ≡ crash
    → Returns P (then_print (done a s) o)
    → C
printing_crash {L = L} {B = B} P a s o e returned =
    absurd (subst (λ (o : Run L B). Returns P (then_print (done a s) o)) e returned)

module _ (uart : Uart) {Queue : Type 0} where
  -- `status` is what CAN_SendBlocking returns, `none` for STATUS_SUCCESS.
  unfoldable pub send_reported :
      ℕ
      → ℕ
      → List ℕ
      → Option SendStatus
      → State Queue
      → uart.Line
      → Run (State Queue × uart.Line) (Unit {0})
  send_reported instance_no id bytes status s t =
      then_print (can_send_frame instance_no id bytes s)
        (report_sent uart instance_no (message id bytes) status t)

  -- The frame is on the bus of its interface, and the line and the bytes are on the console.
  abbrev pub Reported :
      ℕ
      → ℕ
      → List ℕ
      → Option SendStatus
      → State Queue
      → uart.Line
      → State Queue × uart.Line
      → Type 0
  Reported instance_no id bytes status s t (s', t') =
      let line = report_line instance_no id bytes status in
      (s' ≡ on_bus instance_no id bytes s)
      × (t' ≡ uart.send (as_shown status (second line bytes)) (uart.send (as_shown status line) t))

  sent_lem :
      (instance_no id : ℕ) (bytes : List ℕ) (s : State Queue)
      → length bytes ≤ 64
      → can_send_frame instance_no id bytes s ≡ done tt (on_bus instance_no id bytes s)
  unfolding can_send_frame
  sent_lem instance_no id bytes s le = ground arith

  module _ (instance_no id : ℕ) (bytes : List ℕ) (s : State Queue) (t : uart.Line) where
    -- The bus and the console after a send, as its status says.
    abbrev Done : Option SendStatus → Unit {0} → State Queue × uart.Line → Type 0
    Done status _ p = Reported instance_no id bytes status s t p

    unnamed :
        label_of id ≡ none → can_print_frame uart instance_no (message id bytes) true t ≡ crash
    unfolding can_print_frame
    unnamed e = grind (arith, e)

    success_iff :
        instance_no < 10
        → ReportFits id bytes none
          ↔ Returns (Done none) (
              then_print
                (done tt (on_bus instance_no id bytes s))
                (can_print_frame uart instance_no (message id bytes) true t))
    success_iff small = (
      (λ (label, named, fits).
          rw
            (
              fitting_frame-prints uart instance_no (message id bytes) true label t (omega arith)
                  named
                  (omega (arith, length-can_line 0 true instance_no label id (length bytes) small)),
              take_all (length bytes) bytes (omega arith),
            )
            (
              refl,
              ap (λ (line : List ℕ). uart.send (second line bytes) (uart.send line t))
                  (ap
                    (λ (o : Option (List ℕ)).
                      can_line true instance_no (or_nothing o) id (length bytes))
                    (sym named)),
            )),
      λ returned. elim (Option-cases (label_of id)) [
        | inl e ↦
            printing_crash (Done none) tt (on_bus instance_no id bytes s) _ (unnamed e) returned
        | inr (label, e) ↦ elim (room_or_not label bytes) [
          | inl fits ↦ (label, e, fits)
          | inr long ↦
              printing_crash (Done none) tt (on_bus instance_no id bytes s) _
                (can_print_frame-overflows uart instance_no (message id bytes) label t (omega arith)
                  e long)
                returned
        ]
      ],
    )

    failure_iff :
        (stat : SendStatus)
        → instance_no < 10
        → ReportFits id bytes (some stat)
          ↔ Returns (Done (some stat)) (
              then_print
                (done tt (on_bus instance_no id bytes s))
                (can_error_handler uart instance_no 0 (message id bytes) stat t))
    failure_iff stat small = (
      (λ fits.
          rw
            (
              error_handler-prints uart instance_no 0 (message id bytes) stat t (omega arith)
                  (omega arith) fits,
              take_all (length bytes) bytes (omega arith),
            )
            (refl, refl)),
      λ returned. elim (short_or_long bytes) [
        | inl fits ↦ fits
        | inr long ↦
            printing_crash (Done (some stat)) tt (on_bus instance_no id bytes s) _
              (error_handler-overflows uart instance_no 0 (message id bytes) stat t (omega arith)
                (omega arith) long)
              returned
      ],
    )

  -- A frame of up to 64 bytes that is handed to the bus of one of up to 10 interfaces, with the
  -- report that DEBUG_ENABLE adds. CAN_sendFrame comes back exactly if the report fits its buffer:
  -- where the frame was sent, if it has a label, of fewer than 15 characters and three more for
  -- each byte; where it was not, if it has at most 33 bytes. Then the frame was handed to the bus,
  -- and on the console are the line and the bytes, or the line again if there are none, in red
  -- where the frame was not sent.
  pub send_reported_iff :
      (instance_no id : ℕ) (bytes : List ℕ) (status : Option SendStatus) (s : State Queue)
      (t : uart.Line)
      → length bytes ≤ 64
      → instance_no < 10
      → ReportFits id bytes status
        ↔ Returns
            (λ _ p. Reported instance_no id bytes status s t p)
            (send_reported instance_no id bytes status s t)
  unfolding send_reported report_sent
  send_reported_iff instance_no id bytes none s t le small =
      rw (sent_lem instance_no id bytes s le) (success_iff instance_no id bytes s t small)
  send_reported_iff instance_no id bytes (some stat) s t le small =
      rw (sent_lem instance_no id bytes s le) (failure_iff instance_no id bytes s t stat small)
