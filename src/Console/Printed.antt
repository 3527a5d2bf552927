-- ===== src/Console/Printed.antt =====
-- What CAN_printFrame and PDU_printPDU send to the console.
use xcan_router.Prelude.{
  ℕ, ◌+◌, ◌*◌, ◌≤◌, ◌<◌, ◌≡◌, refl, Bool, true, false, some, List, arith, ltb, length, take,
  length-take_of_le,
}
use xcan_router.Run.{done, crash}
use xcan_router.Gateway.Ecu.{CanMessage}
use xcan_router.Console.Buffer.{sprintf}
use xcan_router.Console.Serial.{Uart}
use xcan_router.Console.Frames.{
  can_line, pdu_line, label_of, can_print_frame, print_line, print_pdu,
}
use xcan_router.Console.Lines.{second, print_line_lem}
use xcan_router.Console.Sizes.{
  sent_line_long, length-can_line, no_zero-can_line, length-pdu_line, no_zero-pdu_line,
}
use xcan_router.Console.Labels.{label_lem, short_lem}

module _ (uart : Uart) where
  -- As can_print_frame-prints, of a line that fits the buffer with its NUL.
  pub fitting_frame-prints :
      (instance_no : ℕ) (msg : CanMessage) (tx : Bool) (label : List ℕ) (t : uart.Line)
      → msg.length ≤ length msg.content
      → label_of msg.id ≡ some label
      → length (can_line tx instance_no label msg.id msg.length) < 50 + msg.length * 3
      → let line = can_line tx instance_no label msg.id msg.length in
        can_print_frame uart instance_no msg tx t
        ≡ done tt (uart.send (second line (take msg.length msg.content)) (uart.send line t))
  unfolding can_print_frame
  fitting_frame-prints instance_no msg tx label t enough named fits =
      let bytes = take msg.length msg.content in
      let line = can_line tx instance_no label msg.id msg.length in
      let (_, clean) = short_lem label (label_lem msg.id label named) in
      let here : ltb (length msg.content) msg.length ≡ false = ground arith in
      rw (here, named)
        (print_line_lem uart line bytes t
          (no_zero-can_line tx instance_no label msg.id msg.length clean)
          (omega (arith, length-take_of_le msg.length msg.content enough)))

  -- A frame on one of up to 100 interfaces, with the bytes that its length says and an identifier
  -- that has a label, is printed without an overflow if its label has fewer than 14 characters and
  -- three more for each byte: first the line with its label, identifier and length, then its bytes,
  -- or the line again if it has none.
  pub can_print_frame-prints :
      (instance_no : ℕ) (msg : CanMessage) (tx : Bool) (label : List ℕ) (t : uart.Line)
      → instance_no < 100
      → msg.length ≤ length msg.content
      → label_of msg.id ≡ some label
      → length label < 14 + msg.length * 3
      → let line = can_line tx instance_no label msg.id msg.length in
        can_print_frame uart instance_no msg tx t
        ≡ done tt (uart.send (second line (take msg.length msg.content)) (uart.send line t))
  can_print_frame-prints instance_no msg tx label t small enough named fits =
      fitting_frame-prints instance_no msg tx label t enough named
        (omega (arith, length-can_line 1 tx instance_no label msg.id msg.length small))

  -- A PDU whose pointer leads to the bytes that its length says, with an identifier that has a
  -- label, is printed without an overflow if its label has fewer than 15 characters and three more
  -- for each byte: first the line with its label, identifier and length, then its bytes, or the
  -- line again if it has none.
  pub print_pdu-prints :
      (id len : ℕ) (bytes : List ℕ) (tx : Bool) (label : List ℕ) (t : uart.Line)
      → len ≤ length bytes
      → label_of id ≡ some label
      → length label < 15 + len * 3
      → let line = pdu_line tx label id len in
        print_pdu uart id len bytes tx t
        ≡ done tt (uart.send (second line (take len bytes)) (uart.send line t))
  unfolding print_pdu
  print_pdu-prints id len bytes tx label t enough named fits =
      let line = pdu_line tx label id len in
      let size : length (take len bytes) ≡ len = length-take_of_le len bytes enough in
      let (_, clean) = short_lem label (label_lem id label named) in
      let here : ltb (length bytes) len ≡ false = ground arith in
      rw (here, named)
        (print_line_lem uart line (take len bytes) t (no_zero-pdu_line tx label id len clean)
          (omega (arith, length-pdu_line tx label id len, size)))

  -- A sent frame whose label has at least 15 characters and three more for each byte overflows the
  -- buffer of CAN_printFrame, on whatever interface. The frame has the bytes that its length says.
  pub can_print_frame-overflows :
      (instance_no : ℕ) (msg : CanMessage) (label : List ℕ) (t : uart.Line)
      → msg.length ≤ length msg.content
      → label_of msg.id ≡ some label
      → 15 + msg.length * 3 ≤ length label
      → can_print_frame uart instance_no msg true t ≡ crash
  unfolding can_print_frame print_line sprintf
  can_print_frame-overflows instance_no msg label t enough named long =
      let bytes = take msg.length msg.content in
      let line = can_line true instance_no label msg.id msg.length in
      let here : ltb (length msg.content) msg.length ≡ false = ground arith in
      let size = 50 + length bytes * 3 in
      let over : ltb (length (uart.fresh size)) (0 + length line + 1) ≡ true = grind (
        arith,
        sent_line_long instance_no label msg.id msg.length,
        uart.length_fresh size,
        length-take_of_le msg.length msg.content enough,
      ) in
      rw (here, named, over) refl
