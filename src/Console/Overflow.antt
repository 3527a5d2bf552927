-- ===== src/Console/Overflow.antt =====
-- Where the printing writes beyond its buffer.
use xcan_router.Prelude.{
  ℕ, ◌+◌, ◌*◌, ◌≤◌, ◌<◌, ◌≡◌, refl, ◌⊎◌, inl, inr, true, false, List, [], ◌∷◌, ◌++◌, arith, ltb,
  Bool-cases, length, take, drop, length-append, length-take_of_le, length-drop,
}
use xcan_router.Run.{done, crash, ◌>>=◌}
use xcan_router.Gateway.Ecu.{CanMessage}
use xcan_router.Console.Text.{hex_byte}
use xcan_router.Console.Buffer.{no_zero, sprintf}
use xcan_router.Console.Serial.{Uart, print_error, in_red}
use xcan_router.Console.Frames.{
  error_line, SendStatus, status_text, hex_loop, can_print_error, can_error_handler,
}
use xcan_router.Console.Lines.{
  second, hexes, length-hex_byte, behind, sprintf_at, hex_loop_lem, print_error_lem, no_zero-hexes,
}
use xcan_router.Console.Sizes.{length-error_line, no_zero-error_line}

length-written :
    (off : ℕ) (text buff : List ℕ)
    → off + length text < length buff
    → length (take off buff ++ text ++ 0 ∷ drop (off + length text + 1) buff) ≡ length buff
length-written off text buff lt =
    let rest = drop (off + length text + 1) buff in
    omega (
      arith,
      length-append (take off buff ++ text) (0 ∷ rest),
      length-append (take off buff) text,
      length-take_of_le off buff (omega arith),
      length-drop (off + length text + 1) buff,
    )

length-sprintf :
    {S : Type 0} (off : ℕ) (text buff : List ℕ) (s : S)
    → (sprintf off text buff s ≡ crash)
      ⊎ ((buff' : List ℕ) × (sprintf off text buff s ≡ done buff' s)
          × (length buff' ≡ length buff)
          × (off + length text < length buff))
unfolding sprintf
length-sprintf off text buff s = elim (Bool-cases (ltb (length buff) (off + length text + 1))) [
  | inl e ↦ inl (rw (sprintf, e) refl)
  | inr e ↦ inr (
    take off buff ++ text ++ 0 ∷ drop (off + length text + 1) buff,
    rw (sprintf, e) refl,
    length-written off text buff (ground arith),
    ground arith,
  )
]

-- The loop overflows a buffer of 100 characters if it gets to the byte number 33.
overflow_lem :
    {S : Type 0} (i : ℕ) (bs buff : List ℕ) (s : S)
    → length buff ≡ 100
    → i ≤ 33
    → 34 ≤ i + length bs
    → hex_loop i bs buff s ≡ crash
unfolding hex_loop
overflow_lem i [] buff s size le ge = absurd (omega arith)
overflow_lem i (b ∷ bs) buff s size le ge = elim (length-sprintf (i * 3) (hex_byte b) buff s) [
  | inl e ↦ rw (e) refl
  | inr (buff', e, same, lt) ↦ rw (e) (
      overflow_lem (i + 1) bs buff' s (omega arith) (omega (arith, length-hex_byte b))
        (omega arith))
]

module _ (uart : Uart) where
  first_line :
      (instance_no : ℕ) (msg : CanMessage) (stat : SendStatus) (t : uart.Line)
      → instance_no < 100
      → let line = error_line instance_no (status_text stat) msg.id msg.length in
        sprintf 0 line (uart.fresh 100) t ≡ done (line ++ behind line (uart.fresh 100)) t
  first_line instance_no msg stat t small =
      let line = error_line instance_no (status_text stat) msg.id msg.length in
      sprintf_at 0 [] line (uart.fresh 100) t refl (
        omega (
          arith,
          uart.length_fresh 100,
          length-error_line instance_no msg.id msg.length stat small,
        ))

  length-first :
      (instance_no id len : ℕ) (stat : SendStatus)
      → instance_no < 100
      → let line = error_line instance_no (status_text stat) id len in
        length (line ++ behind line (uart.fresh 100)) ≡ 100
  length-first instance_no id len stat small =
      let line = error_line instance_no (status_text stat) id len in
      omega (
        arith,
        length-append line (behind line (uart.fresh 100)),
        length-drop (length line + 1) (uart.fresh 100),
        uart.length_fresh 100,
        length-error_line instance_no id len stat small,
      )

  -- The second half of CAN_printError, on a buffer of 100 characters that has the line in it.
  rest_of_error :
      (bytes line : List ℕ) (t : uart.Line)
      → no_zero line ≡ true
      → length line < 100
      → length bytes ≤ 33
      → (hex_loop 0 bytes (line ++ behind line (uart.fresh 100)) >>= λ buff. print_error uart buff)
          t
        ≡ done tt (uart.send (in_red (second line bytes)) t)
  unfolding hex_loop
  rest_of_error [] line t clean fits le =
      print_error_lem uart line (drop (length line + 1) (uart.fresh 100)) t clean
  rest_of_error (b ∷ bs) line t clean fits le =
      let (rest, looped) = hex_loop_lem [] b bs (line ++ behind line (uart.fresh 100)) 0 t refl (
        omega (
          arith,
          length-append line (behind line (uart.fresh 100)),
          length-drop (length line + 1) (uart.fresh 100),
          uart.length_fresh 100,
        )) in
      rw (looped) (print_error_lem uart (hexes (b ∷ bs)) rest t (no_zero-hexes (b ∷ bs)))

  bytes_there :
      (msg : CanMessage)
      → msg.length ≤ length msg.content
      → ltb (length msg.content) msg.length ≡ false
  bytes_there msg enough = ground arith

  -- If a frame with more than 33 bytes is not sent, CAN_errorHandler writes beyond the 100 characters
  -- of the buffer in CAN_printError, whatever the status. The frame has the bytes that its length
  -- says, and the interface is one of up to 100.
  pub error_handler-overflows :
      (instance_no mailbox : ℕ) (msg : CanMessage) (stat : SendStatus) (t : uart.Line)
      → instance_no < 100
      → msg.length ≤ length msg.content
      → 34 ≤ msg.length
      → can_error_handler uart instance_no mailbox msg stat t ≡ crash
  unfolding can_print_error
  error_handler-overflows instance_no mailbox msg stat t small enough long =
      let line = error_line instance_no (status_text stat) msg.id msg.length in
      let buff = line ++ behind line (uart.fresh 100) in
      let bytes = take msg.length msg.content in
      rw
        (
          bytes_there msg enough,
          first_line instance_no msg stat t small,
          print_error_lem uart line (drop (length line + 1) (uart.fresh 100)) t
              (no_zero-error_line instance_no msg.id msg.length stat),
          overflow_lem 0 bytes buff (uart.send (in_red line) t)
              (length-first instance_no msg.id msg.length stat small) (omega arith)
              (omega (arith, length-take_of_le msg.length msg.content enough)),
        )
        refl

  -- A frame of up to 33 bytes that is not sent is reported without an overflow: CAN_errorHandler
  -- prints, in red, the line with the interface, the status, the identifier and the length, then the
  -- bytes, or the line again if there are none. The frame has the bytes that its length says, and the
  -- interface is one of up to 100.
  pub error_handler-prints :
      (instance_no mailbox : ℕ) (msg : CanMessage) (stat : SendStatus) (t : uart.Line)
      → instance_no < 100
      → msg.length ≤ length msg.content
      → msg.length ≤ 33
      → let line = error_line instance_no (status_text stat) msg.id msg.length in
        can_error_handler uart instance_no mailbox msg stat t
        ≡ done tt (
            uart.send
              (in_red (second line (take msg.length msg.content)))
              (uart.send (in_red line) t))
  unfolding can_print_error
  error_handler-prints instance_no mailbox msg stat t small enough short =
      let line = error_line instance_no (status_text stat) msg.id msg.length in
      let bytes = take msg.length msg.content in
      let clean = no_zero-error_line instance_no msg.id msg.length stat in
      rw
        (
          bytes_there msg enough,
          first_line instance_no msg stat t small,
          print_error_lem uart line (drop (length line + 1) (uart.fresh 100)) t clean,
        )
        (rest_of_error bytes line (uart.send (in_red line) t) clean
          (length-error_line instance_no msg.id msg.length stat small)
          (omega (arith, length-take_of_le msg.length msg.content enough)))
