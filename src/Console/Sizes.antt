-- ===== src/Console/Sizes.antt =====
-- The lines of CAN_printFrame, PDU_printPDU and CAN_printError: their length, and that they have no
-- NUL.
use xcan_router.Prelude.{
  ◌^◌, suc, ℕ, ◌+◌, ◌≤◌, ◌<◌, ◌≡◌, refl, Bool, true, false, List, ◌++◌, arith, ◌==◌, length,
  length-append,
}
use xcan_router.Console.Text.{codes, decimal, hex, upper_digit, lower_digit}
use xcan_router.Console.Buffer.{no_zero, no_zero-append}
use xcan_router.Console.Frames.{
  can_line, pdu_line, error_line, SendStatus, busy, timeout, error, out_of_range, other_status,
  status_text,
}
use xcan_router.Console.Digits.{
  length-hex, no_zero-hex, upper_digit_lem, lower_digit_lem, no_zero-decimal, length-decimal,
  decimal_has_digit,
}

-- The end of each line: two numbers in hexadecimal digits.
abbrev tail_of : (ℕ → ℕ) → List ℕ → ℕ → ℕ → List ℕ
tail_of digit front id len =
    front ++ codes "\t0x" ++ hex digit 8 id ++ codes "\t0x" ++ hex digit 2 len ++ codes "\t"

length-tail :
    (digit : ℕ → ℕ) (front : List ℕ) (id len : ℕ)
    → length (tail_of digit front id len) ≡ length front + 17
length-tail digit front id len =
    let a = front ++ codes "\t0x" in
    let b = a ++ hex digit 8 id in
    let c = b ++ codes "\t0x" in
    omega (
      arith,
      length-append front (codes "\t0x"),
      length-append a (hex digit 8 id),
      length-append b (codes "\t0x"),
      length-append c (hex digit 2 len),
      length-append (c ++ hex digit 2 len) (codes "\t"),
      length-hex digit 8 id,
      length-hex digit 2 len,
    )

no_zero-tail :
    (digit : ℕ → ℕ) (front : List ℕ) (id len : ℕ)
    → ((d : ℕ) → (digit d == 0) ≡ false)
    → no_zero front ≡ true
    → no_zero (tail_of digit front id len) ≡ true
no_zero-tail digit front id len ne clean =
    let a = front ++ codes "\t0x" in
    let b = a ++ hex digit 8 id in
    let c = b ++ codes "\t0x" in
    no_zero-append (c ++ hex digit 2 len) (codes "\t")
      (no_zero-append c (hex digit 2 len)
        (no_zero-append b (codes "\t0x")
          (no_zero-append a (hex digit 8 id) (no_zero-append front (codes "\t0x") clean refl)
            (no_zero-hex digit 8 id ne))
          refl)
        (no_zero-hex digit 2 len ne))
      refl

-- What CAN_printFrame and CAN_printError have before the numbers.
abbrev front_of : ℕ → List ℕ → List ℕ → List ℕ
front_of instance_no way label = decimal instance_no ++ codes "][" ++ way ++ codes "] " ++ label

length-front :
    (k instance_no : ℕ) (way label : List ℕ)
    → instance_no < 10 ^ suc k
    → length way ≡ 2
    → length (front_of instance_no way label) ≤ 7 + k + length label
length-front k instance_no way label small two =
    let a = decimal instance_no ++ codes "][" in
    omega (
      arith,
      length-decimal k 10 instance_no small,
      length-append (decimal instance_no) (codes "]["),
      length-append a way,
      length-append (a ++ way) (codes "] "),
      length-append (a ++ way ++ codes "] ") label,
      two,
    )

no_zero-front :
    (instance_no : ℕ) (way label : List ℕ)
    → no_zero way ≡ true
    → no_zero label ≡ true
    → no_zero (front_of instance_no way label) ≡ true
no_zero-front instance_no way label clean clean' =
    let a = decimal instance_no ++ codes "][" in
    no_zero-append (a ++ way ++ codes "] ") label
      (no_zero-append (a ++ way) (codes "] ")
        (no_zero-append a way
          (no_zero-append (decimal instance_no) (codes "][") (no_zero-decimal 10 instance_no) refl)
          clean)
        refl)
      clean'

pub length-can_line :
    (k : ℕ) (tx : Bool) (instance_no : ℕ) (label : List ℕ) (id len : ℕ)
    → instance_no < 10 ^ suc k
    → length (can_line tx instance_no label id len) ≤ 35 + k + length label
unfolding can_line
length-can_line k true instance_no label id len small =
    let front = front_of instance_no (codes "Tx") label in
    omega (
      arith,
      length-tail upper_digit front id len,
      length-front k instance_no (codes "Tx") label small refl,
    )
length-can_line k false instance_no label id len small =
    let front = front_of instance_no (codes "Rx") label in
    omega (
      arith,
      length-tail upper_digit front id len,
      length-front k instance_no (codes "Rx") label small refl,
    )

pub sent_line_long :
    (instance_no : ℕ) (label : List ℕ) (id len : ℕ)
    → 35 + length label ≤ length (can_line true instance_no label id len)
unfolding can_line
sent_line_long instance_no label id len =
    let a = decimal instance_no ++ codes "][" in
    omega (
      arith,
      length-tail upper_digit (front_of instance_no (codes "Tx") label) id len,
      decimal_has_digit 9 instance_no,
      length-append (decimal instance_no) (codes "]["),
      length-append a (codes "Tx"),
      length-append (a ++ codes "Tx") (codes "] "),
      length-append (a ++ codes "Tx" ++ codes "] ") label,
    )

pub no_zero-can_line :
    (tx : Bool) (instance_no : ℕ) (label : List ℕ) (id len : ℕ)
    → no_zero label ≡ true
    → no_zero (can_line tx instance_no label id len) ≡ true
unfolding can_line
no_zero-can_line true instance_no label id len clean =
    no_zero-tail upper_digit (front_of instance_no (codes "Tx") label) id len upper_digit_lem
      (no_zero-front instance_no (codes "Tx") label refl clean)
no_zero-can_line false instance_no label id len clean =
    no_zero-tail upper_digit (front_of instance_no (codes "Rx") label) id len upper_digit_lem
      (no_zero-front instance_no (codes "Rx") label refl clean)

pub length-pdu_line :
    (tx : Bool) (label : List ℕ) (id len : ℕ)
    → length (pdu_line tx label id len) ≤ 35 + length label
unfolding pdu_line
length-pdu_line true label id len = omega (arith, length-tail lower_digit label id len)
length-pdu_line false label id len = omega (arith, length-tail lower_digit label id len)

pub no_zero-pdu_line :
    (tx : Bool) (label : List ℕ) (id len : ℕ)
    → no_zero label ≡ true
    → no_zero (pdu_line tx label id len) ≡ true
unfolding pdu_line
no_zero-pdu_line true label id len clean =
    no_zero-tail lower_digit label id len lower_digit_lem clean
no_zero-pdu_line false label id len clean =
    no_zero-tail lower_digit label id len lower_digit_lem clean

status_lem :
    (stat : SendStatus) → (length (status_text stat) ≤ 15) × (no_zero (status_text stat) ≡ true)
status_lem busy = (omega arith, refl)
status_lem timeout = (omega arith, refl)
status_lem error = (omega arith, refl)
status_lem out_of_range = (omega arith, refl)
status_lem other_status = (omega arith, refl)

pub length-error_line :
    (instance_no id len : ℕ) (stat : SendStatus)
    → instance_no < 100
    → length (error_line instance_no (status_text stat) id len) < 100
unfolding error_line
length-error_line instance_no id len stat small =
    let front = front_of instance_no (codes "Tx") (status_text stat) in
    omega (
      arith,
      length-tail upper_digit front id len,
      length-front 1 instance_no (codes "Tx") (status_text stat) small refl,
      (status_lem stat).0,
    )

pub no_zero-error_line :
    (instance_no id len : ℕ) (stat : SendStatus)
    → no_zero (error_line instance_no (status_text stat) id len) ≡ true
unfolding error_line
no_zero-error_line instance_no id len stat =
    no_zero-tail upper_digit (front_of instance_no (codes "Tx") (status_text stat)) id len
      upper_digit_lem
      (no_zero-front instance_no (codes "Tx") (status_text stat) refl (status_lem stat).1)
