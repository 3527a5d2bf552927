-- ===== src/Console/Rows.antt =====
-- What print_ECUs sends to the console.
use xcan_router.Prelude.{
  ℕ, zero, suc, ◌+◌, ◌≤◌, ◌<◌, ◌≡◌, refl, subst, true, some, List, [], ◌∷◌, ◌++◌, arith, length,
  get_elem?, drop, length-append, length-drop, get_elem?-append, append_assoc,
}
use xcan_router.Run.{done}
use xcan_router.Gateway.Ecu.{Ecu}
use xcan_router.Gateway.Backup.{InRange}
use xcan_router.Console.Text.{codes}
use xcan_router.Console.Buffer.{no_zero, no_zero-append}
use xcan_router.Console.Serial.{Uart}
use xcan_router.Console.Digits.{length-decimal, no_zero-decimal}
use xcan_router.Console.Lines.{print_string_lem, sprintf_at, behind}
use xcan_router.Console.Ecus.{
  status_name, protocol_name, endian_name, flat, row_parts, ecu_row, rule, heading, rows_from,
  print_ecus,
}

abbrev total : List (List ℕ) → ℕ
total [] = 0
total (x ∷ xs) = length x + total xs

length-flat : (xs : List (List ℕ)) → length (flat xs) ≡ total xs
length-flat [] = refl
length-flat (x ∷ xs) = omega (arith, length-append x (flat xs), length-flat xs)

abbrev AllClean : List (List ℕ) → Type 0
AllClean [] = Unit
AllClean (x ∷ xs) = (no_zero x ≡ true) × AllClean xs

no_zero-flat : (xs : List (List ℕ)) → AllClean xs → no_zero (flat xs) ≡ true
no_zero-flat [] clean = refl
no_zero-flat (x ∷ xs) (c, cs) = no_zero-append x (flat xs) c (no_zero-flat xs cs)

status_name_lem : (n : ℕ) → (length (status_name n) ≤ 9) × (no_zero (status_name n) ≡ true)
unfolding status_name
status_name_lem n = (ground arith, ground arith)

protocol_name_lem : (n : ℕ) → (length (protocol_name n) ≤ 6) × (no_zero (protocol_name n) ≡ true)
unfolding protocol_name
protocol_name_lem n = (ground arith, ground arith)

endian_name_lem : (n : ℕ) → (length (endian_name n) ≤ 6) × (no_zero (endian_name n) ≡ true)
unfolding endian_name
endian_name_lem n = (ground arith, ground arith)

row_lem :
    (i : ℕ) (e : Ecu)
    → i < 10
    → InRange e
    → (length (ecu_row i e) < 100) × (no_zero (ecu_row i e) ≡ true)
unfolding ecu_row
row_lem i e small range =
    let (s, s') = status_name_lem e.status in
    let (p, p') = protocol_name_lem e.protocol in
    let (n, n') = endian_name_lem e.endianness in
    (
      omega (
        arith,
        length-flat (row_parts i e),
        s,
        p,
        n,
        length-decimal 0 10 i small,
        length-decimal 2 10 e.fw_version (omega (arith, range.version_small)),
        length-decimal 1 10 e.instance_no (omega (arith, range.instance_small)),
        length-decimal 0 10 e.security (omega (arith, range.security_small)),
      ),
      no_zero-flat (row_parts i e) (
        refl,
        (
          no_zero-decimal 10 i,
          (
            refl,
            (
              s',
              (
                refl,
                (
                  no_zero-decimal 10 e.fw_version,
                  (
                    refl,
                    (
                      p',
                      (
                        refl,
                        (
                          no_zero-decimal 10 e.instance_no,
                          (refl, (no_zero-decimal 10 e.security, (refl, (n', (refl, tt))))),
                        ),
                      ),
                    ),
                  ),
                ),
              ),
            ),
          ),
        ),
      ),
    )

abbrev pub AllInRange : List Ecu → Type 0
AllInRange [] = Unit
AllInRange (e ∷ es) = InRange e × AllInRange es

module _ (uart : Uart) where
  -- The rows of a list of ECUs, from the i-th on.
  abbrev pub rows_sent : ℕ → List Ecu → uart.Line → uart.Line
  rows_sent i [] t = t
  rows_sent i (e ∷ es) t = rows_sent (i + 1) es (uart.send (ecu_row i e) t)

  rows_lem :
      (before ecus : List Ecu) (i left : ℕ) (buff : List ℕ) (t : uart.Line)
      → length before ≡ i
      → length ecus ≡ left
      → i + left ≤ 10
      → AllInRange ecus
      → length buff ≡ 100
      → rows_from uart i left (before ++ ecus) buff t ≡ done tt (rows_sent i ecus t)
  unfolding rows_from
  rows_lem before [] i zero buff t at count few range size = refl
  rows_lem before [] i (suc left) buff t at count few range size = absurd (omega arith)
  rows_lem before (e ∷ es) i zero buff t at count few range size = absurd (omega arith)
  rows_lem before (e ∷ es) i (suc left) buff t at count few (here, range) size =
      let (fits, clean) = row_lem i e (omega arith) here in
      let row = ecu_row i e in
      let found : get_elem? (before ++ (e ∷ es)) i ≡ some e =
        subst (λ k. get_elem? (before ++ (e ∷ es)) k ≡ some e) at
          (get_elem?-append before (e ∷ es)) in
      let next : rows_from uart (i + 1) left (before ++ e ∷ [] ++ es) (row ++ behind row buff)
            (uart.send row t)
          ≡ done tt (rows_sent (i + 1) es (uart.send row t)) =
        rows_lem (before ++ e ∷ []) es (i + 1) left (row ++ behind row buff) (uart.send row t)
          (omega (arith, length-append before (e ∷ []))) (omega arith) (omega arith) range
          (omega (
            arith,
            length-append row (behind row buff),
            length-drop (length row + 1) buff,
            fits,
          )) in
      rw
        (
          rows_from,
          found,
          sprintf_at 0 [] row buff t refl (omega arith),
          print_string_lem uart row (drop (length row + 1) buff) t clean,
        )
        (subst
          (λ xs.
            rows_from uart (i + 1) left xs (row ++ behind row buff) (uart.send row t)
            ≡ done tt (rows_sent (i + 1) es (uart.send row t)))
          (append_assoc before (e ∷ []) es) next)

  -- For a list of 4 ECUs whose fields are in range, print_ECUs comes to an end without an overflow
  -- of its buffer: it prints the rule, the heading and the rule, then one row for each ECU in their
  -- order, and the rule with a new line.
  pub print_ecus-prints :
      (ecus : List Ecu) (t : uart.Line)
      → length ecus ≡ 4
      → AllInRange ecus
      → print_ecus uart ecus t
        ≡ done tt (
            uart.send
              (rule ++ codes "\n\r")
              (rows_sent 0 ecus (uart.send rule (uart.send heading (uart.send rule t)))))
  unfolding print_ecus
  print_ecus-prints ecus t four range =
      let t1 = uart.send rule t in
      let t2 = uart.send heading t1 in
      let t3 = uart.send rule t2 in
      rw
        (
          print_string_lem uart rule [] t refl,
          print_string_lem uart heading [] t1 refl,
          print_string_lem uart rule [] t2 refl,
          rows_lem [] ecus 0 4 (uart.fresh 100) t3 refl four (omega arith) range
              (uart.length_fresh 100),
        )
        (print_string_lem uart (rule ++ codes "\n\r") [] (rows_sent 0 ecus t3) refl)
