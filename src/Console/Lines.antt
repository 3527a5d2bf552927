-- ===== src/Console/Lines.antt =====
-- Printing through a buffer: what print_line and print_error send.
use xcan_router.Prelude.{
  ℕ, suc, ◌+◌, ◌*◌, ◌<◌, ◌≡◌, refl, sym, ap, subst, ◌∙◌, true, List, [], ◌∷◌, ◌++◌, arith, length,
  drop, length-append, length-drop, append_assoc, append_nil,
}
use xcan_router.Run.{done}
use xcan_router.Console.Text.{codes, esc, hex, hex_byte, upper_digit}
use xcan_router.Console.Buffer.{sprintf, no_zero, no_zero-append, until_zero-append, sprintf_lem}
use xcan_router.Console.Serial.{Uart, print_string, print_error, in_red}
use xcan_router.Console.Frames.{hex_loop, print_line}
use xcan_router.Console.Digits.{length-hex, no_zero-hex, upper_digit_lem}

-- The bytes in hexadecimal digits, each with a space behind it.
abbrev pub hexes : List ℕ → List ℕ
hexes [] = []
hexes (b ∷ bs) = hex_byte b ++ hexes bs

pub length-hex_byte : (b : ℕ) → length (hex_byte b) ≡ 3
length-hex_byte b =
    omega (arith, length-append (hex upper_digit 2 b) (32 ∷ []), length-hex upper_digit 2 b)

pub no_zero-hexes : (bs : List ℕ) → no_zero (hexes bs) ≡ true
no_zero-hexes [] = refl
no_zero-hexes (b ∷ bs) =
    no_zero-append (hex_byte b) (hexes bs)
      (no_zero-append (hex upper_digit 2 b) (32 ∷ []) (no_zero-hex upper_digit 2 b upper_digit_lem)
        refl)
      (no_zero-hexes bs)

abbrev pub behind : List ℕ → List ℕ → List ℕ
behind text junk = 0 ∷ drop (length text + 1) junk

module _ {S : Type 0} where
  pub sprintf_at :
      (off : ℕ) (pre text junk : List ℕ) (s : S)
      → length pre ≡ off
      → length text < length junk
      → sprintf off text (pre ++ junk) s ≡ done (pre ++ text ++ behind text junk) s
  sprintf_at off pre text junk s at fits =
      subst (λ k. sprintf k text (pre ++ junk) s ≡ done (pre ++ text ++ behind text junk) s) at
        (sprintf_lem pre text junk s fits)

  pub hex_loop_lem :
      (pre : List ℕ) (b : ℕ) (bs junk : List ℕ) (i : ℕ) (s : S)
      → length pre ≡ i * 3
      → 3 * suc (length bs) < length junk
      → (rest : List ℕ) × (hex_loop i (b ∷ bs) (pre ++ junk) s
          ≡ done (pre ++ hexes (b ∷ bs) ++ 0 ∷ rest) s)
  unfolding hex_loop
  hex_loop_lem pre b [] junk i s at fits =
      let text = hex_byte b in
      let rest = drop (length text + 1) junk in
      (
        rest,
        rw (sprintf_at (i * 3) pre text junk s at (omega (arith, length-hex_byte b)))
            (ap (λ u. done (pre ++ u ++ 0 ∷ rest) s) (sym (append_nil text))),
      )
  hex_loop_lem pre b (c ∷ bs) junk i s at fits =
      let text = hex_byte b in
      let (rest, next) =
        hex_loop_lem (pre ++ text) c bs (behind text junk) (i + 1) s
          (omega (arith, length-append pre text, length-hex_byte b))
          (omega (arith, length-drop (length text + 1) junk, length-hex_byte b)) in
      (
        rest,
        rw (sprintf_at (i * 3) pre text junk s at (omega (arith, length-hex_byte b)))
            (next ∙ ap (λ u. done (u ++ 0 ∷ rest) s) (append_assoc pre text (hexes (c ∷ bs)))),
      )

-- What comes out after the loop: the bytes, or the line again where there are none.
abbrev pub second : List ℕ → List ℕ → List ℕ
second line [] = line
second line (b ∷ bs) = hexes (b ∷ bs)

module _ (uart : Uart) where
  pub print_string_lem :
      (text rest : List ℕ) (t : uart.Line)
      → no_zero text ≡ true
      → print_string uart (text ++ 0 ∷ rest) t ≡ done tt (uart.send text t)
  unfolding print_string
  print_string_lem text rest t clean = rw (print_string, until_zero-append text rest clean) refl

  pub print_error_lem :
      (text rest : List ℕ) (t : uart.Line)
      → no_zero text ≡ true
      → print_error uart (text ++ 0 ∷ rest) t ≡ done tt (uart.send (in_red text) t)
  unfolding print_error
  print_error_lem text rest t clean =
      let red = in_red text in
      let junk = uart.fresh (length text + 20) in
      let end : List ℕ = esc ∷ codes "[0m" in
      let start : List ℕ = esc ∷ codes "[31m" ++ esc ∷ codes "[1m" in
      rw
        (
          print_error,
          until_zero-append text rest clean,
          sprintf_at 0 [] red junk t refl (
              omega (
                arith,
                length-append (start ++ text) end,
                length-append start text,
                uart.length_fresh (length text + 20),
              )),
        )
        (print_string_lem red (drop (length red + 1) junk) t (no_zero-append text end clean refl))

  pub print_line_lem :
      (line bytes : List ℕ) (t : uart.Line)
      → no_zero line ≡ true
      → length line < 50 + length bytes * 3
      → print_line uart line bytes t ≡ done tt (uart.send (second line bytes) (uart.send line t))
  unfolding print_line hex_loop
  print_line_lem line [] t clean fits =
      let junk = uart.fresh (50 + 0 * 3) in
      let rest = drop (length line + 1) junk in
      rw
        (
          sprintf_at 0 [] line junk t refl (omega (arith, uart.length_fresh (50 + 0 * 3))),
          print_string_lem line rest t clean,
          print_string_lem line rest (uart.send line t) clean,
        )
        refl
  print_line_lem line (b ∷ bs) t clean fits =
      let size = 50 + length (b ∷ bs) * 3 in
      let junk = uart.fresh size in
      let rest = drop (length line + 1) junk in
      let t' = uart.send line t in
      let (rest', looped) = hex_loop_lem [] b bs (line ++ 0 ∷ rest) 0 t' refl (
        omega (
          arith,
          length-append line (0 ∷ rest),
          length-drop (length line + 1) junk,
          uart.length_fresh size,
        )) in
      rw
        (
          sprintf_at 0 [] line junk t refl (omega (arith, uart.length_fresh size)),
          print_string_lem line rest t clean,
          looped,
        )
        (print_string_lem (hexes (b ∷ bs)) rest' t' (no_zero-hexes (b ∷ bs)))
