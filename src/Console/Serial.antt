-- ===== src/Console/Serial.antt =====
-- CONSOLE_printString, CONSOLE_printData and CONSOLE_printError of
-- _old/Framework/dbg_console/dbg_console.c.
use xcan_router.Prelude.{ℕ, ◌+◌, ◌≡◌, none, some, List, ◌∷◌, ◌++◌, ltb, if◌then◌else◌, length, take}
use xcan_router.Run.{Run, done, crash, ◌>>=◌}
use xcan_router.Console.Text.{codes, esc}
use xcan_router.Console.Buffer.{sprintf, until_zero}

-- The UART of the SDK and the stack. `send` is UART_SendDataBlocking, whose status is not looked
-- at. `fresh` has the bytes that stand in a new array of some length, before it is written.
pub record Uart : Type 1 where
  pub Line : Type 0
  pub send : List ℕ → Line → Line
  pub fresh : ℕ → List ℕ
  pub length_fresh : (n : ℕ) → length (fresh n) ≡ n

-- "\e[31m\e[1m%s\e[0m"
abbrev pub in_red : List ℕ → List ℕ
in_red text = esc ∷ codes "[31m" ++ esc ∷ codes "[1m" ++ text ++ esc ∷ codes "[0m"

module _ (uart : Uart) where
  abbrev pub Print : Type 0 → Type 0
  Print A = uart.Line → Run uart.Line A

  -- The string in a buffer. Without a NUL in it, strlen reads beyond its end.
  unfoldable pub print_string : List ℕ → Print (Unit {0})
  print_string buff t = elim (until_zero buff) [
    | none ↦ crash
    | some text ↦ done tt (uart.send text t)
  ]

  unfoldable pub print_data : List ℕ → ℕ → Print (Unit {0})
  print_data bytes len t =
      if ltb (length bytes) len then crash else done tt (uart.send (take len bytes) t)

  -- The string in a buffer, in red.
  unfoldable pub print_error : List ℕ → Print (Unit {0})
  print_error string t = elim (until_zero string) [
    | none ↦ crash
    | some text ↦
        (sprintf 0 (in_red text) (uart.fresh (length text + 20)) >>= λ buff. print_string buff) t
  ]
