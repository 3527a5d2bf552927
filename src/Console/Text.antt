-- ===== src/Console/Text.antt =====
-- The characters that the formats of sprintf give.
use Prim.Native.Char.{code}
use Prim.Native.String.{String}
use xcan_router.Prelude.{ℕ, zero, suc, ◌+◌, ◌-◌, ◌/◌, ◌%◌, List, [], ◌∷◌, ◌++◌, ltb, if◌then◌else◌}

-- The characters of a literal, without the NUL.
abbrev pub codes : String → List ℕ
codes String.[] = []
codes (String.◌∷◌ c s) = code c ∷ codes s

abbrev pub esc : ℕ
esc = 0x1b

-- "%d" of a number below 10 ^ n
unfoldable pub decimal_digits : ℕ → ℕ → List ℕ
decimal_digits zero n = []
decimal_digits (suc k) n =
    let rest = decimal_digits k (n / 10) in
    if ltb n 10 then (b'0' + n) ∷ [] else rest ++ (b'0' + n % 10) ∷ []

-- "%d" of an unsigned number of 32 bits, which has at most 10 digits.
abbrev pub decimal : ℕ → List ℕ
decimal = decimal_digits 10

-- A digit of "%X".
abbrev pub upper_digit : ℕ → ℕ
upper_digit d = if ltb d 10 then b'0' + d else b'A' + (d - 10)

-- A digit of "%x".
abbrev pub lower_digit : ℕ → ℕ
lower_digit d = if ltb d 10 then b'0' + d else b'a' + (d - 10)

-- "%0kX" or "%0kx" of a number below 16 ^ k
unfoldable pub hex : (ℕ → ℕ) → ℕ → ℕ → List ℕ
hex digit zero n = []
hex digit (suc k) n = hex digit k (n / 16) ++ digit (n % 16) ∷ []

-- "%02X "
abbrev pub hex_byte : ℕ → List ℕ
hex_byte b = hex upper_digit 2 b ++ codes " "
