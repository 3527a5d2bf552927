-- ===== src/Console/Digits.antt =====
-- The digits that sprintf writes: their number, and that none is a NUL.
use native.Mathlib.Omega.{pow_step}
use xcan_router.Prelude.{
  ℕ, zero, suc, ◌+◌, ◌/◌, ◌%◌, ◌^◌, ◌≤◌, ◌<◌, ◌≡◌, refl, inl, inr, true, false, [], ◌∷◌, arith, ltb,
  ◌==◌, Bool-cases, length, length-append,
}
use xcan_router.Console.Text.{decimal_digits, hex, upper_digit, lower_digit}
use xcan_router.Console.Buffer.{no_zero, no_zero-append}

pub length-hex : (digit : ℕ → ℕ) (k n : ℕ) → length (hex digit k n) ≡ k
unfolding hex
length-hex digit zero n = refl
length-hex digit (suc k) n =
    omega (
      arith,
      length-append (hex digit k (n / 16)) (digit (n % 16) ∷ []),
      length-hex digit k (n / 16),
    )

pub no_zero-hex :
    (digit : ℕ → ℕ) (k n : ℕ) → ((d : ℕ) → (digit d == 0) ≡ false) → no_zero (hex digit k n) ≡ true
unfolding hex
no_zero-hex digit zero n ne = refl
no_zero-hex digit (suc k) n ne =
    no_zero-append (hex digit k (n / 16)) (digit (n % 16) ∷ []) (no_zero-hex digit k (n / 16) ne)
      (rw (ne (n % 16)) refl)

pub upper_digit_lem : (d : ℕ) → (upper_digit d == 0) ≡ false
upper_digit_lem d = ground arith

pub lower_digit_lem : (d : ℕ) → (lower_digit d == 0) ≡ false
lower_digit_lem d = ground arith

pub no_zero-decimal : (k n : ℕ) → no_zero (decimal_digits k n) ≡ true
unfolding decimal_digits
no_zero-decimal zero n = refl
no_zero-decimal (suc k) n = elim (Bool-cases (ltb n 10)) [
  | inl e ↦ rw (e) (ground arith)
  | inr e ↦ rw (e) (
      no_zero-append (decimal_digits k (n / 10)) ((48 + n % 10) ∷ []) (no_zero-decimal k (n / 10))
        (ground arith))
]

one_digit : (n : ℕ) → n < 10 ^ 1 → ltb n 10 ≡ true
one_digit n lt = ground arith

below_tenth : (n j : ℕ) → n < 10 ^ suc j → n / 10 < 10 ^ j
below_tenth n j lt = omega (arith, pow_step 10 j)

-- A number below 10 ^ (j + 1) has at most j + 1 digits.
pub length-decimal : (j k n : ℕ) → n < 10 ^ suc j → length (decimal_digits k n) ≤ suc j
unfolding decimal_digits
length-decimal j zero n lt = omega arith
length-decimal zero (suc k) n lt = rw (one_digit n lt) (omega arith)
length-decimal (suc j) (suc k) n lt = elim (Bool-cases (ltb n 10)) [
  | inl e ↦ rw (e) (omega arith)
  | inr e ↦ rw (e) (
      omega (
        arith,
        length-append (decimal_digits k (n / 10)) ((48 + n % 10) ∷ []),
        length-decimal j k (n / 10) (below_tenth n (suc j) lt),
      ))
]

pub decimal_has_digit : (k n : ℕ) → 1 ≤ length (decimal_digits (suc k) n)
unfolding decimal_digits
decimal_has_digit k n = elim (Bool-cases (ltb n 10)) [
  | inl e ↦ rw (e) (omega arith)
  | inr e ↦ rw (e) (omega (arith, length-append (decimal_digits k (n / 10)) ((48 + n % 10) ∷ [])))
]
