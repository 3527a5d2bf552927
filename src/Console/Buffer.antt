-- ===== src/Console/Buffer.antt =====
-- Buffers of characters: sprintf into an array, and the string that an array holds.
use xcan_router.Prelude.{
  ℕ, ◌+◌, ◌<◌, ◌≡◌, refl, Bool, true, false, not, ◌&&◌, Option, none, some, List, [], ◌∷◌, ◌++◌,
  arith, ltb, ◌==◌, if◌then◌else◌, length, take, drop, length-append, take-append, drop-append,
}
use xcan_router.Run.{Run, done, crash}

-- sprintf to `&buff[off]`: the text and a NUL. Beyond the array's end it is a crash.
unfoldable pub sprintf : {S : Type 0} → ℕ → List ℕ → List ℕ → S → Run S (List ℕ)
sprintf off text buff s =
    if ltb (length buff) (off + length text + 1)
    then crash
    else done (take off buff ++ text ++ 0 ∷ drop (off + length text + 1) buff) s

-- The characters before the first NUL.
abbrev pub until_zero : List ℕ → Option (List ℕ)
until_zero [] = none
until_zero (c ∷ s) =
    let rest = until_zero s in
    if c == 0 then some [] else elim rest [ none ↦ none | some t ↦ some (c ∷ t) ]

abbrev pub no_zero : List ℕ → Bool
no_zero [] = true
no_zero (c ∷ s) = not (c == 0) && no_zero s

pub no_zero-append :
    (xs ys : List ℕ) → no_zero xs ≡ true → no_zero ys ≡ true → no_zero (xs ++ ys) ≡ true
no_zero-append [] ys h k = k
no_zero-append (x ∷ xs) ys h k = ground (arith, no_zero-append xs ys)

pub until_zero-append : (xs ys : List ℕ) → no_zero xs ≡ true → until_zero (xs ++ 0 ∷ ys) ≡ some xs
until_zero-append [] ys h = refl
until_zero-append (x ∷ xs) ys h = ground (arith, until_zero-append xs ys)

-- A text that fits behind `pre` goes there, and the rest of the array is as before.
pub sprintf_lem :
    {S : Type 0} (pre text junk : List ℕ) (s : S)
    → length text < length junk
    → sprintf (length pre) text (pre ++ junk) s
      ≡ done (pre ++ text ++ 0 ∷ drop (length text + 1) junk) s
unfolding sprintf
sprintf_lem pre text junk s fits =
    let test : ltb (length (pre ++ junk)) (length pre + length text + 1) ≡ false =
      ground (arith, length-append pre junk) in
    rw
      (
        test,
        take-append (length pre) pre junk refl,
        drop-append (length pre + length text + 1) (length text + 1) pre junk (omega arith),
      )
      refl
