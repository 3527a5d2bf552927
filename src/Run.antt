-- ===== src/Run.antt =====
-- Runs of stateful code: what C code comes to, and how one reasons about it.
use xcan_router.Prelude.{◌≡◌, refl}

-- What running code over the states `S` comes to. `crash` is undefined behaviour: an access through
-- NULL or through a pointer to no live object. `spin` is a loop that was given too few rounds.
pub data Run (S A : Type 0) : Type 0 where
  done : A → S → Run S A
  crash : Run S A
  spin : Run S A

abbrev pub pure : {S A : Type 0} → A → S → Run S A
pure = done

module _ {S A B : Type 0} where
  abbrev pub then_run : Run S A → (A → S → Run S B) → Run S B
  then_run (done a m) k = k a m
  then_run crash k = crash
  then_run spin k = spin

  infixl 5 ◌>>=◌ ◌>>◌
  abbrev pub ◌>>=◌ : (S → Run S A) → (A → S → Run S B) → S → Run S B
  c >>= k = λ m. then_run (c m) k

  abbrev pub ◌>>◌ : (S → Run S A) → (S → Run S B) → S → Run S B
  c >> d = c >>= λ _. d

-- Total correctness: the code comes to an end, and its result and state satisfy `P`.
abbrev pub Returns : {S A : Type 0} → (A → S → Type 0) → Run S A → Type 0
Returns P (done a m) = P a m
Returns P crash = ⊥
Returns P spin = ⊥

-- Partial correctness: if the code comes to an end, its result and state satisfy `P`.
abbrev pub IfDone : {S A : Type 0} → (A → S → Type 0) → Run S A → Type 0
IfDone P (done a m) = P a m
IfDone P crash = Unit
IfDone P spin = Unit

module _ {S A : Type 0} where
  pub Returns-mono :
      {P : A → S → Type 0} (Q : A → S → Type 0) (o : Run S A)
      → Returns P o
      → ((a : A) (m : S) → P a m → Q a m)
      → Returns Q o
  Returns-mono Q (done a m) p weaken = weaken a m p
  Returns-mono Q crash p weaken = p
  Returns-mono Q spin p weaken = p

  -- Code that comes to an end has a result.
  pub Returns-done :
      {P : A → S → Type 0} (o : Run S A) → Returns P o → (a : A) × (m : S) × (o ≡ done a m) × P a m
  Returns-done (done a m) p = (a, m, refl, p)
  Returns-done crash p = absurd p
  Returns-done spin p = absurd p

  pub IfDone-Returns : (P : A → S → Type 0) (o : Run S A) → Returns P o → IfDone P o
  IfDone-Returns P (done a m) p = p
  IfDone-Returns P crash p = tt
  IfDone-Returns P spin p = tt

  pub IfDone-mono :
      {P : A → S → Type 0} (Q : A → S → Type 0) (o : Run S A)
      → IfDone P o
      → ((a : A) (m : S) → P a m → Q a m)
      → IfDone Q o
  IfDone-mono Q (done a m) p weaken = weaken a m p
  IfDone-mono Q crash p weaken = tt
  IfDone-mono Q spin p weaken = tt

  pub IfDone-both :
      (P Q : A → S → Type 0) (o : Run S A)
      → IfDone P o
      → IfDone Q o
      → IfDone (λ a m. P a m × Q a m) o
  IfDone-both P Q (done a m) p q = (p, q)
  IfDone-both P Q crash p q = tt
  IfDone-both P Q spin p q = tt

  pub Returns-both :
      (P Q : A → S → Type 0) (o : Run S A)
      → Returns P o
      → IfDone Q o
      → Returns (λ a m. P a m × Q a m) o
  Returns-both P Q (done a m) p q = (p, q)
  Returns-both P Q crash p q = p
  Returns-both P Q spin p q = p

  pub IfDone-trivial : (o : Run S A) → IfDone (λ _ _. Unit {0}) o
  IfDone-trivial (done a m) = tt
  IfDone-trivial crash = tt
  IfDone-trivial spin = tt

module _ {S A B : Type 0} where
  -- Code may be reasoned about in two steps.
  pub Returns-bind :
      {P : A → S → Type 0} (Q : B → S → Type 0) (k : A → S → Run S B) (o : Run S A)
      → Returns P o
      → ((a : A) (m : S) → P a m → Returns Q (k a m))
      → Returns Q (then_run o k)
  Returns-bind Q k (done a m) p next = next a m p
  Returns-bind Q k crash p next = absurd p
  Returns-bind Q k spin p next = absurd p

  pub IfDone-bind :
      {P : A → S → Type 0} (Q : B → S → Type 0) (k : A → S → Run S B) (o : Run S A)
      → IfDone P o
      → ((a : A) (m : S) → P a m → IfDone Q (k a m))
      → IfDone Q (then_run o k)
  IfDone-bind Q k (done a m) p next = next a m p
  IfDone-bind Q k crash p next = tt
  IfDone-bind Q k spin p next = tt

pub then_run_assoc :
    {S A B C : Type 0} (o : Run S A) (f : A → S → Run S B) (g : B → S → Run S C)
    → then_run (then_run o f) g ≡ then_run o (λ a m. then_run (f a m) g)
then_run_assoc (done a m) f g = refl
then_run_assoc crash f g = refl
then_run_assoc spin f g = refl
