-- ===== src/Security/Driver.antt =====
-- The security PAL of the SDK, which is not part of the repository, and how hsm_she.c calls it.
use xcan_router.Prelude.{ℕ, Bool, true, false, List, ◌==◌, if◌then◌else◌}

-- Each call gives a status_t, what it writes through its pointers, and the module's next state. A
-- buffer after a call that failed has what was there before, which is part of the state. The calls
-- use SECURITY_RAM_KEY where they take a key; lengths of messages for a MAC are in bits. What
-- SECURITY_LoadKey writes into m4 and m5 is not read.
pub record She : Type 1 where
  pub Hw : Type 0
  pub status_success : ℕ
  pub master_ecu : ℕ
  pub boot_mac_key : ℕ
  pub key_1 : ℕ
  pub init : Hw → ℕ × Hw
  pub init_rng : Hw → ℕ × Hw
  pub compress : List ℕ → Hw → ℕ × List ℕ × Hw
  pub load_plain_key : List ℕ → Hw → ℕ × Hw
  pub encrypt_cbc : List ℕ → List ℕ → Hw → ℕ × List ℕ × Hw
  pub encrypt_ecb : List ℕ → Hw → ℕ × List ℕ × Hw
  pub generate_mac : List ℕ → ℕ → Hw → ℕ × List ℕ × Hw
  pub verify_mac : List ℕ → ℕ → List ℕ → ℕ → Hw → ℕ × Bool × Hw
  pub load_key : ℕ → List ℕ → List ℕ → List ℕ → Hw → ℕ × Hw
  pub get_id : List ℕ → Hw → ℕ × (List ℕ × ℕ × List ℕ) × Hw
  pub debug_challenge : Hw → ℕ × List ℕ × Hw
  pub debug_auth : List ℕ → Hw → ℕ × Hw

-- What a function with a status_t comes to: its results, or the first status that is not
-- STATUS_SUCCESS.
pub data Outcome (A : Type 0) : Type 0 where
  value : A → Outcome A
  failed : ℕ → Outcome A

module _ (she : She) where
  abbrev pub Job : Type 0 → Type 0
  Job A = she.Hw → Outcome A × she.Hw

  -- The test `stat != STATUS_SUCCESS` after a call.
  abbrev pub answer : {A : Type 0} → ℕ → A → Job A
  answer stat a h = if stat == she.status_success then (value a, h) else (failed stat, h)

  abbrev pub checked : {A : Type 0} → (she.Hw → ℕ × A × she.Hw) → Job A
  checked call h = let (stat, a, h') = call h in answer stat a h'

  abbrev pub checked_void : (she.Hw → ℕ × she.Hw) → Job (Unit {0})
  checked_void call h = let (stat, h') = call h in answer stat tt h'

  -- A call whose status is not looked at.
  abbrev pub unchecked : {A : Type 0} → (she.Hw → ℕ × A × she.Hw) → Job A
  unchecked call h = let (stat, a, h') = call h in (value a, h')

  abbrev pub unchecked_void : (she.Hw → ℕ × she.Hw) → Job (Unit {0})
  unchecked_void call h = let (stat, h') = call h in (value tt, h')

module _ {H A B : Type 0} where
  abbrev pub after : Outcome A × H → (A → H → Outcome B × H) → Outcome B × H
  after (value a, h) k = k a h
  after (failed stat, h) k = (failed stat, h)

  infixl 5 ◌>>=◌ ◌>>◌
  abbrev pub ◌>>=◌ : (H → Outcome A × H) → (A → H → Outcome B × H) → H → Outcome B × H
  c >>= k = λ h. after (c h) k

  abbrev pub ◌>>◌ : (H → Outcome A × H) → (H → Outcome B × H) → H → Outcome B × H
  c >> d = c >>= λ _. d

abbrev pub pure : {H A : Type 0} → A → H → Outcome A × H
pure a h = (value a, h)

-- `return stat == STATUS_SUCCESS` at the end of the functions that give a bool.
abbrev pub succeeded : {H A : Type 0} → Outcome A × H → Bool × H
succeeded (value a, h) = (true, h)
succeeded (failed stat, h) = (false, h)
