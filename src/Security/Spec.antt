-- ===== src/Security/Spec.antt =====
-- What the SHE specification says of the security module: how it changes a key when it gets M1, M2
-- and M3, and what is relied on of the calls of the SDK.
use xcan_router.Prelude.{
  ℕ, ◌+◌, ◌*◌, ◌/◌, ◌%◌, ◌^◌, ◌≡◌, refl, ap₂, subst, ◌≢◌, inl, inr, Bool, true, false, ◌&&◌, Option,
  none, some, List, [], ◌∷◌, ◌++◌, arith, ltb, ◌==◌, if◌then◌else◌, Bool-cases, eq_of_==, length,
  get_elem?, take, drop, replicate,
}
use xcan_router.Security.Driver.{She}
use xcan_router.Security.Messages.{key_update_enc_c, key_update_mac_c, key_debug_key_c}

-- The functions of the specification: the key derivation, the encryption under a key and a first
-- vector, and the MAC under a key.
pub record Crypto : Type 0 where
  pub kdf : List ℕ → List ℕ
  pub cbc : List ℕ → List ℕ → List ℕ → List ℕ
  pub decrypt_cbc : List ℕ → List ℕ → List ℕ → List ℕ
  pub length_encrypted : (k iv p : List ℕ) → length (cbc k iv p) ≡ length p
  pub ecb : List ℕ → List ℕ → List ℕ
  pub decrypt_ecb : List ℕ → List ℕ → List ℕ
  pub cmac : List ℕ → List ℕ → List ℕ
  pub decrypt_encrypted :
      (k iv p : List ℕ) → length p % 16 ≡ 0 → length iv ≡ 16 → decrypt_cbc k iv (cbc k iv p) ≡ p
  pub length_block : (k p : List ℕ) → length (ecb k p) ≡ length p
  pub decrypt_block : (k p : List ℕ) → length p ≡ 16 → decrypt_ecb k (ecb k p) ≡ p

pub record Slot : Type 0 where
  pub key : List ℕ
  pub counter : ℕ

abbrev pub Slots : Type 0
Slots = ℕ → Slot

abbrev pub stored : ℕ → Slot → Slots → Slots
stored id slot slots i = if i == id then slot else slots i

abbrev pub byte_at : ℕ → List ℕ → ℕ
byte_at i bytes = elim (get_elem? bytes i) [ none ↦ 0 | some b ↦ b ]

abbrev pub same_bytes : List ℕ → List ℕ → Bool
same_bytes [] [] = true
same_bytes [] (y ∷ ys) = false
same_bytes (x ∷ xs) [] = false
same_bytes (x ∷ xs) (y ∷ ys) = if x == y then same_bytes xs ys else false

pub same_bytes_self : (xs : List ℕ) → same_bytes xs xs ≡ true
same_bytes_self [] = refl
same_bytes_self (x ∷ xs) = ground (arith, same_bytes_self xs)

pub eq_of_same_bytes : (xs ys : List ℕ) → same_bytes xs ys ≡ true → xs ≡ ys
eq_of_same_bytes [] [] h = refl
eq_of_same_bytes [] (y ∷ ys) h = ground arith
eq_of_same_bytes (x ∷ xs) [] h = ground arith
eq_of_same_bytes (x ∷ xs) (y ∷ ys) h = elim (Bool-cases (x == y)) [
  | inl e ↦
      ap₂ (λ a t. a ∷ t) (eq_of_== x y e)
        (eq_of_same_bytes xs ys (subst (λ t. (if t then same_bytes xs ys else false) ≡ true) e h))
  | inr e ↦ absurd (ground arith)
]

pub not_same : (xs ys : List ℕ) → xs ≢ ys → same_bytes xs ys ≡ false
not_same xs ys ne = elim (Bool-cases (same_bytes xs ys)) [
  | inl e ↦ absurd (ne (eq_of_same_bytes xs ys e))
  | inr e ↦ e
]

-- The counter in the first 28 bits of the decrypted M2.
abbrev pub counter_of : List ℕ → ℕ
counter_of bytes =
    byte_at 0 bytes * 2 ^ 20
    + byte_at 1 bytes * 2 ^ 12
    + byte_at 2 bytes * 2 ^ 4
    + byte_at 3 bytes / 2 ^ 4

module _ (crypto : Crypto) where
  -- The memory update protocol: the key whose identifier is in the low half of the last byte of M1
  -- authorises the change of the key in the high half. M3 must be the MAC of M1 and M2, M1 must have
  -- the wildcard 0 for the UID, and the counter must be larger than the stored one.
  abbrev pub opened : List ℕ → List ℕ → List ℕ
  opened auth_key m2 =
      crypto.decrypt_cbc (crypto.kdf (auth_key ++ key_update_enc_c)) (replicate 16 0) m2

  abbrev pub replaced : ℕ → List ℕ → Slots → Option Slots
  replaced key_id plain slots =
      if ltb (slots key_id).counter (counter_of plain)
      then some (stored key_id (record { key = drop 16 plain; counter = counter_of plain }) slots)
      else none

  abbrev pub genuine : List ℕ → List ℕ → List ℕ → List ℕ → Bool
  genuine auth_key m1 m2 m3 =
      same_bytes (take 15 m1) (replicate 15 0)
      && same_bytes m3 (crypto.cmac (crypto.kdf (auth_key ++ key_update_mac_c)) (m1 ++ m2))

  abbrev pub updated : List ℕ → List ℕ → List ℕ → Slots → Option Slots
  updated m1 m2 m3 slots =
      let ids = byte_at 15 m1 in
      let auth_key = (slots (ids % 16)).key in
      if genuine auth_key m1 m2 m3 then replaced (ids / 16) (opened auth_key m2) slots else none

-- What is relied on: the calls succeed and compute the functions of the specification, under the
-- RAM key where they take a key, and only SECURITY_LoadKey changes a key, as the specification says.
pub record Works (she : She) (crypto : Crypto) : Type 0 where
  pub ram : she.Hw → List ℕ
  pub slots : she.Hw → Slots
  pub init_works : (h : she.Hw) → slots (she.init h).1 ≡ slots h
  pub compress_works :
      (x : List ℕ) (h : she.Hw)
      → (h' : she.Hw) × (she.compress x h ≡ (she.status_success, crypto.kdf x, h'))
        × (slots h' ≡ slots h)
  pub plain_key_works :
      (k : List ℕ) (h : she.Hw)
      → (h' : she.Hw) × (she.load_plain_key k h ≡ (she.status_success, h'))
        × (ram h' ≡ k)
        × (slots h' ≡ slots h)
  pub cbc_works :
      (p iv : List ℕ) (h : she.Hw)
      → (h' : she.Hw) × (she.encrypt_cbc p iv h ≡ (she.status_success, crypto.cbc (ram h) iv p, h'))
        × (slots h' ≡ slots h)
  pub ecb_works :
      (p : List ℕ) (h : she.Hw)
      → (h' : she.Hw) × (she.encrypt_ecb p h ≡ (she.status_success, crypto.ecb (ram h) p, h'))
        × (slots h' ≡ slots h)
  pub mac_works :
      (m : List ℕ) (bits : ℕ) (h : she.Hw)
      → (h' : she.Hw) × (she.generate_mac m bits h
          ≡ (she.status_success, crypto.cmac (ram h) (take (bits / 8) m), h'))
        × (slots h' ≡ slots h)
  pub load_key_accepts :
      (id : ℕ) (m1 m2 m3 : List ℕ) (h : she.Hw) (t : Slots)
      → updated crypto m1 m2 m3 (slots h) ≡ some t
      → (h' : she.Hw) × (she.load_key id m1 m2 m3 h ≡ (she.status_success, h')) × (slots h' ≡ t)
  pub load_key_refuses :
      (id : ℕ) (m1 m2 m3 : List ℕ) (h : she.Hw)
      → updated crypto m1 m2 m3 (slots h) ≡ none
      → (stat : ℕ) × (h' : she.Hw) × (stat ≢ she.status_success)
        × (she.load_key id m1 m2 m3 h ≡ (stat, h'))
        × (slots h' ≡ slots h)

-- What is relied on of the calls for debugging. The challenge stays the same until SECURITY_DbgAuth,
-- which erases all keys if it gets the MAC of the challenge and the UID under the key derived from
-- the master key. The results of SECURITY_VerifyMacBlocking may be any.
pub record Debuggable (she : She) (crypto : Crypto) (works : Works she crypto) : Type 0 where
  pub uid : List ℕ
  pub length_uid : length uid ≡ 15
  pub pending : she.Hw → List ℕ
  pub erased : Slots
  pub rng_works : (h : she.Hw) → works.slots (she.init_rng h).1 ≡ works.slots h
  pub id_works :
      (challenge : List ℕ) (h : she.Hw)
      → (sreg : ℕ) × (mac : List ℕ) × (h' : she.Hw) × (she.get_id challenge h
          ≡ (she.status_success, (uid, sreg, mac), h'))
        × (works.slots h' ≡ works.slots h)
  pub verify_keeps :
      (m mac : List ℕ) (n k : ℕ) (h : she.Hw)
      → works.slots (she.verify_mac m n mac k h).2 ≡ works.slots h
  pub challenge_works :
      (h : she.Hw)
      → (c : List ℕ) × (h' : she.Hw) × (she.debug_challenge h ≡ (she.status_success, c, h'))
        × (length c ≡ 16)
        × (pending h' ≡ c)
        × (works.ram h' ≡ works.ram h)
        × (works.slots h' ≡ works.slots h)
  pub mac_keeps :
      (m : List ℕ) (bits : ℕ) (h : she.Hw) → pending (she.generate_mac m bits h).2 ≡ pending h
  pub auth_works :
      (auth : List ℕ) (h : she.Hw)
      → auth
        ≡ crypto.cmac
            (crypto.kdf ((works.slots h she.master_ecu).key ++ key_debug_key_c))
            (pending h ++ uid)
      → (h' : she.Hw) × (she.debug_auth auth h ≡ (she.status_success, h'))
        × (works.slots h' ≡ erased)
