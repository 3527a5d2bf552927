-- ===== src/Security/Accept.antt =====
-- The messages of HSM_ComputeM1M2M3 as the security module understands them.
use xcan_router.Prelude.{
  ℕ, ◌/◌, ◌%◌, ◌^◌, ◌<◌, ◌≡◌, refl, ◌≢◌, true, Option, none, some, List, ◌++◌, arith, ltb,
  if◌then◌else◌, length, take, drop, replicate, length-append, take_all,
}
use xcan_router.Security.Messages.{
  key_update_enc_c, key_update_mac_c, counter_bytes, ids_byte, compute_m1, m2_plain,
}
use xcan_router.Security.Spec.{
  Crypto, Slots, stored, byte_at, same_bytes_self, not_same, counter_of, opened, genuine, updated,
}

-- The 4 bytes have each a value below 256, and the module reads the low 28 bits of the counter
-- from them, whatever the low half of the last byte has.
pub counter_bytes-decode :
    (counter low : ℕ)
    → low < 16
    → (byte_at 0 (counter_bytes counter low) < 256)
      × (byte_at 1 (counter_bytes counter low) < 256)
      × (byte_at 2 (counter_bytes counter low) < 256)
      × (byte_at 3 (counter_bytes counter low) < 256)
      × (counter_of (counter_bytes counter low) ≡ counter % 2 ^ 28)
unfolding counter_bytes
counter_bytes-decode counter low small =
    (omega arith, omega arith, omega arith, omega arith, omega arith)

abbrev pub wildcard : List ℕ
wildcard = replicate 15 0

ids_of_m1 :
    (key_id auth_id : ℕ)
    → key_id < 16
    → auth_id < 16
    → (byte_at 15 (compute_m1 wildcard key_id auth_id) / 16 ≡ key_id)
      × (byte_at 15 (compute_m1 wildcard key_id auth_id) % 16 ≡ auth_id)
unfolding compute_m1 ids_byte
ids_of_m1 key_id auth_id small small' = (omega arith, omega arith)

uid_of_m1 : (key_id auth_id : ℕ) → take 15 (compute_m1 wildcard key_id auth_id) ≡ wildcard
unfolding compute_m1
uid_of_m1 key_id auth_id = refl

pub length_m1 : (key_id auth_id : ℕ) → length (compute_m1 wildcard key_id auth_id) ≡ 16
unfolding compute_m1
length_m1 key_id auth_id = refl

plain_lem :
    (key : List ℕ) (counter : ℕ)
    → length key ≡ 16
    → counter < 2 ^ 28
    → (counter_of (m2_plain key counter) ≡ counter)
      × (drop 16 (m2_plain key counter) ≡ key)
      × (length (m2_plain key counter) ≡ 32)
unfolding m2_plain counter_bytes
plain_lem key counter full small =
    let whole : take 16 key ≡ key = take_all 16 key (omega arith) in
    (omega arith, whole, rw (whole, full) refl)

module _ (crypto : Crypto) where
  -- A key whose counter has become larger.
  abbrev pub raised : ℕ → List ℕ → ℕ → Slots → Slots
  raised key_id key counter slots =
      if ltb (slots key_id).counter counter
      then stored key_id (record { key = key; counter = counter }) slots
      else slots

  abbrev pub accepted : ℕ → List ℕ → ℕ → Slots → Option Slots
  accepted key_id key counter slots =
      if ltb (slots key_id).counter counter
      then some (stored key_id (record { key = key; counter = counter }) slots)
      else none

  abbrev pub k_enc : List ℕ → List ℕ
  k_enc auth_key = crypto.kdf (take 16 auth_key ++ take 16 key_update_enc_c)

  abbrev pub k_mac : List ℕ → List ℕ
  k_mac auth_key = crypto.kdf (take 16 auth_key ++ take 16 key_update_mac_c)

  abbrev pub m2_for : List ℕ → List ℕ → ℕ → List ℕ
  m2_for auth_key key counter = crypto.cbc (k_enc auth_key) (replicate 16 0) (m2_plain key counter)

  abbrev pub m3_for : List ℕ → List ℕ → List ℕ → List ℕ
  m3_for auth_key m1 m2 = crypto.cmac (k_mac auth_key) (take 48 (m1 ++ m2))

  genuine_lem :
      (auth_key key : List ℕ) (key_id auth_id counter : ℕ)
      → length auth_key ≡ 16
      → length key ≡ 16
      → counter < 2 ^ 28
      → let m1 = compute_m1 wildcard key_id auth_id in
        let m2 = m2_for auth_key key counter in
        genuine crypto auth_key m1 m2 (m3_for auth_key m1 m2) ≡ true
  genuine_lem auth_key key key_id auth_id counter full full' small =
      let m1 = compute_m1 wildcard key_id auth_id in
      let m2 = m2_for auth_key key counter in
      let (_, _, long) = plain_lem key counter full' small in
      let size : length (m1 ++ m2) ≡ 48 = omega (
        arith,
        length-append m1 m2,
        length_m1 key_id auth_id,
        crypto.length_encrypted (k_enc auth_key) (replicate 16 0) (m2_plain key counter),
        long,
      ) in
      rw
        (
          uid_of_m1 key_id auth_id,
          m3_for,
          take_all 48 (m1 ++ m2) (omega (arith, size)),
          k_mac,
          take_all 16 auth_key (omega (arith, full)),
          same_bytes_self (crypto.cmac (crypto.kdf (auth_key ++ key_update_mac_c)) (m1 ++ m2)),
        )
        refl

  opened_lem :
      (auth_key key : List ℕ) (counter : ℕ)
      → length auth_key ≡ 16
      → length key ≡ 16
      → counter < 2 ^ 28
      → opened crypto auth_key (m2_for auth_key key counter) ≡ m2_plain key counter
  opened_lem auth_key key counter full full' small =
      let (_, _, long) = plain_lem key counter full' small in
      rw (m2_for, k_enc, take_all 16 auth_key (omega (arith, full)))
        (crypto.decrypt_encrypted (crypto.kdf (auth_key ++ key_update_enc_c)) (replicate 16 0)
          (m2_plain key counter) (rw (long) refl) refl)

  -- The module accepts the messages for a key exactly if the counter is larger than the stored one.
  pub messages-accepted :
      (auth_key key : List ℕ) (key_id auth_id counter : ℕ) (slots : Slots)
      → (slots auth_id).key ≡ auth_key
      → length auth_key ≡ 16
      → length key ≡ 16
      → key_id < 16
      → auth_id < 16
      → counter < 2 ^ 28
      → let m1 = compute_m1 wildcard key_id auth_id in
        let m2 = m2_for auth_key key counter in
        updated crypto m1 m2 (m3_for auth_key m1 m2) slots ≡ accepted key_id key counter slots
  messages-accepted auth_key key key_id auth_id counter slots mine full full' small small' low =
      let (id, auth) = ids_of_m1 key_id auth_id small small' in
      let (same, rest, _) = plain_lem key counter full' low in
      rw
        (
          id,
          auth,
          mine,
          genuine_lem auth_key key key_id auth_id counter full full' low,
          opened_lem auth_key key counter full full' low,
          same,
          rest,
        )
        refl

  -- Messages with the MAC of another key are refused.
  pub messages-refused :
      (master_key auth_key key : List ℕ) (key_id auth_id counter : ℕ) (slots : Slots)
      → (slots auth_id).key ≡ master_key
      → key_id < 16
      → auth_id < 16
      → let m1 = compute_m1 wildcard key_id auth_id in
        let m2 = m2_for auth_key key counter in
        m3_for auth_key m1 m2 ≢ crypto.cmac (crypto.kdf (master_key ++ key_update_mac_c)) (m1 ++ m2)
        → updated crypto m1 m2 (m3_for auth_key m1 m2) slots ≡ none
  messages-refused master_key auth_key key key_id auth_id counter slots mine small small' differ =
      let (id, auth) = ids_of_m1 key_id auth_id small small' in
      rw (id, auth, mine, uid_of_m1 key_id auth_id, not_same _ _ differ) refl
