-- ===== src/Security/Messages.antt =====
-- The messages of the SHE specification: HSM_DeriveKey, HSM_ComputeM1M2M3 and HSM_ComputeM4M5.
use xcan_router.Prelude.{ℕ, ◌+◌, ◌*◌, ◌/◌, ◌%◌, ◌^◌, List, [], ◌∷◌, ◌++◌, take, replicate}
use xcan_router.Security.Driver.{She, Job, checked, checked_void, unchecked, ◌>>=◌, ◌>>◌, pure}

-- `key_update_enc_c`, `key_update_mac_c` and `key_debug_key_c` have the same 14 bytes at the end.
abbrev constant_tail : List ℕ
constant_tail =
    0x53 ∷ 0x48 ∷ 0x45 ∷ 0x00 ∷ 0x80 ∷ 0x00 ∷ 0x00 ∷ 0x00 ∷ 0x00 ∷ 0x00 ∷ 0x00 ∷ 0x00 ∷ 0x00 ∷ 0xb0
    ∷ []

abbrev pub key_update_enc_c : List ℕ
key_update_enc_c = 0x01 ∷ 0x01 ∷ constant_tail

abbrev pub key_update_mac_c : List ℕ
key_update_mac_c = 0x01 ∷ 0x02 ∷ constant_tail

abbrev pub key_debug_key_c : List ℕ
key_debug_key_c = 0x01 ∷ 0x03 ∷ constant_tail

-- The last byte of M1 and of the head of M4: 4 bits of each identifier.
unfoldable pub ids_byte : ℕ → ℕ → ℕ
ids_byte key_id auth_id = key_id % 16 * 16 + auth_id % 16

-- The 28 bits of the counter, and 4 more bits that `low` has: the flags, or the 0x8 of M4.
unfoldable pub counter_bytes : ℕ → ℕ → List ℕ
counter_bytes counter low =
    counter / 2 ^ 20 % 2 ^ 8
    ∷ counter / 2 ^ 12 % 2 ^ 8
    ∷ counter / 2 ^ 4 % 2 ^ 8
    ∷ (counter % 2 ^ 4 * 2 ^ 4 + low)
    ∷ []

unfoldable pub compute_m1 : List ℕ → ℕ → ℕ → List ℕ
compute_m1 uid key_id auth_id = take 15 uid ++ ids_byte key_id auth_id ∷ []

unfoldable pub m2_plain : List ℕ → ℕ → List ℕ
m2_plain key counter = counter_bytes counter 0 ++ replicate 12 0 ++ take 16 key

unfoldable pub m4_star_plain : ℕ → List ℕ
m4_star_plain counter = counter_bytes counter 8 ++ replicate 12 0

module _ (she : She) where
  unfoldable pub derive_key : List ℕ → List ℕ → she.Hw → ℕ × List ℕ × she.Hw
  derive_key key constant = she.compress (take 16 key ++ take 16 constant)

  -- The buffers m1, m2 and m3. The results of HSM_DeriveKey are not looked at.
  unfoldable pub compute_m1m2m3 :
      List ℕ → ℕ → ℕ → List ℕ → ℕ → List ℕ → Job she (List ℕ × List ℕ × List ℕ)
  compute_m1m2m3 auth_key auth_id key_id key counter uid = do
    k1 ← unchecked she (derive_key auth_key key_update_enc_c)
    k2 ← unchecked she (derive_key auth_key key_update_mac_c)
    let m1 = compute_m1 uid key_id auth_id
    checked_void she (she.load_plain_key k1)
    m2 ← checked she (she.encrypt_cbc (m2_plain key counter) (replicate 16 0))
    checked_void she (she.load_plain_key k2)
    m3 ← checked she (she.generate_mac (m1 ++ m2) 384)
    pure (m1, m2, m3)

  -- The buffers m4 and m5.
  unfoldable pub compute_m4m5 : ℕ → ℕ → List ℕ → ℕ → List ℕ → Job she (List ℕ × List ℕ)
  compute_m4m5 auth_id key_id key counter uid = do
    k3 ← unchecked she (derive_key key key_update_enc_c)
    k4 ← unchecked she (derive_key key key_update_mac_c)
    checked_void she (she.load_plain_key k3)
    m4_star ← checked she (she.encrypt_ecb (m4_star_plain counter))
    let m4 = compute_m1 uid key_id auth_id ++ m4_star
    checked_void she (she.load_plain_key k4)
    m5 ← checked she (she.generate_mac m4 256)
    pure (m4, m5)
