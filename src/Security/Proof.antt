-- ===== src/Security/Proof.antt =====
-- What HSM_ComputeM4M5 computes, as one reads it who has the new key.
use xcan_router.Prelude.{
  [], ◌∷◌, ◌+◌, ◌*◌, ◌∙◌, ℕ, ◌%◌, ◌^◌, ◌<◌, ◌≡◌, refl, sym, ap, List, ◌++◌, arith, length, take,
  drop, length-append, take_all, take-append, drop-append,
}
use xcan_router.Security.Driver.{She, value}
use xcan_router.Security.Messages.{
  key_update_enc_c, key_update_mac_c, counter_bytes, compute_m1, ids_byte, m4_star_plain,
  compute_m4m5,
}
use xcan_router.Security.Spec.{Crypto, Works, byte_at, counter_of}
use xcan_router.Security.Sent.{derived, compute_m4m5_lem}

block_lem :
    (counter : ℕ)
    → counter < 2 ^ 28
    → (counter_of (m4_star_plain counter) ≡ counter)
      × (byte_at 3 (m4_star_plain counter) % 16 ≡ 8)
      × (length (m4_star_plain counter) ≡ 16)
unfolding m4_star_plain counter_bytes
block_lem counter small = (omega arith, omega arith, refl)

module _ (crypto : Crypto) where
  -- M4 and M5 as the specification describes them, for one who knows the key: M4 begins with
  -- the identifier of the module and of the two keys, what follows decrypts to the counter and the bit 0x8, and M5 is the MAC of M4.
  abbrev pub IsProof : List ℕ → ℕ → ℕ → List ℕ → ℕ → List ℕ → List ℕ → Type 0
  IsProof uid auth_id key_id key counter m4 m5 =
      let block = crypto.decrypt_ecb (crypto.kdf (key ++ key_update_enc_c)) (drop 16 m4) in
      (take 16 m4 ≡ uid ++ (key_id % 16 * 16 + auth_id % 16) ∷ [])
      × (counter_of block ≡ counter)
      × (byte_at 3 block % 16 ≡ 8)
      × (m5 ≡ crypto.cmac (crypto.kdf (key ++ key_update_mac_c)) m4)

module _ (she : She) (crypto : Crypto) (works : Works she crypto) where
  m1_lem :
      (uid : List ℕ) (key_id auth_id : ℕ)
      → length uid ≡ 15
      → compute_m1 uid key_id auth_id ≡ uid ++ (key_id % 16 * 16 + auth_id % 16) ∷ []
  unfolding compute_m1 ids_byte
  m1_lem uid key_id auth_id long =
      ap (λ (l : List ℕ). l ++ (key_id % 16 * 16 + auth_id % 16) ∷ [])
        (take_all 15 uid (omega (arith, long)))

  -- With a module that works, for an identifier of the module of 15 bytes, a key of 16 bytes and a
  -- counter of 28 bits, HSM_ComputeM4M5 succeeds with the messages that prove the change of the
  -- key: M4 begins with the identifier of the module and a byte with those of the two keys, the
  -- rest of M4 decrypts to the counter and the bit 0x8, and M5 is the MAC of M4. No key changes.
  pub compute_m4m5-proves :
      (uid : List ℕ) (auth_id key_id : ℕ) (key : List ℕ) (counter : ℕ) (h : she.Hw)
      → length uid ≡ 15
      → length key ≡ 16
      → counter < 2 ^ 28
      → (m4 : List ℕ) × (m5 : List ℕ) × (h' : she.Hw) × (compute_m4m5 she auth_id key_id key counter
            uid h
          ≡ (value (m4, m5), h'))
        × IsProof crypto uid auth_id key_id key counter m4 m5
        × (works.slots h' ≡ works.slots h)
  compute_m4m5-proves uid auth_id key_id key counter h known full small =
      let m1 = compute_m1 uid key_id auth_id in
      let begins = m1_lem uid key_id auth_id known in
      let k3 = derived she crypto works key key_update_enc_c in
      let star = crypto.ecb k3 (m4_star_plain counter) in
      let (h', eq, same) = compute_m4m5_lem she crypto works auth_id key_id key counter uid h in
      let (counts, flag, size) = block_lem counter small in
      let head : length m1 ≡ 16 =
        ap (λ (l : List ℕ). length l) begins
        ∙ omega (arith, known, length-append uid ((key_id % 16 * 16 + auth_id % 16) ∷ [])) in
      let whole : take 16 key ≡ key = take_all 16 key (omega (arith, full)) in
      let total : length (m1 ++ star) ≡ 32 = omega (
        arith,
        length-append m1 star,
        head,
        crypto.length_block k3 (m4_star_plain counter),
        size,
      ) in
      let back : crypto.decrypt_ecb k3 (drop 16 (m1 ++ star)) ≡ m4_star_plain counter =
        rw (drop-append 16 0 m1 star (omega (arith, head)))
          (crypto.decrypt_block k3 (m4_star_plain counter) size) in
      let k3' : crypto.kdf (key ++ key_update_enc_c) ≡ k3 =
        ap (λ k. crypto.kdf (k ++ key_update_enc_c)) (sym whole) in
      let k4' : derived she crypto works key key_update_mac_c
          ≡ crypto.kdf (key ++ key_update_mac_c) =
        ap (λ k. crypto.kdf (k ++ key_update_mac_c)) whole in
      (
        m1 ++ star,
        crypto.cmac (derived she crypto works key key_update_mac_c) (take 32 (m1 ++ star)),
        h',
        eq,
        (
          take-append 16 m1 star head ∙ begins,
          rw (k3', back) counts,
          rw (k3', back) flag,
          rw (take_all 32 (m1 ++ star) (omega (arith, total)), k4') refl,
        ),
        same,
      )
