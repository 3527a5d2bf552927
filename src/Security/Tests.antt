-- ===== src/Security/Tests.antt =====
-- A security module whose encryption is the identity and whose MAC is the key and the message.
use xcan_router.Prelude.{
  ℕ, ◌/◌, ◌≡◌, refl, ap, ◌≢◌, true, false, none, some, List, [], ◌∷◌, ◌++◌, arith, ltb,
  if◌then◌else◌, take, replicate,
}
use xcan_router.Security.Driver.{She, value}
use xcan_router.Security.Messages.{key_debug_key_c, compute_m4m5}
use xcan_router.Security.Module.{
  empty_key, upto_15, key_1_value, set_auth_key, load_key, get_uid, erase_keys, initialise,
}
use xcan_router.Security.Spec.{
  Crypto, Slots, Works, Debuggable, byte_at, same_bytes, same_bytes_self, updated,
}
use xcan_router.Security.Accept.{raised}
use xcan_router.Security.Keys.{load_key-raises}
use xcan_router.Security.Start.{Ids, provisioned, initialise-provisions, initialise-keeps}
use xcan_router.Security.Erase.{erase_keys-erases}
use xcan_router.Security.Proof.{IsProof, compute_m4m5-proves}
use xcan_router.Security.Refused.{Closed, Fails, no_ram_key-stops}

abbrev plain_crypto : Crypto
plain_crypto = record {
  kdf = λ x. x;
  cbc = λ k iv p. p;
  decrypt_cbc = λ k iv p. p;
  decrypt_encrypted = λ k iv p _ _. refl;
  length_encrypted = λ k iv p. refl;
  ecb = λ k p. p;
  decrypt_ecb = λ k p. p;
  length_block = λ k p. refl;
  decrypt_block = λ k p _. refl;
  cmac = λ k m. k ++ m;
}

record Chip : Type 0 where
  ram_key : List ℕ
  table : Slots
  pending : List ℕ

abbrev chip_uid : List ℕ
chip_uid = replicate 15 7

abbrev no_keys : Slots
no_keys i = record { key = empty_key; counter = 0 }

abbrev chip_load : List ℕ → List ℕ → List ℕ → Chip → ℕ × Chip
chip_load m1 m2 m3 h = elim (updated plain_crypto m1 m2 m3 h.table) [
  | none ↦ (1, h)
  | some t ↦ (0, record h { table = t })
]

abbrev chip_auth : List ℕ → Chip → ℕ × Chip
chip_auth auth h =
    if same_bytes auth ((h.table 1).key ++ key_debug_key_c ++ (h.pending ++ chip_uid))
    then (0, record h { table = no_keys })
    else (1, h)

abbrev chip : She
chip = record {
  Hw = Chip;
  status_success = 0;
  master_ecu = 1;
  boot_mac_key = 2;
  key_1 = 4;
  init = λ h. (0, h);
  init_rng = λ h. (0, h);
  compress = λ x h. (0, x, h);
  load_plain_key = λ k h. (0, record h { ram_key = k });
  encrypt_cbc = λ p iv h. (0, p, h);
  encrypt_ecb = λ p h. (0, p, h);
  generate_mac = λ m bits h. (0, h.ram_key ++ take (bits / 8) m, h);
  verify_mac = λ m n mac k h. (0, same_bytes mac (h.ram_key ++ take (n / 8) m), h);
  load_key = λ id. chip_load;
  get_id = λ c h. (0, (chip_uid, 0, (h.table 1).key ++ c ++ chip_uid ++ 0 ∷ []), h);
  debug_challenge = λ h. (0, upto_15, record h { pending = upto_15 });
  debug_auth = chip_auth;
}

chip_load-some :
    (m1 m2 m3 : List ℕ) (h : Chip) (t : Slots)
    → updated plain_crypto m1 m2 m3 h.table ≡ some t
    → chip_load m1 m2 m3 h ≡ (0, record h { table = t })
chip_load-some m1 m2 m3 h t eq = rw (chip_load, eq) refl

chip_load-none :
    (m1 m2 m3 : List ℕ) (h : Chip)
    → updated plain_crypto m1 m2 m3 h.table ≡ none
    → chip_load m1 m2 m3 h ≡ (1, h)
chip_load-none m1 m2 m3 h eq = rw (chip_load, eq) refl

chip_auth_lem :
    (auth : List ℕ) (h : Chip)
    → auth ≡ (h.table 1).key ++ key_debug_key_c ++ (h.pending ++ chip_uid)
    → chip_auth auth h ≡ (0, record h { table = no_keys })
chip_auth_lem auth h eq =
    rw
      (
        chip_auth,
        eq,
        same_bytes_self ((h.table 1).key ++ key_debug_key_c ++ (h.pending ++ chip_uid)),
      )
      refl

abbrev chip_works : Works chip plain_crypto
chip_works = record {
  ram = λ h. h.ram_key;
  slots = λ h. h.table;
  init_works = λ h. refl;
  compress_works = λ x h. (h, refl, refl);
  plain_key_works = λ k h. (record h { ram_key = k }, refl, refl, refl);
  cbc_works = λ p iv h. (h, refl, refl);
  ecb_works = λ p h. (h, refl, refl);
  mac_works = λ m bits h. (h, refl, refl);
  load_key_accepts =
      λ id m1 m2 m3 h t eq. (record h { table = t }, chip_load-some m1 m2 m3 h t eq, refl);
  load_key_refuses =
      λ id m1 m2 m3 h eq. (1, h, (λ e. absurd (omega arith)), chip_load-none m1 m2 m3 h eq, refl);
}

abbrev chip_debug : Debuggable chip plain_crypto chip_works
chip_debug = record {
  uid = chip_uid;
  length_uid = refl;
  pending = λ h. h.pending;
  erased = no_keys;
  rng_works = λ h. refl;
  id_works = λ c h. (0, (h.table 1).key ++ c ++ chip_uid ++ 0 ∷ [], h, refl, refl);
  verify_keeps = λ m mac n k h. refl;
  challenge_works = λ h. (upto_15, record h { pending = upto_15 }, refl, refl, refl, refl, refl);
  mac_keeps = λ m bits h. refl;
  auth_works = λ auth h eq. (record h { table = no_keys }, chip_auth_lem auth h eq, refl);
}

chip_ids : Ids chip
chip_ids = (
  omega arith,
  omega arith,
  omega arith,
  (λ e. absurd (omega arith)),
  (λ e. absurd (omega arith)),
  (λ e. absurd (omega arith)),
)

abbrev new_chip : Chip
new_chip = record { ram_key = []; table = no_keys; pending = [] }

-- After the first start.
abbrev used_chip : Chip
used_chip = record { ram_key = []; table = provisioned chip no_keys; pending = [] }

load_key-raises_example :
    ((load_key chip 4 key_1_value 5 used_chip).0 ≡ ltb (used_chip.table 4).counter 5)
    × ((load_key chip 4 key_1_value 5 used_chip).1.table
        ≡ raised plain_crypto 4 key_1_value 5 used_chip.table)
load_key-raises_example =
    load_key-raises chip plain_crypto chip_works 4 key_1_value 5 used_chip refl refl (omega arith)
      (omega arith) (omega arith)

initialise-provisions_example : (initialise chip new_chip).table ≡ provisioned chip no_keys
initialise-provisions_example =
    initialise-provisions chip plain_crypto chip_works new_chip chip_ids refl refl refl

zero_is_not_one : ◌≢◌ {A = ℕ} 0 1
zero_is_not_one e = absurd (omega arith)

initialise-keeps_example : (initialise chip used_chip).table ≡ used_chip.table
initialise-keeps_example =
    initialise-keeps chip plain_crypto chip_works used_chip chip_ids refl (omega arith)
      (omega arith) (λ e. zero_is_not_one (ap (λ xs. byte_at 1 xs) e))

erase_keys-erases_example :
    ((erase_keys chip used_chip).0 ≡ true) × ((erase_keys chip used_chip).1.table ≡ no_keys)
erase_keys-erases_example = erase_keys-erases chip plain_crypto chip_works chip_debug used_chip refl

abbrev serial_number : List ℕ
serial_number = 1 ∷ 2 ∷ 3 ∷ replicate 12 9

compute_m4m5-proves_example :
    (m4 : List ℕ) × (m5 : List ℕ) × (h' : Chip) × (compute_m4m5 chip 1 4 key_1_value 3 serial_number
        used_chip
      ≡ (value (m4, m5), h'))
    × IsProof plain_crypto serial_number 1 4 key_1_value 3 m4 m5
    × (h'.table ≡ used_chip.table)
compute_m4m5-proves_example =
    compute_m4m5-proves chip plain_crypto chip_works serial_number 1 4 key_1_value 3 used_chip refl
      refl (omega arith)

-- A module that takes no RAM key.
abbrev shut_chip : She
shut_chip = record chip { load_plain_key = λ k h. (2, h) }

abbrev WithoutKeys : Chip → Type 0
WithoutKeys h = h.table ≡ no_keys

shut_closed : Closed shut_chip WithoutKeys
shut_closed = record {
  rng_keeps = λ h p. p;
  compress_keeps = λ x h p. p;
  id_keeps = λ x h p. p;
  plain_key_keeps = λ k h p. p;
  plain_key_refused = λ k h e. absurd (omega arith);
}

no_ram_key-stops_example :
    Fails WithoutKeys (set_auth_key shut_chip new_chip)
    × Fails WithoutKeys (load_key shut_chip 4 key_1_value 3 new_chip)
    × ((get_uid shut_chip new_chip).0 ≡ false)
    × WithoutKeys (get_uid shut_chip new_chip).2
    × Fails WithoutKeys (erase_keys shut_chip new_chip)
no_ram_key-stops_example =
    no_ram_key-stops shut_chip WithoutKeys shut_closed 4 key_1_value 3 new_chip refl
