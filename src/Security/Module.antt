-- ===== src/Security/Module.antt =====
-- HSM_initialise, HSM_SetAuthKey, HSM_GetUID, HSM_EraseKeys and HSM_LoadKey.
use xcan_router.Prelude.{ℕ, ◌%◌, ◌^◌, Bool, false, List, [], ◌∷◌, ◌++◌, take, replicate}
use xcan_router.Security.Driver.{
  She, Outcome, value, failed, Job, checked, checked_void, unchecked, unchecked_void, ◌>>=◌, ◌>>◌,
  after, answer, succeeded,
}
use xcan_router.Security.Messages.{key_debug_key_c, derive_key, compute_m1m2m3}

-- `g_emptyKey`
abbrev pub empty_key : List ℕ
empty_key = replicate 16 0

abbrev pub upto_15 : List ℕ
upto_15 = 0 ∷ 1 ∷ 2 ∷ 3 ∷ 4 ∷ 5 ∷ 6 ∷ 7 ∷ 8 ∷ 9 ∷ 10 ∷ 11 ∷ 12 ∷ 13 ∷ 14 ∷ 15 ∷ []

-- `g_authIdKey`
abbrev pub auth_id_key : List ℕ
auth_id_key = upto_15

-- BOOT_MAC_KEY_VALUE, which KEY_1_VALUE equals.
abbrev pub boot_mac_key_value : List ℕ
boot_mac_key_value =
    0x6B ∷ 0x65 ∷ 0x79 ∷ 0x30 ∷ 0x6B ∷ 0x65 ∷ 0x79 ∷ 0x31 ∷ 0x6B ∷ 0x65 ∷ 0x79 ∷ 0x32 ∷ 0x6B ∷ 0x65
    ∷ 0x79 ∷ 0x33 ∷ []

abbrev pub key_1_value : List ℕ
key_1_value =
    0x6B ∷ 0x65 ∷ 0x79 ∷ 0x30 ∷ 0x6B ∷ 0x65 ∷ 0x79 ∷ 0x31 ∷ 0x6B ∷ 0x65 ∷ 0x79 ∷ 0x32 ∷ 0x6B ∷ 0x65
    ∷ 0x79 ∷ 0x33 ∷ []

module _ (she : She) where
  -- `g_authId` is SECURITY_MASTER_ECU.
  unfoldable pub set_auth_key : she.Hw → Bool × she.Hw
  set_auth_key h = succeeded (
      (compute_m1m2m3 she empty_key she.master_ecu she.master_ecu auth_id_key 1 (replicate 15 0)
          >>= λ (m1, m2, m3). checked_void she (she.load_key she.master_ecu m1 m2 m3))
        h)

  -- `counter` is a uint8_t.
  unfoldable pub load_key : ℕ → List ℕ → ℕ → she.Hw → Bool × she.Hw
  load_key key_id key_new counter h = succeeded (
      (compute_m1m2m3 she auth_id_key she.master_ecu key_id key_new (counter % 2 ^ 8)
            (replicate 15 0)
          >>= λ (m1, m2, m3). checked_void she (she.load_key key_id m1 m2 m3))
        h)

  -- The messages that HSM_GetUID and HSM_EraseKeys authenticate.
  abbrev pub id_message : List ℕ → ℕ → List ℕ
  id_message uid sreg = take 16 upto_15 ++ take 15 uid ++ sreg ∷ []

  abbrev pub debug_message : List ℕ → List ℕ → List ℕ
  debug_message challenge uid = take 16 challenge ++ take 15 uid

  -- SECURITY_GetId and what follows it.
  unfoldable pub verify_id : List ℕ × ℕ × List ℕ → Job she Bool
  verify_id (uid, sreg, mac) = do
    checked_void she (she.load_plain_key auth_id_key)
    checked she (she.verify_mac (id_message uid sreg) 256 mac 128)

  abbrev pub verdict : Outcome Bool × she.Hw → Bool × she.Hw
  verdict (value b, h) = (b, h)
  verdict (failed stat, h) = (false, h)

  -- The result, with the UID that the caller's buffer has afterwards.
  unfoldable pub get_uid : she.Hw → Bool × List ℕ × she.Hw
  get_uid h =
      let (stat, id, h') = she.get_id upto_15 h in
      let (ok, h'') = verdict (after (answer she stat id h') verify_id) in (ok, id.0, h'')

  -- The result of HSM_GetUID is not looked at.
  abbrev uid_of : Job she (List ℕ)
  uid_of h = let (ok, uid, h') = get_uid h in (value uid, h')

  unfoldable pub erase_keys : she.Hw → Bool × she.Hw
  erase_keys h = succeeded (
      (do
        unchecked_void she she.init_rng
        uid ← uid_of
        k ← unchecked she (derive_key she auth_id_key key_debug_key_c)
        checked_void she (she.load_plain_key k)
        challenge ← checked she she.debug_challenge
        auth ← checked she (she.generate_mac (debug_message challenge uid) 248)
        checked_void she (she.debug_auth auth))
        h)

  -- The results of the three functions are not looked at.
  unfoldable pub initialise : she.Hw → she.Hw
  initialise h =
      let h1 = (she.init h).1 in
      let h2 = (set_auth_key h1).1 in
      let h3 = (load_key she.key_1 key_1_value 3 h2).1 in
      (load_key she.boot_mac_key boot_mac_key_value 2 h3).1
