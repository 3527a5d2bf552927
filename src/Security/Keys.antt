-- ===== src/Security/Keys.antt =====
-- The keys that the security module has after HSM_LoadKey and HSM_SetAuthKey.
use xcan_router.Prelude.{
  ℕ, ◌%◌, ◌^◌, ◌<◌, ◌≡◌, refl, sym, subst, ◌≢◌, inl, inr, Bool, true, false, Option, none, some,
  List, ◌++◌, arith, ltb, if◌then◌else◌, Bool-cases, ==_ne, length,
}
use xcan_router.Security.Driver.{She, checked_void, after, succeeded}
use xcan_router.Security.Messages.{key_update_mac_c, compute_m1, compute_m1m2m3}
use xcan_router.Security.Module.{empty_key, auth_id_key, set_auth_key, load_key}
use xcan_router.Security.Spec.{Crypto, Slots, Works, stored, updated}
use xcan_router.Security.Sent.{status_self, compute_m1m2m3_lem}
use xcan_router.Security.Accept.{
  wildcard, m2_for, m3_for, accepted, raised, messages-accepted, messages-refused,
}

module _ (she : She) (crypto : Crypto) (works : Works she crypto) where
  -- SECURITY_LoadKey with its status tested, on messages that change the keys to `t` or nothing.
  abbrev OutcomeIs : Option Slots → Slots → Bool × she.Hw → Type 0
  OutcomeIs none t (ok, h) = (ok ≡ false) × (works.slots h ≡ t)
  OutcomeIs (some u) t (ok, h) = (ok ≡ true) × (works.slots h ≡ u)

  loaded_lem :
      (id : ℕ) (m1 m2 m3 : List ℕ) (h : she.Hw) (o : Option Slots)
      → updated crypto m1 m2 m3 (works.slots h) ≡ o
      → OutcomeIs o (works.slots h) (succeeded (checked_void she (she.load_key id m1 m2 m3) h))
  loaded_lem id m1 m2 m3 h none eq =
      let (stat, h', ne, call, same) = works.load_key_refuses id m1 m2 m3 h eq in
      rw (call, ==_ne stat she.status_success ne) (refl, same)
  loaded_lem id m1 m2 m3 h (some t) eq =
      let (h', call, same) = works.load_key_accepts id m1 m2 m3 h t eq in
      rw (call, status_self she) (refl, same)

  -- The messages for a key, sent under `auth_key`.
  sent_lem :
      (auth_key key : List ℕ) (auth_id key_id counter : ℕ) (h : she.Hw) (o : Option Slots)
      → let m1 = compute_m1 wildcard key_id auth_id in
        let m2 = m2_for crypto auth_key key counter in
        updated crypto m1 m2 (m3_for crypto auth_key m1 m2) (works.slots h) ≡ o
        → OutcomeIs o (works.slots h) (
            succeeded (
              after
                (compute_m1m2m3 she auth_key auth_id key_id key counter wildcard h)
                λ (m1, m2, m3). checked_void she (she.load_key key_id m1 m2 m3)))
  sent_lem auth_key key auth_id key_id counter h o eq =
      let m1 = compute_m1 wildcard key_id auth_id in
      let m2 = m2_for crypto auth_key key counter in
      let (h', call, same) =
        compute_m1m2m3_lem she crypto works auth_key auth_id key_id key counter wildcard h in
      rw (call) (
        subst
          (λ t. OutcomeIs o t (
            succeeded
              (checked_void she (she.load_key key_id m1 m2 (m3_for crypto auth_key m1 m2)) h')))
          same
          (loaded_lem key_id m1 m2 (m3_for crypto auth_key m1 m2) h' o
            (subst (λ t. updated crypto m1 m2 (m3_for crypto auth_key m1 m2) t ≡ o) (sym same) eq)))

  raised_lem :
      (key_id : ℕ) (key : List ℕ) (counter : ℕ) (slots : Slots) (o : Bool × she.Hw)
      → OutcomeIs (accepted crypto key_id key counter slots) slots o
      → (o.0 ≡ ltb (slots key_id).counter counter)
        × (works.slots o.1 ≡ raised crypto key_id key counter slots)
  raised_lem key_id key counter slots o end =
      elim (Bool-cases (ltb (slots key_id).counter counter)) [
        | inl larger ↦ rw (larger) (
            subst
              (λ b.
                OutcomeIs
                  (if b
                    then some (stored key_id (record { key = key; counter = counter }) slots)
                    else none)
                  slots o)
              larger end)
        | inr not_larger ↦ rw (not_larger) (
            subst
              (λ b.
                OutcomeIs
                  (if b
                    then some (stored key_id (record { key = key; counter = counter }) slots)
                    else none)
                  slots o)
              not_larger end)
      ]

  -- With a module that works and has g_authIdKey as its master key: HSM_LoadKey succeeds exactly if
  -- the counter is larger than the stored one, and then the module has the new key with that
  -- counter. Otherwise no key changes. The key has 16 bytes, the counter is a uint8_t, and the
  -- identifiers have 4 bits.
  pub load_key-raises :
      (key_id : ℕ) (key : List ℕ) (counter : ℕ) (h : she.Hw)
      → (works.slots h she.master_ecu).key ≡ auth_id_key
      → length key ≡ 16
      → key_id < 16
      → she.master_ecu < 16
      → counter < 2 ^ 8
      → let (ok, h') = load_key she key_id key counter h in
        (ok ≡ ltb (works.slots h key_id).counter counter)
        × (works.slots h' ≡ raised crypto key_id key counter (works.slots h))
  unfolding load_key
  load_key-raises key_id key counter h mine full small small' low =
      let byte : counter % 2 ^ 8 ≡ counter = omega arith in
      rw (byte) (
        raised_lem key_id key counter (works.slots h) _ (
          sent_lem auth_id_key key she.master_ecu key_id counter h _ (
            messages-accepted crypto auth_id_key key key_id she.master_ecu counter (works.slots h)
              mine refl full small small' (omega arith))))

  -- With a module that works and has g_emptyKey as its master key: HSM_SetAuthKey succeeds exactly
  -- if the stored counter is 0, and then the master key is g_authIdKey. Otherwise no key changes.
  pub set_auth_key-first :
      (h : she.Hw)
      → (works.slots h she.master_ecu).key ≡ empty_key
      → she.master_ecu < 16
      → let (ok, h') = set_auth_key she h in
        (ok ≡ ltb (works.slots h she.master_ecu).counter 1)
        × (works.slots h' ≡ raised crypto she.master_ecu auth_id_key 1 (works.slots h))
  unfolding set_auth_key
  set_auth_key-first h mine small = raised_lem she.master_ecu auth_id_key 1 (works.slots h) _ (
      sent_lem empty_key auth_id_key she.master_ecu she.master_ecu 1 h _ (
        messages-accepted crypto empty_key auth_id_key she.master_ecu she.master_ecu 1
          (works.slots h) mine refl refl small small (omega arith)))

  -- Under another master key, whose MAC of the messages is another one, it changes nothing.
  pub set_auth_key_again :
      (h : she.Hw)
      → (works.slots h she.master_ecu).key ≡ auth_id_key
      → she.master_ecu < 16
      → let m1 = compute_m1 wildcard she.master_ecu she.master_ecu in
        let m2 = m2_for crypto empty_key auth_id_key 1 in
        m3_for crypto empty_key m1 m2
          ≢ crypto.cmac (crypto.kdf (auth_id_key ++ key_update_mac_c)) (m1 ++ m2)
        → ((set_auth_key she h).0 ≡ false) × (works.slots (set_auth_key she h).1 ≡ works.slots h)
  unfolding set_auth_key
  set_auth_key_again h mine small differ =
      sent_lem empty_key auth_id_key she.master_ecu she.master_ecu 1 h none (
        messages-refused crypto auth_id_key empty_key auth_id_key she.master_ecu she.master_ecu 1
          (works.slots h) mine small small differ)
