-- ===== src/Security/Refused.antt =====
-- A module that refuses the RAM key.
use xcan_router.Prelude.{
  ℕ, ◌%◌, ◌^◌, ◌≡◌, refl, ◌≢◌, inl, inr, Bool, false, List, ◌==◌, Bool-cases, ==_ne, replicate,
}
use xcan_router.Security.Driver.{She, failed}
use xcan_router.Security.Messages.{
  key_update_enc_c, key_update_mac_c, key_debug_key_c, derive_key, compute_m1m2m3,
}
use xcan_router.Security.Module.{
  empty_key, auth_id_key, upto_15, set_auth_key, load_key, get_uid, erase_keys, verify_id,
}

-- A fact about the module that no call changes, of those before a RAM key is loaded, and a module
-- that does not take one.
pub record Closed (she : She) (P : she.Hw → Type 0) : Type 0 where
  pub rng_keeps : (h : she.Hw) → P h → P (she.init_rng h).1
  pub compress_keeps : (x : List ℕ) (h : she.Hw) → P h → P (she.compress x h).2
  pub id_keeps : (x : List ℕ) (h : she.Hw) → P h → P (she.get_id x h).2
  pub plain_key_keeps : (k : List ℕ) (h : she.Hw) → P h → P (she.load_plain_key k h).1
  pub plain_key_refused :
      (k : List ℕ) (h : she.Hw) → (she.load_plain_key k h).0 ≢ she.status_success

abbrev pub Fails : {H : Type 0} → (H → Type 0) → Bool × H → Type 0
Fails P (ok, h) = (ok ≡ false) × P h

module _ (she : She) (P : she.Hw → Type 0) (closed : Closed she P) where
  refused_lem :
      (k : List ℕ) (h : she.Hw) → ((she.load_plain_key k h).0 == she.status_success) ≡ false
  refused_lem k h =
      ==_ne (she.load_plain_key k h).0 she.status_success (closed.plain_key_refused k h)

  compute_lem :
      (auth_key : List ℕ) (auth_id key_id : ℕ) (key : List ℕ) (counter : ℕ) (uid : List ℕ)
      (h : she.Hw)
      → P h
      → (stat : ℕ) × (h' : she.Hw) × (compute_m1m2m3 she auth_key auth_id key_id key counter uid h
          ≡ (failed stat, h'))
        × P h'
  unfolding compute_m1m2m3 derive_key
  compute_lem auth_key auth_id key_id key counter uid h p =
      let k1 = derive_key she auth_key key_update_enc_c h in
      let k2 = derive_key she auth_key key_update_mac_c k1.2 in
      let o = she.load_plain_key k1.1 k2.2 in
      (
        o.0,
        o.1,
        rw (refused_lem k1.1 k2.2) refl,
        closed.plain_key_keeps k1.1 k2.2
            (closed.compress_keeps _ k1.2 (closed.compress_keeps _ h p)),
      )

  refused_set_auth_key : (h : she.Hw) → P h → Fails P (set_auth_key she h)
  unfolding set_auth_key
  refused_set_auth_key h p =
      let (stat, h', eq, q) =
        compute_lem empty_key she.master_ecu she.master_ecu auth_id_key 1 (replicate 15 0) h p in
      rw (eq) (refl, q)

  refused_load_key :
      (key_id : ℕ) (key : List ℕ) (counter : ℕ) (h : she.Hw)
      → P h
      → Fails P (load_key she key_id key counter h)
  unfolding load_key
  refused_load_key key_id key counter h p =
      let (stat, h', eq, q) =
        compute_lem auth_id_key she.master_ecu key_id key (counter % 2 ^ 8) (replicate 15 0) h p in
      rw (eq) (refl, q)

  refused_get_uid : (h : she.Hw) → P h → ((get_uid she h).0 ≡ false) × P (get_uid she h).2
  unfolding get_uid verify_id
  refused_get_uid h p =
      let o = she.get_id upto_15 h in
      elim (Bool-cases (o.0 == she.status_success)) [
        | inl e ↦
            rw (e, refused_lem auth_id_key o.2)
              (refl, closed.plain_key_keeps auth_id_key o.2 (closed.id_keeps upto_15 h p))
        | inr e ↦ rw (e) (refl, closed.id_keeps upto_15 h p)
      ]

  refused_erase_keys : (h : she.Hw) → P h → Fails P (erase_keys she h)
  unfolding erase_keys derive_key
  refused_erase_keys h p =
      let h1 = (she.init_rng h).1 in
      let h2 = (get_uid she h1).2 in
      let k = derive_key she auth_id_key key_debug_key_c h2 in
      let (_, q) = refused_get_uid h1 (closed.rng_keeps h p) in
      rw (refused_lem k.1 k.2) (refl, closed.plain_key_keeps k.1 k.2 (closed.compress_keeps _ h2 q))

  -- If the module takes no RAM key, HSM_SetAuthKey, HSM_LoadKey, HSM_GetUID and HSM_EraseKeys return
  -- false, and keep all that the calls before it keep: no key is loaded or erased.
  pub no_ram_key-stops :
      (key_id : ℕ) (key : List ℕ) (counter : ℕ) (h : she.Hw)
      → P h
      → Fails P (set_auth_key she h)
        × Fails P (load_key she key_id key counter h)
        × ((get_uid she h).0 ≡ false)
        × P (get_uid she h).2
        × Fails P (erase_keys she h)
  no_ram_key-stops key_id key counter h p =
      let (no_uid, kept) = refused_get_uid h p in
      (
        refused_set_auth_key h p,
        refused_load_key key_id key counter h p,
        no_uid,
        kept,
        refused_erase_keys h p,
      )
