-- ===== src/Security/Erase.antt =====
-- HSM_GetUID and HSM_EraseKeys with a module that works.
use xcan_router.Prelude.{
  ℕ, ◌≡◌, refl, sym, ap, ◌∙◌, inl, inr, Bool, true, List, ◌++◌, arith, ◌==◌, Bool-cases, length,
  take, length-append, take_all,
}
use xcan_router.Security.Driver.{She, answer}
use xcan_router.Security.Messages.{key_debug_key_c}
use xcan_router.Security.Module.{
  auth_id_key, upto_15, verify_id, verdict, get_uid, erase_keys, id_message, debug_message,
}
use xcan_router.Security.Spec.{Crypto, Slots, Works, Debuggable}
use xcan_router.Security.Sent.{
  derived, status_self, given, given_void, derive_key_lem, plain_key_lem, mac_lem,
}

module _ (she : She) (crypto : Crypto) (works : Works she crypto)
    (debug : Debuggable she crypto works) where
  verdict_keeps :
      (t : Slots) (o : ℕ × Bool × she.Hw)
      → works.slots o.2 ≡ t
      → works.slots (verdict she (answer she o.0 o.1 o.2)).1 ≡ t
  verdict_keeps t (stat, b, h) same = elim (Bool-cases (stat == she.status_success)) [
    | inl e ↦ rw (e) same
    | inr e ↦ rw (e) same
  ]

  get_uid_lem :
      (h : she.Hw)
      → (ok : Bool) × (h' : she.Hw) × (get_uid she h ≡ (ok, debug.uid, h'))
        × (works.slots h' ≡ works.slots h)
  unfolding get_uid verify_id
  get_uid_lem h =
      let (sreg, mac, h1, q1, e1) = debug.id_works upto_15 h in
      given_void she (plain_key_lem she crypto works (works.slots h) auth_id_key h1 e1) λ h2 q2 e2.
        let (_, e3) = e2 in
        let o = she.verify_mac (id_message she debug.uid sreg) 256 mac 128 h2 in
        let v = verdict she (answer she o.0 o.1 o.2) in
        (
          v.0,
          v.1,
          rw (q1, status_self she, q2, status_self she) refl,
          verdict_keeps (works.slots h) o
              (debug.verify_keeps (id_message she debug.uid sreg) mac 256 128 h2 ∙ e3),
        )

  debug_message_lem :
      (c : List ℕ) → length c ≡ 16 → take 31 (debug_message she c debug.uid) ≡ c ++ debug.uid
  debug_message_lem c full =
      let long : length (c ++ debug.uid) ≡ 31 =
        omega (arith, length-append c debug.uid, full, debug.length_uid) in
      rw
        (
          take_all 16 c (omega (arith, full)),
          take_all 15 debug.uid (omega (arith, debug.length_uid)),
          take_all 31 (c ++ debug.uid) (omega (arith, long)),
        )
        refl

  -- With a module that works and has g_authIdKey as its master key, HSM_EraseKeys answers the
  -- challenge of the module for debugging, succeeds, and all keys are erased, whatever the check of
  -- the UID in HSM_GetUID comes to.
  pub erase_keys-erases :
      (h : she.Hw)
      → (works.slots h she.master_ecu).key ≡ auth_id_key
      → ((erase_keys she h).0 ≡ true) × (works.slots (erase_keys she h).1 ≡ debug.erased)
  unfolding erase_keys
  erase_keys-erases h mine =
      let t = works.slots h in
      let h1 = (she.init_rng h).1 in
      let (ok, h2, q2, e2) = get_uid_lem h1 in
      let k = derived she crypto works auth_id_key key_debug_key_c in
      given she
        (derive_key_lem she crypto works t auth_id_key key_debug_key_c h2 (e2 ∙ debug.rng_works h))
        λ h3 q3 e3. given_void she (plain_key_lem she crypto works t k h3 e3) λ h4 q4 e4.
          let (c, h5, q5, full, asked, ram, e5) = debug.challenge_works h4 in
          given she
            (mac_lem she crypto works t k (debug_message she c debug.uid) 248 h5
              (ram ∙ e4.0, e5 ∙ e4.1))
            λ h6 q6 e6.
              let still : debug.pending h6 ≡ c =
                ap (λ o. debug.pending o.2) (sym q6)
                ∙ debug.mac_keeps (debug_message she c debug.uid) 248 h5
                ∙ asked in
              let auth = crypto.cmac k (take 31 (debug_message she c debug.uid)) in
              let due : auth
                  ≡ crypto.cmac
                      (crypto.kdf ((works.slots h6 she.master_ecu).key ++ key_debug_key_c))
                      (debug.pending h6 ++ debug.uid) =
                rw (still, e6, mine, debug_message_lem c full) refl in
              given_void she (debug.auth_works auth h6 due) λ h7 q7 e7.
                rw
                  (
                    q2,
                    q3,
                    q4,
                    status_self she,
                    q5,
                    status_self she,
                    q6,
                    status_self she,
                    q7,
                    status_self she,
                  )
                  (refl, e7)
