-- ===== src/Security/Sent.antt =====
-- What HSM_ComputeM1M2M3 and HSM_ComputeM4M5 compute with a module that works.
use xcan_router.Prelude.{
  ℕ, ◌/◌, ◌≡◌, refl, subst, ◌∙◌, true, List, ◌++◌, ◌==◌, ==_self, take, replicate,
}
use xcan_router.Security.Driver.{She, value}
use xcan_router.Security.Messages.{
  key_update_enc_c, key_update_mac_c, compute_m1, m2_plain, m4_star_plain, derive_key,
  compute_m1m2m3, compute_m4m5,
}
use xcan_router.Security.Spec.{Crypto, Slots, Works}

module _ (she : She) where
  -- A call that succeeds with the result `a`, after which the state satisfies `P`.
  abbrev pub Gives : {A : Type 0} → (she.Hw → Type 0) → ℕ × A × she.Hw → A → Type 0
  Gives P o a = (h : she.Hw) × (o ≡ (she.status_success, a, h)) × P h

  abbrev pub GivesVoid : (she.Hw → Type 0) → ℕ × she.Hw → Type 0
  GivesVoid P o = (h : she.Hw) × (o ≡ (she.status_success, h)) × P h

  module _ {X : Type 0} {P : she.Hw → Type 0} where
    pub given :
        {A : Type 0} {o : ℕ × A × she.Hw} {a : A}
        → Gives P o a
        → ((h : she.Hw) → o ≡ (she.status_success, a, h) → P h → X)
        → X
    given (h, eq, p) next = next h eq p

    pub given_void :
        {o : ℕ × she.Hw}
        → GivesVoid P o
        → ((h : she.Hw) → o ≡ (she.status_success, h) → P h → X)
        → X
    given_void (h, eq, p) next = next h eq p

  pub status_self : (she.status_success == she.status_success) ≡ true
  status_self = ==_self she.status_success

  module _ (crypto : Crypto) (works : Works she crypto) where
    -- The keys K1 to K4.
    abbrev pub derived : List ℕ → List ℕ → List ℕ
    derived key constant = crypto.kdf (take 16 key ++ take 16 constant)

    abbrev pub the_m2 : List ℕ → List ℕ → ℕ → List ℕ
    the_m2 auth_key key counter =
        crypto.cbc (derived auth_key key_update_enc_c) (replicate 16 0) (m2_plain key counter)

    abbrev pub the_m3 : List ℕ → List ℕ → List ℕ → List ℕ
    the_m3 auth_key m1 m2 = crypto.cmac (derived auth_key key_update_mac_c) (take 48 (m1 ++ m2))

    abbrev pub Keeps : Slots → she.Hw → Type 0
    Keeps t h = works.slots h ≡ t

    abbrev pub Ready : Slots → List ℕ → she.Hw → Type 0
    Ready t k h = (works.ram h ≡ k) × (works.slots h ≡ t)

    module _ (t : Slots) where
      pub derive_key_lem :
          (key constant : List ℕ) (h : she.Hw)
          → Keeps t h
          → Gives (Keeps t) (derive_key she key constant h) (derived key constant)
      unfolding derive_key
      derive_key_lem key constant h same =
          let (h', eq, keeps) = works.compress_works (take 16 key ++ take 16 constant) h in
          (h', eq, keeps ∙ same)

      pub plain_key_lem :
          (k : List ℕ) (h : she.Hw) → Keeps t h → GivesVoid (Ready t k) (she.load_plain_key k h)
      plain_key_lem k h same =
          let (h', eq, ready, keeps) = works.plain_key_works k h in (h', eq, (ready, keeps ∙ same))

      pub cbc_lem :
          (k p iv : List ℕ) (h : she.Hw)
          → Ready t k h
          → Gives (Keeps t) (she.encrypt_cbc p iv h) (crypto.cbc k iv p)
      cbc_lem k p iv h (ready, same) =
          let (h', eq, keeps) = works.cbc_works p iv h in
          let fits : List ℕ → Type 0 =
            λ r. she.encrypt_cbc p iv h ≡ (she.status_success, crypto.cbc r iv p, h') in
          (h', subst fits ready eq, keeps ∙ same)

      pub ecb_lem :
          (k p : List ℕ) (h : she.Hw)
          → Ready t k h
          → Gives (Keeps t) (she.encrypt_ecb p h) (crypto.ecb k p)
      ecb_lem k p h (ready, same) =
          let (h', eq, keeps) = works.ecb_works p h in
          let fits : List ℕ → Type 0 =
            λ r. she.encrypt_ecb p h ≡ (she.status_success, crypto.ecb r p, h') in
          (h', subst fits ready eq, keeps ∙ same)

      pub mac_lem :
          (k m : List ℕ) (bits : ℕ) (h : she.Hw)
          → Ready t k h
          → Gives (Keeps t) (she.generate_mac m bits h) (crypto.cmac k (take (bits / 8) m))
      mac_lem k m bits h (ready, same) =
          let (h', eq, keeps) = works.mac_works m bits h in
          let fits : List ℕ → Type 0 = λ r.
            she.generate_mac m bits h
            ≡ (she.status_success, crypto.cmac r (take (bits / 8) m), h') in
          (h', subst fits ready eq, keeps ∙ same)

    pub compute_m1m2m3_lem :
        (auth_key : List ℕ) (auth_id key_id : ℕ) (key : List ℕ) (counter : ℕ) (uid : List ℕ)
        (h : she.Hw)
        → let m1 = compute_m1 uid key_id auth_id in
          let m2 = the_m2 auth_key key counter in
          (h' : she.Hw) × (compute_m1m2m3 she auth_key auth_id key_id key counter uid h
            ≡ (value (m1, m2, the_m3 auth_key m1 m2), h'))
          × Keeps (works.slots h) h'
    unfolding compute_m1m2m3
    compute_m1m2m3_lem auth_key auth_id key_id key counter uid h =
        let t = works.slots h in
        let m1 = compute_m1 uid key_id auth_id in
        let m2 = the_m2 auth_key key counter in
        let k1 = derived auth_key key_update_enc_c in
        let k2 = derived auth_key key_update_mac_c in
        given (derive_key_lem t auth_key key_update_enc_c h refl) λ h1 q1 e1.
          given (derive_key_lem t auth_key key_update_mac_c h1 e1) λ h2 q2 e2.
            given_void (plain_key_lem t k1 h2 e2) λ h3 q3 e3.
              given (cbc_lem t k1 (m2_plain key counter) (replicate 16 0) h3 e3) λ h4 q4 e4.
                given_void (plain_key_lem t k2 h4 e4) λ h5 q5 e5.
                  given (mac_lem t k2 (m1 ++ m2) 384 h5 e5) λ h6 q6 e6. (
                    h6,
                    rw
                        (
                          compute_m1m2m3, q1, q2, q3, status_self, q4, status_self, q5, status_self,
                          q6, status_self,
                        )
                        refl,
                    e6,
                  )

    pub compute_m4m5_lem :
        (auth_id key_id : ℕ) (key : List ℕ) (counter : ℕ) (uid : List ℕ) (h : she.Hw)
        → let m4 =
            compute_m1 uid key_id auth_id
            ++ crypto.ecb (derived key key_update_enc_c) (m4_star_plain counter) in
          (h' : she.Hw) × (compute_m4m5 she auth_id key_id key counter uid h
            ≡ (value (m4, crypto.cmac (derived key key_update_mac_c) (take 32 m4)), h'))
          × Keeps (works.slots h) h'
    unfolding compute_m4m5
    compute_m4m5_lem auth_id key_id key counter uid h =
        let t = works.slots h in
        let k3 = derived key key_update_enc_c in
        let k4 = derived key key_update_mac_c in
        let m4 = compute_m1 uid key_id auth_id ++ crypto.ecb k3 (m4_star_plain counter) in
        given (derive_key_lem t key key_update_enc_c h refl) λ h1 q1 e1.
          given (derive_key_lem t key key_update_mac_c h1 e1) λ h2 q2 e2.
            given_void (plain_key_lem t k3 h2 e2) λ h3 q3 e3.
              given (ecb_lem t k3 (m4_star_plain counter) h3 e3) λ h4 q4 e4.
                given_void (plain_key_lem t k4 h4 e4) λ h5 q5 e5.
                  given (mac_lem t k4 m4 256 h5 e5) λ h6 q6 e6. (
                    h6,
                    rw
                        (
                          compute_m4m5, q1, q2, q3, status_self, q4, status_self, q5, status_self,
                          q6, status_self,
                        )
                        refl,
                    e6,
                  )
