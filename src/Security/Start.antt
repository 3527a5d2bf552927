-- ===== src/Security/Start.antt =====
-- HSM_initialise: the keys of a new security module, and of one that was started before.
use xcan_router.Prelude.{
  ℕ, ◌≤◌, ◌<◌, ◌≡◌, refl, sym, ap, subst, ◌∙◌, ◌≢◌, inl, inr, List, ◌++◌, arith, ltb, Bool-cases,
  ==_self, ==_ne, set,
}
use xcan_router.Security.Driver.{She}
use xcan_router.Security.Messages.{key_update_mac_c, compute_m1}
use xcan_router.Security.Module.{
  empty_key, auth_id_key, key_1_value, boot_mac_key_value, set_auth_key, load_key, initialise,
}
use xcan_router.Security.Spec.{Crypto, Slot, Slots, Works, stored}
use xcan_router.Security.Accept.{wildcard, m2_for, m3_for, raised}
use xcan_router.Security.Keys.{load_key-raises, set_auth_key-first, set_auth_key_again}

module _ (she : She) where
  -- The identifiers of the three keys have 4 bits and are different.
  abbrev pub Ids : Type 0
  Ids =
      (she.master_ecu < 16)
      × (she.key_1 < 16)
      × (she.boot_mac_key < 16)
      × (she.master_ecu ≢ she.key_1)
      × (she.master_ecu ≢ she.boot_mac_key)
      × (she.key_1 ≢ she.boot_mac_key)

  -- The keys after HSM_initialise, from the ones before.
  abbrev pub provisioned : Slots → Slots
  provisioned slots =
      stored she.boot_mac_key (record { key = boot_mac_key_value; counter = 2 })
        (stored she.key_1 (record { key = key_1_value; counter = 3 })
          (stored she.master_ecu (record { key = auth_id_key; counter = 1 }) slots))

module _ (she : She) (crypto : Crypto) (works : Works she crypto) where
  raised_now :
      (key_id : ℕ) (key : List ℕ) (counter : ℕ) (slots : Slots)
      → (slots key_id).counter < counter
      → raised crypto key_id key counter slots
        ≡ stored key_id (record { key = key; counter = counter }) slots
  raised_now key_id key counter slots lt = ground arith

  stored_other :
      (id other : ℕ) (slot : Slot) (slots : Slots)
      → other ≢ id
      → stored id slot slots other ≡ slots other
  stored_other id other slot slots ne = rw (==_ne other id ne) refl

  stored_self : (id : ℕ) (slot : Slot) (slots : Slots) → stored id slot slots id ≡ slot
  stored_self id slot slots = rw (==_self id) refl

  raised_other :
      (id other : ℕ) (key : List ℕ) (counter : ℕ) (slots : Slots)
      → other ≢ id
      → raised crypto id key counter slots other ≡ slots other
  raised_other id other key counter slots ne = elim (Bool-cases (ltb (slots id).counter counter)) [
    | inl larger ↦ rw (larger, ==_ne other id ne) refl
    | inr not_larger ↦ rw (not_larger) refl
  ]

  raised_not :
      (key_id : ℕ) (key : List ℕ) (counter : ℕ) (slots : Slots)
      → counter ≤ (slots key_id).counter
      → raised crypto key_id key counter slots ≡ slots
  raised_not key_id key counter slots le = ground arith

  -- The two calls of HSM_LoadKey, where the master key is set.
  two_keys :
      (h : she.Hw)
      → (works.slots h she.master_ecu).key ≡ auth_id_key
      → Ids she
      → works.slots
          (load_key she she.boot_mac_key boot_mac_key_value 2
            (load_key she she.key_1 key_1_value 3 h).1).1
        ≡ raised crypto she.boot_mac_key boot_mac_key_value 2
            (raised crypto she.key_1 key_1_value 3 (works.slots h))
  two_keys h mine (m, k, b, mk, mb, kb) =
      let h1 = (load_key she she.key_1 key_1_value 3 h).1 in
      let (_, first) =
        load_key-raises she crypto works she.key_1 key_1_value 3 h mine refl k m (omega arith) in
      let still : (works.slots h1 she.master_ecu).key ≡ auth_id_key =
        rw (first, raised_other she.key_1 she.master_ecu key_1_value 3 (works.slots h) mk) mine in
      let (_, second) =
        load_key-raises she crypto works she.boot_mac_key boot_mac_key_value 2 h1 still refl b m
          (omega arith) in
      subst
        (λ t.
          works.slots (load_key she she.boot_mac_key boot_mac_key_value 2 h1).1
          ≡ raised crypto she.boot_mac_key boot_mac_key_value 2 t)
        first second

  -- Of a new module, with g_emptyKey as its master key and no counter used, HSM_initialise makes one
  -- with g_authIdKey, the key of BOOT_MAC_KEY_VALUE and the key of KEY_1_VALUE, and no other key
  -- changes.
  pub initialise-provisions :
      (h : she.Hw)
      → Ids she
      → works.slots h she.master_ecu ≡ record { key = empty_key; counter = 0 }
      → (works.slots h she.key_1).counter ≡ 0
      → (works.slots h she.boot_mac_key).counter ≡ 0
      → works.slots (initialise she h) ≡ provisioned she (works.slots h)
  unfolding initialise
  initialise-provisions h (m, k, b, mk, mb, kb) new new_1 new_boot =
      let t = works.slots h in
      let h1 = (she.init h).1 in
      let same : works.slots h1 ≡ t = works.init_works h in
      let h2 = (set_auth_key she h1).1 in
      let mine : (works.slots h1 she.master_ecu).key ≡ empty_key = rw (same, new) refl in
      let (_, set) = set_auth_key-first she crypto works h1 mine m in
      let t1 = stored she.master_ecu (record { key = auth_id_key; counter = 1 }) t in
      let set' : works.slots h2 ≡ t1 =
        set
        ∙ ap (λ u. raised crypto she.master_ecu auth_id_key 1 u) same
        ∙ raised_now she.master_ecu auth_id_key 1 t (rw (new) (omega arith)) in
      let mine' : (works.slots h2 she.master_ecu).key ≡ auth_id_key =
        rw (set', stored_self she.master_ecu (record { key = auth_id_key; counter = 1 }) t) refl in
      let t2 = stored she.key_1 (record { key = key_1_value; counter = 3 }) t1 in
      let low_1 : (t1 she.key_1).counter < 3 =
        rw
          (
            stored_other she.master_ecu she.key_1 (record { key = auth_id_key; counter = 1 }) t
                (λ e. mk (sym e)),
            new_1,
          )
          (omega arith) in
      let low_boot : (t2 she.boot_mac_key).counter < 2 =
        rw
          (
            stored_other she.key_1 she.boot_mac_key (record { key = key_1_value; counter = 3 }) t1
                (λ e. kb (sym e)),
            stored_other she.master_ecu she.boot_mac_key (record { key = auth_id_key; counter = 1 })
                t (λ e. mb (sym e)),
            new_boot,
          )
          (omega arith) in
      two_keys h2 mine' (m, k, b, mk, mb, kb)
      ∙ ap
          (λ u.
            raised crypto she.boot_mac_key boot_mac_key_value 2
              (raised crypto she.key_1 key_1_value 3 u))
          set'
      ∙ ap (λ u. raised crypto she.boot_mac_key boot_mac_key_value 2 u)
          (raised_now she.key_1 key_1_value 3 t1 low_1)
      ∙ raised_now she.boot_mac_key boot_mac_key_value 2 t2 low_boot

  -- Where the module has g_authIdKey as its master key, counters of at least 3 and 2, and a MAC
  -- under g_emptyKey is not the one under g_authIdKey for the messages of HSM_SetAuthKey,
  -- HSM_initialise changes no key: a second start keeps what the first one set.
  pub initialise-keeps :
      (h : she.Hw)
      → Ids she
      → (works.slots h she.master_ecu).key ≡ auth_id_key
      → 3 ≤ (works.slots h she.key_1).counter
      → 2 ≤ (works.slots h she.boot_mac_key).counter
      → let m1 = compute_m1 wildcard she.master_ecu she.master_ecu in
        let m2 = m2_for crypto empty_key auth_id_key 1 in
        m3_for crypto empty_key m1 m2
          ≢ crypto.cmac (crypto.kdf (auth_id_key ++ key_update_mac_c)) (m1 ++ m2)
        → works.slots (initialise she h) ≡ works.slots h
  unfolding initialise
  initialise-keeps h (m, k, b, mk, mb, kb) mine used_1 used_boot differ =
      let t = works.slots h in
      let h1 = (she.init h).1 in
      let same : works.slots h1 ≡ t = works.init_works h in
      let h2 = (set_auth_key she h1).1 in
      let (_, kept) = set_auth_key_again she crypto works h1 (rw (same) mine) m differ in
      let same' : works.slots h2 ≡ t = kept ∙ same in
      two_keys h2 (rw (same') mine) (m, k, b, mk, mb, kb)
      ∙ ap
          (λ u.
            raised crypto she.boot_mac_key boot_mac_key_value 2
              (raised crypto she.key_1 key_1_value 3 u))
          same'
      ∙ ap (λ u. raised crypto she.boot_mac_key boot_mac_key_value 2 u)
          (raised_not she.key_1 key_1_value 3 t used_1)
      ∙ raised_not she.boot_mac_key boot_mac_key_value 2 t used_boot
