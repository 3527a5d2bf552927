-- ===== src/Boot/Store.antt =====
-- SD_storeAllECU comes to an end, and leaves the list of ECUs as it was.
use xcan_router.Prelude.{
  ℕ, zero, suc, ◌+◌, ◌≤◌, ◌<◌, ◌≡◌, refl, ◌∙◌, arith, length, get_elem?_of_lt,
}
use xcan_router.Run.{done}
use xcan_router.Gateway.Card.{
  Fat, Stored, Status, success, sd_store_ecu, sd_store_from, sd_store_all, store_file, both,
}

module _ (fat : Fat) where
  store_one :
      (i : ℕ) (s : Stored fat)
      → i < length s.ecus
      → (status : Status) × (s' : Stored fat) × (sd_store_ecu fat i s ≡ done status s')
        × (s'.ecus ≡ s.ecus)
  unfolding sd_store_ecu
  store_one i s lt =
      let (e, found) = get_elem?_of_lt s.ecus i lt in
      let o = store_file fat i (fat.encode e) s.disk in
      (o.0, record s { disk = o.1 }, rw (sd_store_ecu, found) refl, refl)

  store_from :
      (i left : ℕ) (status : Status) (s : Stored fat)
      → i + left ≤ length s.ecus
      → (status' : Status) × (s' : Stored fat) × (sd_store_from fat i left status s
          ≡ done status' s')
        × (s'.ecus ≡ s.ecus)
  unfolding sd_store_from
  store_from i zero status s le = (status, s, refl, refl)
  store_from i (suc left) status s le =
      let (r, s1, one, same) = store_one i s (omega arith) in
      let (r', s2, rest, same') =
        store_from (i + 1) left (both fat status r) s1 (rw (same) (omega arith)) in
      (r', s2, rw (one) rest, same' ∙ same)

  pub store_all :
      (s : Stored fat)
      → 4 ≤ length s.ecus
      → (status : Status) × (s' : Stored fat) × (sd_store_all fat s ≡ done status s')
        × (s'.ecus ≡ s.ecus)
  unfolding sd_store_all
  store_all s le = store_from 0 4 success s le
