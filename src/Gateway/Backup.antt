-- ===== src/Gateway/Backup.antt =====
-- What the SD card gives back: the ECUs' data, and the newest firmware.
use xcan_router.Prelude.{
  ℕ, zero, suc, ◌+◌, ◌-◌, ◌%◌, ◌^◌, ◌≤◌, ◌<◌, ◌≡◌, refl, ap, ◌∙◌, inl, inr, true, some, List, [],
  ◌∷◌, ◌++◌, arith, leb, ◌==◌, if◌then◌else◌, Bool-cases, eq_of_==, length, get_elem?, set, take,
  drop, length-set, get_elem?_of_lt,
}
use xcan_router.Run.{done, spin, Returns}
use xcan_router.Gateway.Ecu.{Ecu}
use xcan_router.Gateway.Card.{
  Fat, FilePath, info_path, opened, no_file, failed, success, Stored, ecu_size, store_file,
  load_file, read_into, sd_store_ecu, sd_load_ecu, sd_load_all, sd_open_fw, latest_version,
  sd_open_latest,
}

-- The values that the bit fields of an ECU hold.
pub record InRange (e : Ecu) : Type 0 where
  pub status_small : e.status < 16
  pub endianness_small : e.endianness < 2
  pub security_small : e.security < 2
  pub protocol_small : e.protocol < 16
  pub instance_small : e.instance_no < 16
  pub version_small : e.fw_version < 256
  pub reserved_small : e.reserved < 1024

take_whole : (n : ℕ) (xs : List ℕ) → length xs ≡ n → take n xs ≡ xs
take_whole zero [] size = refl
take_whole zero (x ∷ xs) size = absurd (omega arith)
take_whole (suc n) [] size = refl
take_whole (suc n) (x ∷ xs) size = ap (◌∷◌ x) (take_whole n xs (omega arith))

drop_whole : (n : ℕ) (xs : List ℕ) → length xs ≡ n → drop n xs ≡ []
drop_whole zero [] size = refl
drop_whole zero (x ∷ xs) size = absurd (omega arith)
drop_whole (suc n) [] size = refl
drop_whole (suc n) (x ∷ xs) size = drop_whole n xs (omega arith)

append_nil : (xs : List ℕ) → xs ++ [] ≡ xs
append_nil [] = refl
append_nil (x ∷ xs) = ap (◌∷◌ x) (append_nil xs)

module _ (fat : Fat) where
  -- Where nothing fails: a file that was created, written and closed holds what was written, and
  -- the layout of an ECU can be read back.
  pub record Sound : Type 0 where
    pub written :
        (p : FilePath) (bytes : List ℕ) (disk : fat.Disk)
        → (f : fat.File) × (d : fat.Disk) × (d' : fat.Disk) × (g : fat.File) × (fat.create p disk
            ≡ some (f, d))
          × (fat.write f bytes d ≡ (true, length bytes, d'))
          × (fat.open_existing p (fat.close f d') ≡ opened g)
          × ((n : ℕ) → fat.read g n (fat.close f d') ≡ (true, take n bytes))
    pub layout_size : (e : Ecu) → length (fat.encode e) ≡ ecu_size
    pub layout : (e : Ecu) → InRange e → fat.decode (fat.encode e) ≡ e

  store_file_lem :
      (i : ℕ) (e : Ecu) (disk : fat.Disk) (ok : Sound)
      → (d : fat.Disk) × (g : fat.File) × (store_file fat i (fat.encode e) disk ≡ (success, d))
        × (fat.open_existing (info_path i) d ≡ opened g)
        × (fat.read g 4 d ≡ (true, fat.encode e))
  unfolding store_file
  store_file_lem i e disk ok =
      let (f, d, d', g, created, wrote, again, reads) =
        ok.written (info_path i) (fat.encode e) (fat.mkdir i disk) in
      let wrote_four : fat.write f (fat.encode e) d ≡ (true, 4, d') =
        wrote ∙ ap (λ n. (true, n, d')) (ok.layout_size e) in
      (
        fat.close f d',
        g,
        rw (store_file, created, wrote_four) refl,
        again,
        reads 4 ∙ ap (λ b. (true, b)) (take_whole 4 (fat.encode e) (ok.layout_size e)),
      )

  read_back : (e now : Ecu) → Sound → InRange e → read_into fat now (fat.encode e) ≡ e
  unfolding read_into
  read_back e now ok fits =
      rw
        (
          read_into,
          ok.layout_size e,
          drop_whole 4 (fat.encode now) (ok.layout_size now),
          append_nil (fat.encode e),
        )
        (ok.layout e fits)

  load_file_lem :
      (i : ℕ) (e now : Ecu) (g : fat.File) (t : Stored fat)
      → Sound
      → InRange e
      → fat.read g 4 t.disk ≡ (true, fat.encode e)
      → load_file fat i now g t ≡ done success (record t { ecus = set t.ecus i e })
  unfolding load_file
  load_file_lem i e now g t ok fits read_four =
      rw (load_file, read_four, ok.layout_size e, read_back e now ok fits) refl

  -- On a card where nothing fails, the data of an ECU whose fields are in range comes back after it
  -- was stored, whatever the list of ECUs holds by then, and both calls succeed.
  pub store-load :
      (s : Stored fat) (i : ℕ) (e now : Ecu) (ecus : List Ecu)
      → Sound
      → InRange e
      → get_elem? s.ecus i ≡ some e
      → get_elem? ecus i ≡ some now
      → Returns
          (λ r t.
            (r ≡ success)
            × Returns
                (λ r' t'. (r' ≡ success) × (t'.ecus ≡ set ecus i e))
                (sd_load_ecu fat i (record t { ecus = ecus })))
          (sd_store_ecu fat i s)
  unfolding sd_store_ecu sd_load_ecu
  store-load s i e now ecus ok fits at at_now =
      let (d, g, stored, again, read_four) = store_file_lem i e s.disk ok in
      rw
        (
          sd_store_ecu,
          at,
          stored,
          sd_load_ecu,
          at_now,
          stored,
          again,
          stored,
          load_file_lem i e now g (record { disk = d; ecus = ecus }) ok fits read_four,
        )
        (refl, (refl, refl))

  -- If the file of ECU 0 opens, the loading of all ECUs never ends: no number of rounds is enough.
  pub load_all-spins :
      (rounds : ℕ) (s : Stored fat) (f : fat.File)
      → 0 < length s.ecus
      → fat.open_existing (info_path 0) s.disk ≡ opened f
      → sd_load_all fat rounds s ≡ spin
  unfolding sd_load_all load_file
  load_all-spins zero s f some_ecu opens = refl
  load_all-spins (suc rounds) s f some_ecu opens =
      let (e, at) = get_elem?_of_lt s.ecus 0 some_ecu in
      let now = read_into fat e ((fat.read f 4 s.disk).1) in
      rw (sd_load_all, opens, at)
        (load_all-spins rounds (record s { ecus = set s.ecus 0 now }) f
          (rw (length-set s.ecus 0 now) some_ecu) opens)

  at_least : (v last : ℕ) → v < last → leb v (last - 1) ≡ true
  at_least v last lt = ground arith

  next_version : (ver last : ℕ) → ver < last → last < 2 ^ 32 → (ver + 1) % 2 ^ 32 ≡ ver + 1
  next_version ver last lt small = grind arith

  previous_version :
      (last : ℕ) → 0 < last → last < 2 ^ 32 → (last + (2 ^ 32 - 1)) % 2 ^ 32 ≡ last - 1
  previous_version last lt small = grind arith

  search-spins :
      (rounds id ver : ℕ) (s : Stored fat)
      → sd_open_fw fat id ver s ≡ failed
      → latest_version fat rounds id ver s ≡ spin
  unfolding latest_version
  search-spins zero id ver s fails = refl
  search-spins (suc rounds) id ver s fails =
      rw (latest_version, fails) (search-spins rounds id ver s fails)

  -- The versions from `ver` on that are below `last` have files, and `last` has none.
  abbrev pub FilesUpTo : ℕ → ℕ → ℕ → Stored fat → Type 0
  FilesUpTo id ver last s =
      ((v : ℕ) → ver ≤ v → v < last → (f : fat.File) × (sd_open_fw fat id v s ≡ opened f))
      × (sd_open_fw fat id last s ≡ no_file)

  search :
      (rounds id ver last : ℕ) (s : Stored fat)
      → last < ver + rounds
      → 0 < ver
      → ver ≤ last
      → last < 2 ^ 32
      → FilesUpTo id ver last s
      → latest_version fat rounds id ver s ≡ done (last - 1) s
  unfolding latest_version
  search zero id ver last s fuel pos_ver le small files = absurd (omega arith)
  search (suc rounds) id ver last s fuel pos_ver le small (exist, ends) =
      elim (Bool-cases (ver == last)) [
        | inl same ↦
            let here : sd_open_fw fat id ver s ≡ no_file =
              ap (λ v. sd_open_fw fat id v s) (eq_of_== ver last same) ∙ ends in
            rw (latest_version, here, previous_version ver pos_ver (ground (arith, same)))
              (ap (λ v. done (v - 1) s) (eq_of_== ver last same))
        | inr other ↦
            let below : ver < last = ground arith in
            let (f, opens) = exist ver (omega arith) below in
            rw (latest_version, opens, next_version ver last below small)
              (search rounds id (ver + 1) last s (omega arith) (omega arith) (omega arith) small
                ((λ v ge lt. exist v (omega arith) lt), ends))
      ]

  -- The firmware that is opened is the newest: where the versions after the ECU's own have files up
  -- to the one before `last`, which has none and is below 2 ^ 32, the file before `last` is opened.
  -- The search takes one turn for each version up to `last`.
  pub open_latest-newest :
      (rounds id last : ℕ) (s : Stored fat) (e : Ecu)
      → get_elem? s.ecus id ≡ some e
      → e.fw_version < last
      → last < 2 ^ 32
      → last ≤ e.fw_version + rounds
      → FilesUpTo id (e.fw_version + 1) last s
      → sd_open_latest fat rounds id s ≡ done (sd_open_fw fat id (last - 1) s) s
  unfolding sd_open_latest
  open_latest-newest rounds id last s e at later small fuel files =
      rw
        (
          sd_open_latest,
          at,
          search rounds id (e.fw_version + 1) last s (omega arith) (omega arith) (omega arith) small
              files,
        )
        (ap (λ b. done (if b then sd_open_fw fat id (last - 1) s else no_file) s)
          (at_least e.fw_version last later))

  -- If the card fails to open the file, the search never ends.
  pub open_latest-spins :
      (rounds id : ℕ) (s : Stored fat) (e : Ecu)
      → get_elem? s.ecus id ≡ some e
      → sd_open_fw fat id (e.fw_version + 1) s ≡ failed
      → sd_open_latest fat rounds id s ≡ spin
  unfolding sd_open_latest
  open_latest-spins rounds id s e at fails =
      rw (sd_open_latest, at, search-spins rounds id (e.fw_version + 1) s fails) refl
