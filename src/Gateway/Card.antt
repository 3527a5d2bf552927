-- ===== src/Gateway/Card.antt =====
-- _old/Framework/interfaces/sdhc/sdhc.c: the ECUs' data and the firmware files on the SD card,
-- without the mounting of the card.
use xcan_router.Prelude.{
  ℕ, zero, suc, ◌+◌, ◌-◌, ◌%◌, ◌^◌, Bool, not, ◌||◌, Option, none, some, List, ◌++◌, ltb, leb, ◌==◌,
  if◌then◌else◌, length, get_elem?, set, drop,
}
use xcan_router.Run.{Run, done, crash, spin, pure, ◌>>=◌, ◌>>◌}
use xcan_router.Gateway.Ecu.{Ecu}
use xcan_router.Gateway.Tables.{num_of_ecus}

-- The paths that sprintf writes: "%d/%d.bin" and "0:%d/%d_fw_%d.bin".
pub data FilePath : Type 0 where
  info_path : ℕ → FilePath
  fw_path : ℕ → ℕ → FilePath

-- What f_open of an existing file gives: FR_OK, FR_NO_FILE or another FRESULT.
pub data Opened (File : Type 0) : Type 0 where
  opened : File → Opened File
  no_file : Opened File
  failed : Opened File

-- FatFS and the layout of an ECU. `create` is f_open of a new file, `write` is f_write with
-- whether the result is FR_OK and the number of bytes, `read` is f_read with the bytes that it
-- read. `encode` and `decode` are the compiler's layout of the struct in 4 bytes.
pub record Fat : Type 1 where
  pub Disk : Type 0
  pub File : Type 0
  pub mkdir : ℕ → Disk → Disk
  pub create : FilePath → Disk → Option (File × Disk)
  pub write : File → List ℕ → Disk → Bool × ℕ × Disk
  pub close : File → Disk → Disk
  pub open_existing : FilePath → Disk → Opened File
  pub read : File → ℕ → Disk → Bool × List ℕ
  pub encode : Ecu → List ℕ
  pub decode : List ℕ → Ecu

abbrev pub ecu_size : ℕ
ecu_size = 4

-- The results: STATUS_SUCCESS and STATUS_ERROR.
pub data Status : Type 0 where
  success : Status
  error : Status

pub record Stored (fat : Fat) : Type 0 where
  pub disk : fat.Disk
  pub ecus : List Ecu

module _ (fat : Fat) where
  abbrev Job : Type 0 → Type 0
  Job A = Stored fat → Run (Stored fat) A

  -- f_write, the test of its results, and f_close.
  abbrev write_file : fat.File → List ℕ → fat.Disk → Status × fat.Disk
  write_file f bytes disk =
      let (ok, bw, disk') = fat.write f bytes disk in
      if ltb bw ecu_size || not ok then (error, disk') else (success, fat.close f disk')

  unfoldable pub store_file : ℕ → List ℕ → fat.Disk → Status × fat.Disk
  store_file ecu_id bytes disk = elim (fat.create (info_path ecu_id) (fat.mkdir ecu_id disk)) [
    | none ↦ (success, fat.mkdir ecu_id disk)
    | some (f, disk') ↦ write_file f bytes disk'
  ]

  -- A file that cannot be created is a success, too.
  unfoldable pub sd_store_ecu : ℕ → Stored fat → Run (Stored fat) Status
  sd_store_ecu ecu_id s = elim (get_elem? s.ecus ecu_id) [
    | none ↦ crash
    | some e ↦
        let (status, disk) = store_file ecu_id (fat.encode e) s.disk in
        done status (record s { disk = disk })
  ]

  -- f_read into the struct itself: bytes that it did not read stay.
  unfoldable pub read_into : Ecu → List ℕ → Ecu
  read_into e bytes = fat.decode (bytes ++ drop (length bytes) (fat.encode e))

  unfoldable pub load_file : ℕ → Ecu → fat.File → Stored fat → Run (Stored fat) Status
  load_file ecu_id e f s =
      let (ok, bytes) = fat.read f ecu_size s.disk in
      done (if not (length bytes == ecu_size) || not ok then error else success)
        (record s { ecus = set s.ecus ecu_id (read_into e bytes) })

  unfoldable pub sd_load_ecu : ℕ → Stored fat → Run (Stored fat) Status
  sd_load_ecu ecu_id s = elim (get_elem? s.ecus ecu_id) [
    | none ↦ crash
    | some e ↦ elim (fat.open_existing (info_path ecu_id) s.disk) [
      | opened f ↦ load_file ecu_id e f s
      | no_file ↦ done error s
      | failed ↦ done error s
    ]
  ]

  abbrev pub both : Status → Status → Status
  both success status = status
  both error status = error

  -- The loop of SD_storeAllECU from `i` on, with `left` turns to go.
  unfoldable pub sd_store_from : ℕ → ℕ → Status → Stored fat → Run (Stored fat) Status
  sd_store_from i zero status = pure status
  sd_store_from i (suc left) status =
      sd_store_ecu i >>= λ r. sd_store_from (i + 1) left (both status r)

  unfoldable pub sd_store_all : Stored fat → Run (Stored fat) Status
  sd_store_all = sd_store_from 0 num_of_ecus success

  -- SD_loadAllECU: `current_ecu` is 0 in every turn, and only FR_NO_FILE ends the loop.
  unfoldable pub sd_load_all : ℕ → Stored fat → Run (Stored fat) Status
  sd_load_all zero s = spin
  sd_load_all (suc rounds) s = elim (fat.open_existing (info_path 0) s.disk) [
    | opened f ↦ elim (get_elem? s.ecus 0) [
      | none ↦ crash
      | some e ↦ (load_file 0 e f >> sd_load_all rounds) s
    ]
    | no_file ↦ done success s
    | failed ↦ sd_load_all rounds s
  ]

  unfoldable pub sd_open_fw : ℕ → ℕ → Stored fat → Opened fat.File
  sd_open_fw ecu_id ver s = fat.open_existing (fw_path ecu_id ver) s.disk

  -- The search of SD_openLatestFW from a version on: the version before the first that has no file.
  unfoldable pub latest_version : ℕ → ℕ → ℕ → Stored fat → Run (Stored fat) ℕ
  latest_version zero ecu_id ver s = spin
  latest_version (suc rounds) ecu_id ver s = elim (sd_open_fw ecu_id ver s) [
    | opened f ↦ latest_version rounds ecu_id ((ver + 1) % 2 ^ 32) s
    | no_file ↦ done ((ver + (2 ^ 32 - 1)) % 2 ^ 32) s
    | failed ↦ latest_version rounds ecu_id ver s
  ]

  -- The file itself is opened by SD_openFW, under the name that the source gives it there,
  -- SD_OpenFW, if the version found is not below the current one; else the result is FR_NO_FILE.
  unfoldable pub sd_open_latest : ℕ → ℕ → Stored fat → Run (Stored fat) (Opened fat.File)
  sd_open_latest rounds ecu_id s = elim (get_elem? s.ecus ecu_id) [
    | none ↦ crash
    | some e ↦
        (latest_version rounds ecu_id (e.fw_version + 1) >>= λ ver.
        λ t. done (if leb e.fw_version ver then sd_open_fw ecu_id ver t else no_file) t)
          s
  ]
