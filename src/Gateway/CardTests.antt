-- ===== src/Gateway/CardTests.antt =====
-- The SD card on a small file system.
use xcan_router.Prelude.{
  ℕ, ◌+◌, ◌*◌, ◌/◌, ◌%◌, ◌≤◌, ◌<◌, ◌≡◌, refl, Bool, true, false, ◌&&◌, Option, none, some, List, [],
  ◌∷◌, arith, ◌==◌, if◌then◌else◌, length, get_elem?, set, take, replicate,
}
use xcan_router.Run.{done, spin, Returns}
use xcan_router.Gateway.Ecu.{Ecu}
use xcan_router.Gateway.Tables.{ecu_list}
use xcan_router.Gateway.Card.{
  Fat, FilePath, info_path, fw_path, Opened, opened, no_file, success, Stored, sd_store_ecu,
  sd_load_ecu, sd_load_all, sd_open_fw, sd_open_latest,
}
use xcan_router.Gateway.Backup.{Sound, InRange, store-load, load_all-spins, open_latest-newest}

abbrev cluster : Ecu
cluster = record {
  status = 0;
  endianness = 0;
  security = 0;
  protocol = 2;
  instance_no = 2;
  fw_version = 1;
  reserved = 0;
}

abbrev blank : Ecu
blank = record cluster { protocol = 0; instance_no = 0; fw_version = 0 }

-- A card that keeps every file whole.
abbrev same_path : FilePath → FilePath → Bool
same_path (info_path i) (info_path j) = i == j
same_path (fw_path i v) (fw_path j w) = (i == j) && (v == w)
same_path (info_path i) (fw_path j w) = false
same_path (fw_path i v) (info_path j) = false

same_path_self : (p : FilePath) → same_path p p ≡ true
same_path_self (info_path i) = ground arith
same_path_self (fw_path i v) = ground arith

abbrev Contents : Type 0
Contents = FilePath → Option (List ℕ)

abbrev replaced : Contents → FilePath → List ℕ → Contents
replaced disk p bytes q = if same_path p q then some bytes else disk q

abbrev open_in : FilePath → Contents → Opened FilePath
open_in p disk = elim (disk p) [ none ↦ no_file | some _ ↦ opened p ]

abbrev read_in : FilePath → ℕ → Contents → Bool × List ℕ
read_in p n disk = elim (disk p) [ none ↦ (false, []) | some bytes ↦ (true, take n bytes) ]

abbrev nth : List ℕ → ℕ → ℕ
nth bytes i = elim (get_elem? bytes i) [ none ↦ 0 | some b ↦ b ]

abbrev encode : Ecu → List ℕ
encode e =
    (e.status + 16 * (e.endianness + 2 * e.security))
    ∷ (e.protocol + 16 * e.instance_no)
    ∷ e.fw_version
    ∷ e.reserved
    ∷ []

abbrev decode : List ℕ → Ecu
decode bytes = record {
  status = nth bytes 0 % 16;
  endianness = nth bytes 0 / 16 % 2;
  security = nth bytes 0 / 32;
  protocol = nth bytes 1 % 16;
  instance_no = nth bytes 1 / 16;
  fw_version = nth bytes 2;
  reserved = nth bytes 3;
}

abbrev card : Fat
card = record {
  Disk = Contents;
  File = FilePath;
  mkdir = λ i disk. disk;
  create = λ p disk. some (p, disk);
  write = λ p bytes disk. (true, length bytes, replaced disk p bytes);
  close = λ p disk. disk;
  open_existing = open_in;
  read = read_in;
  encode = encode;
  decode = decode;
}

decode-encode : (e : Ecu) → InRange e → decode (encode e) ≡ e
decode-encode e fits =
    grind
      (arith, fits.status_small, fits.endianness_small, fits.security_small, fits.protocol_small)

written_in :
    (p : FilePath) (bytes : List ℕ) (disk : Contents)
    → (open_in p (replaced disk p bytes) ≡ opened p)
      × ((n : ℕ) → read_in p n (replaced disk p bytes) ≡ (true, take n bytes))
written_in p bytes disk =
    (rw (open_in, same_path_self p) refl, λ n. rw (read_in, same_path_self p) refl)

card-Sound : Sound card
card-Sound = record {
  written = λ p bytes disk.
      let (opens, reads) = written_in p bytes disk in
      (p, disk, replaced disk p bytes, p, refl, refl, opens, reads);
  layout_size = λ e. refl;
  layout = decode-encode;
}

-- ECU 2 has firmware of version 2.
abbrev stored : Stored card
stored = record {
  disk = λ p. if same_path p (fw_path 2 2) then some (9 ∷ []) else none;
  ecus = ecu_list;
}

store-load_example :
    Returns
      (λ r t.
        (r ≡ success)
        × Returns
            (λ r' t'. (r' ≡ success) × (t'.ecus ≡ set (replicate 4 blank) 2 cluster))
            (sd_load_ecu card 2 (record t { ecus = replicate 4 blank })))
      (sd_store_ecu card 2 stored)
store-load_example =
    store-load card stored 2 cluster blank (replicate 4 blank) card-Sound
      (record {
        status_small = omega arith;
        endianness_small = omega arith;
        security_small = omega arith;
        protocol_small = omega arith;
        instance_small = omega arith;
        version_small = omega arith;
        reserved_small = omega arith;
      })
      refl refl

files_of_two : (v : ℕ) → 2 ≤ v → v < 3 → (f : FilePath) × (sd_open_fw card 2 v stored ≡ opened f)
unfolding sd_open_fw
files_of_two v le lt = (fw_path 2 v, ground arith)

no_third : sd_open_fw card 2 3 stored ≡ no_file
unfolding sd_open_fw
no_third = refl

open_latest-newest_example :
    sd_open_latest card 5 2 stored ≡ done (sd_open_fw card 2 2 stored) stored
open_latest-newest_example =
    open_latest-newest card 5 2 3 stored cluster refl (omega arith) (omega arith) (omega arith)
      (files_of_two, no_third)

abbrev with_file : Stored card
with_file = record { disk = replaced (λ _. none) (info_path 0) (encode cluster); ecus = ecu_list }

load_all-spins_example : sd_load_all card 7 with_file ≡ spin
load_all-spins_example = load_all-spins card 7 with_file (info_path 0) (omega arith) refl
