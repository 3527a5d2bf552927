-- ===== src/Gateway/Dialogue.antt =====
-- The frames of a firmware update over CAN, in their order.
use xcan_router.Prelude.{
  ◌-◌, ◌≤◌, ◌≡◌, false, arith, ◌==◌, length-append, length-replicate, ℕ, zero, suc, Bool, List, [],
  ◌∷◌, ◌++◌, if◌then◌else◌, length, take, drop, replicate,
}
use xcan_router.Gateway.Ecu.{reset_cmd, begin_sec, begin_nonsec, end_cmd}
use xcan_router.Gateway.State.{Sent}
use xcan_router.Gateway.Update.{Outside, fw_data_size, fw_cmac_size, packet}

abbrev pub frame : ℕ → ℕ → List ℕ → Sent
frame instance_no msg_id bytes = record { instance_no = instance_no; id = msg_id; bytes = bytes }

module _ {Queue : Type 0} (outside : Outside Queue) (instance_no msg_id : ℕ) where
  -- The encrypted frames for the bytes of a file, 48 at a time, for at most `n` of them.
  abbrev pub image : ℕ → List ℕ → List ℕ → List Sent
  image zero rnd bytes = []
  image (suc n) rnd [] = []
  image (suc n) rnd (b ∷ bytes) =
      frame instance_no msg_id
        (outside.encrypt (packet (take fw_data_size (b ∷ bytes)) rnd) (replicate fw_cmac_size 0))
      ∷ image n rnd (drop fw_data_size (b ∷ bytes))

  -- The frames of a whole update with a random number.
  abbrev pub dialogue : Bool → List ℕ → List ℕ → List Sent
  dialogue secure bytes rnd =
      frame instance_no msg_id (reset_cmd ∷ [])
        ∷ frame instance_no msg_id ((if secure then begin_sec else begin_nonsec) ∷ [])
        ∷ image (length bytes) rnd bytes
      ++ frame instance_no msg_id (end_cmd ∷ []) ∷ []

pub length-packet :
    (part rnd : List ℕ)
    → length part ≤ fw_data_size
    → length rnd ≡ fw_cmac_size
    → length (packet part rnd) ≡ 64
length-packet part rnd le size =
    let pad : List ℕ = replicate (fw_data_size - length part) 0 in
    grind (
      arith,
      length-append (part ++ pad) rnd,
      length-append part pad,
      length-replicate {A = ℕ} (fw_data_size - length part) 0,
      size,
      le,
    )

pub suc_is_not_zero : (n : ℕ) → (suc n == 0) ≡ false
suc_is_not_zero n = ground arith

pub length-take_le : (n : ℕ) (xs : List ℕ) → length (take n xs) ≤ n
length-take_le zero xs = omega arith
length-take_le (suc n) [] = omega arith
length-take_le (suc n) (x ∷ xs) = ground (arith, length-take_le n xs)
