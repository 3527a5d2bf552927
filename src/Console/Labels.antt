-- ===== src/Console/Labels.antt =====
-- The labels of the identifiers.
use xcan_router.Prelude.{
  ℕ, zero, suc, ◌≤◌, ◌≡◌, refl, Bool, true, false, ◌&&◌, some, List, [], ◌∷◌, arith, leb,
  if◌then◌else◌, length, get_elem?,
}
use xcan_router.Gateway.Ecu.{has_bit, ecu_id_of, type_data_bit, type_cmd_bit, type_fw_bit}
use xcan_router.Console.Text.{codes}
use xcan_router.Console.Buffer.{no_zero}
use xcan_router.Console.Frames.{label_of, pdu_labels}

abbrev pub short : List ℕ → Bool
short label = leb (length label) 18 && no_zero label

abbrev all_short : List (List ℕ) → Bool
all_short [] = true
all_short (x ∷ xs) = short x && all_short xs

all_short_lem :
    (xs : List (List ℕ)) (i : ℕ) (label : List ℕ)
    → all_short xs ≡ true
    → get_elem? xs i ≡ some label
    → short label ≡ true
all_short_lem [] i label h eq = ground arith
all_short_lem (x ∷ xs) zero label h eq = ground arith
all_short_lem (x ∷ xs) (suc i) label h eq = ground (arith, all_short_lem xs i label)

short-some : (x label : List ℕ) → some x ≡ some label → short x ≡ true → short label ≡ true
short-some x label eq h = ground arith

chosen_lem :
    (is_data is_cmd is_fw : Bool) (i : ℕ) (label : List ℕ)
    → (if is_data
        then get_elem? pdu_labels i
        else if is_cmd
        then some (codes "COMMAND  ")
        else if is_fw
        then some (codes "FIRMWARE  ")
        else some (codes "N/A"))
      ≡ some label
    → short label ≡ true
chosen_lem true is_cmd is_fw i label eq = all_short_lem pdu_labels i label refl eq
chosen_lem false true is_fw i label eq = short-some (codes "COMMAND  ") label eq refl
chosen_lem false false true i label eq = short-some (codes "FIRMWARE  ") label eq refl
chosen_lem false false false i label eq = short-some (codes "N/A") label eq refl

-- Each label has at most 18 characters, and no NUL.
pub label_lem : (id : ℕ) (label : List ℕ) → label_of id ≡ some label → short label ≡ true
label_lem id label eq =
    chosen_lem (has_bit id type_data_bit) (has_bit id type_cmd_bit) (has_bit id type_fw_bit)
      (ecu_id_of id) label eq

pub short_lem : (label : List ℕ) → short label ≡ true → (length label ≤ 18) × (no_zero label ≡ true)
short_lem label h = (ground arith, ground arith)
