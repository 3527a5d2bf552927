-- ===== src/Gateway/UpdateTests.antt =====
-- The firmware update on a small state.
use xcan_router.Prelude.{
  ℕ, ◌≡◌, refl, ap, true, some, List, [], ◌∷◌, ◌++◌, arith, ◌==◌, if◌then◌else◌, take, drop,
  replicate,
}
use xcan_router.Run.{done, Returns}
use xcan_router.Gateway.State.{Sent, set_block}
use xcan_router.Gateway.Update.{Outside, can_update_firmware}
use xcan_router.Gateway.Deliver.{latest_first}
use xcan_router.Gateway.Dialogue.{dialogue}
use xcan_router.Gateway.Answering.{ack_for, ack_for_latest, Cooperates}
use xcan_router.Gateway.Complete.{AllFit, update-completes}
use xcan_router.Gateway.Sample.{Bounded, start, cluster}

-- An ECU that answers each frame. A file is the list of its bytes.
abbrev sixteen : List ℕ
sixteen = replicate 16 0x5a

abbrev answer_to : List Sent → List ℕ
answer_to [] = []
answer_to (f ∷ bus) = elim f.bytes [
  | [] ↦ []
  | (c ∷ cs) ↦ elim cs [
    | [] ↦
        if c == 0xff
        then 0xc4 ∷ []
        else if c == 0xfc
        then sixteen
        else if c == 0xfa
        then 0xff ∷ []
        else 0xc1 ∷ []
    | (d ∷ ds) ↦ 0xc3 ∷ []
  ]
]

abbrev obliging : Outside Bounded
obliging = record {
  File = List ℕ;
  wait = λ s.
      done (some (record { id = 0x04000002; length = 16; payload = 9 }))
        (record s { blocks = set_block s.blocks 9 (some (answer_to s.bus ++ 0 ∷ [])) });
  read = λ fw n. (take n fw, drop n fw);
  encrypt = λ buffer iv. buffer;
  pd_true = 1;
  pd_false = 0;
  status_success = 0;
  status_error = 1;
}

answered_so :
    (instance_no id : ℕ) (bytes : List ℕ) (bus : List Sent)
    → answer_to (record { instance_no = instance_no; id = id; bytes = bytes } ∷ bus)
      ≡ ack_for obliging sixteen bytes
answered_so instance_no id [] bus = refl
answered_so instance_no id (c ∷ []) bus = refl
answered_so instance_no id (c ∷ d ∷ ds) bus = refl

answer_lem : (bus : List Sent) → answer_to bus ≡ ack_for_latest obliging sixteen bus
answer_lem [] = refl
answer_lem (f ∷ bus) = answered_so f.instance_no f.id f.bytes bus

abbrev cooperates : Cooperates obliging
cooperates = record {
  challenge = sixteen;
  challenge_full = refl;
  rest = λ fw. fw;
  waits = λ s.
      (refl, (0 ∷ [], omega arith, ap (λ (l : List ℕ). some (l ++ 0 ∷ [])) (answer_lem s.bus)));
  reads = λ fw n. (drop n fw, refl, refl);
  keeps_length = λ buffer iv. refl;
}

update-completes_example :
    Returns
      (λ r s'.
        (r ≡ 0)
        × (s'.bus
            ≡ latest_first (dialogue obliging 2 0x04000002 true (1 ∷ 2 ∷ []) sixteen) start.bus))
      (can_update_firmware obliging 3 2 (1 ∷ 2 ∷ []) true start)
    × AllFit (dialogue obliging 2 0x04000002 true (1 ∷ 2 ∷ []) sixteen)
update-completes_example =
    update-completes obliging cooperates 3 2 (omega arith) (1 ∷ 2 ∷ []) true start cluster refl
      (omega arith)
