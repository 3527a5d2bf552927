-- ===== src/Gateway/Deliver.antt =====
-- The sending of a data PDU: ECU_sendPDU and the part of PDU_Task for such PDUs.
use xcan_router.Prelude.{
  ℕ, zero, suc, ◌≤◌, ◌<◌, ◌≡◌, refl, ap, ◌≢◌, none, some, List, [], ◌∷◌, ◌++◌, arith, ◌==◌,
  if◌then◌else◌, ==_ne, length, get_elem?, take, get_elem?_of_lt,
}
use xcan_router.Run.{done}
use xcan_router.Gateway.Ecu.{Ecu, Pdu, PduDesc, protocol_can, type_data_bit, clear_bit}
use xcan_router.Gateway.State.{State, Sent, set_block, read_bytes}
use xcan_router.Gateway.Tables.{pdu_descriptors, num_of_ecus}
use xcan_router.Gateway.Can.{can_send_frame}
use xcan_router.Gateway.Send.{ecu_send_pdu}
use xcan_router.Gateway.Routing.{send_to_all, route_entry, route_data}

-- The frame for one ECU: those on other buses than CAN get none.
abbrev pub frame_for : ℕ → List ℕ → Ecu → List Sent
frame_for id bytes e =
    if e.protocol == protocol_can
    then record { instance_no = e.instance_no; id = id; bytes = bytes } ∷ []
    else []

abbrev pub frame_to : List Ecu → ℕ → List ℕ → ℕ → List Sent
frame_to ecus id bytes d = elim (get_elem? ecus d) [ none ↦ [] | some e ↦ frame_for id bytes e ]

-- The frames for some ECUs, in the order of the ECUs.
abbrev pub frames_to : List Ecu → ℕ → List ℕ → List ℕ → List Sent
frames_to ecus id bytes [] = []
frames_to ecus id bytes (d ∷ ds) = frame_to ecus id bytes d ++ frames_to ecus id bytes ds

-- `bus` after some frames, the latest of which comes first.
abbrev pub latest_first : List Sent → List Sent → List Sent
latest_first [] bus = bus
latest_first (f ∷ fs) bus = latest_first fs (f ∷ bus)

-- The ECUs that a PDU goes to.
abbrev pub destinations : ℕ → List ℕ
destinations k = elim (get_elem? pdu_descriptors k) [ none ↦ [] | some desc ↦ desc.dest ]

-- All these are numbers of ECUs.
abbrev pub Known : List Ecu → List ℕ → Type 0
Known ecus [] = Unit
Known ecus (d ∷ ds) = (d < length ecus) × Known ecus ds

-- The payload of a PDU is a live block with as many bytes as the PDU says, no more than a CAN
-- frame holds.
pub record Carries {Queue : Type 0} (s : State Queue) (x : Pdu) (bytes : List ℕ) : Type 0 where
  pub ne_null : x.payload ≢ 0
  pub live : s.blocks x.payload ≡ some bytes
  pub counts : length bytes ≡ x.length
  pub fits : x.length ≤ 64

take_all {ℓ} : {A : Type ℓ} (xs : List A) → take (length xs) xs ≡ xs
take_all [] = refl
take_all (x ∷ xs) = ap (◌∷◌ x) (take_all xs)

pub latest_first-append :
    (fs gs : List Sent) (bus : List Sent)
    → latest_first gs (latest_first fs bus) ≡ latest_first (fs ++ gs) bus
latest_first-append [] gs bus = refl
latest_first-append (f ∷ fs) gs bus = latest_first-append fs gs (f ∷ bus)

module _ {Queue : Type 0} {x : Pdu} {bytes : List ℕ} where
  pub reads-bytes :
      (s : State Queue) → Carries s x bytes → read_bytes x.payload x.length s ≡ done bytes s
  reads-bytes s c = grind (arith, c.ne_null, c.live, c.counts, c.fits, take_all bytes)

  ecu_send_pdu-sends :
      (s : State Queue) (d : ℕ)
      → Carries s x bytes
      → d < length s.ecus
      → ecu_send_pdu d x s
        ≡ done tt (record s { bus = latest_first (frame_to s.ecus x.id bytes d) s.bus })
  unfolding ecu_send_pdu can_send_frame
  ecu_send_pdu-sends s d c lt =
      grind (arith, reads-bytes s c, c.counts, c.fits, get_elem?_of_lt s.ecus d lt)

  -- The loop over the destinations sends the PDU to each of them, in order.
  pub send_to_all-sends :
      (s : State Queue) (dest : List ℕ)
      → Carries s x bytes
      → Known s.ecus dest
      → send_to_all (length dest) dest x s
        ≡ done tt (record s { bus = latest_first (frames_to s.ecus x.id bytes dest) s.bus })
  unfolding send_to_all
  send_to_all-sends s [] c known = refl
  send_to_all-sends s (d ∷ dest) c (lt, known) =
      let sent = latest_first (frame_to s.ecus x.id bytes d) s.bus in
      rw (
        ecu_send_pdu-sends s d c lt,
        send_to_all-sends (record s { bus = sent }) dest
            (record { ne_null = c.ne_null; live = c.live; counts = c.counts; fits = c.fits }) known,
        latest_first-append (frame_to s.ecus x.id bytes d) (frames_to s.ecus x.id bytes dest) s.bus,
      )

pub known_lem :
    (ecus : List Ecu) (k : ℕ)
    → length ecus ≡ num_of_ecus
    → k < length pdu_descriptors
    → (desc : PduDesc) × (get_elem? pdu_descriptors k ≡ some desc)
      × (desc.dest_count ≡ length desc.dest)
      × (destinations k ≡ desc.dest)
      × Known ecus desc.dest
known_lem ecus zero count lt = (_, refl, refl, refl, (omega arith, (omega arith, tt)))
known_lem ecus (suc zero) count lt = (_, refl, refl, refl, (omega arith, (omega arith, tt)))
known_lem ecus (suc (suc zero)) count lt = (_, refl, refl, refl, (omega arith, (omega arith, tt)))
known_lem ecus (suc (suc (suc zero))) count lt =
    (_, refl, refl, refl, (omega arith, (omega arith, tt)))
known_lem ecus (suc (suc (suc (suc zero)))) count lt =
    (_, refl, refl, refl, (omega arith, (omega arith, tt)))
known_lem ecus (suc (suc (suc (suc (suc k))))) count lt = absurd (omega arith)

module _ {Queue : Type 0} {x : Pdu} {bytes : List ℕ} (s : State Queue) where
  route_entry-delivers :
      (k : ℕ)
      → Carries s x bytes
      → length s.ecus ≡ num_of_ecus
      → k < length pdu_descriptors
      → route_entry k x s
        ≡ done tt (record s {
          bus = latest_first (frames_to s.ecus x.id bytes (destinations k)) s.bus;
          blocks = set_block s.blocks x.payload none;
        })
  route_entry-delivers k c count lt =
      let (desc, found, full, dests, known) = known_lem s.ecus k count lt in
      rw (found, full, send_to_all-sends s desc.dest c known, ==_ne x.payload 0 c.ne_null, c.live)

  -- A data PDU with a payload of up to 64 bytes whose identifier is in the table, where the list of
  -- ECUs has its 4 entries: the bus gets a frame with its identifier and its bytes for each of the
  -- destinations in the table that is on CAN, in their order, and the payload is freed.
  pub route_data-delivers :
      Carries s x bytes
      → length s.ecus ≡ num_of_ecus
      → clear_bit x.id type_data_bit < length pdu_descriptors
      → route_data x s
        ≡ done tt (record s {
          bus =
              latest_first
                (frames_to s.ecus x.id bytes (destinations (clear_bit x.id type_data_bit)))
                s.bus;
          blocks = set_block s.blocks x.payload none;
        })
  unfolding route_data
  route_data-delivers = route_entry-delivers (clear_bit x.id type_data_bit)
