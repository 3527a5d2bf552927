-- ===== src/Gateway/Printed.antt =====
-- One turn of PDU_Task with all that it prints.
use xcan_router.Prelude.{
  ℕ, ◌+◌, ◌*◌, ◌≤◌, ◌<◌, ◌≡◌, refl, sym, ap, subst, ◌∙◌, inl, inr, true, false, Option, none, some,
  List, [], ◌∷◌, arith, ◌==◌, ==_ne, Bool-cases, length, get_elem?, get_elem?_of_lt, take_all,
}
use xcan_router.Run.{Run, then_run, done, Returns, Returns-bind, Returns-mono}
use xcan_router.Gateway.Ecu.{
  Ecu, Pdu, has_bit, clear_bit, ecu_id_of, type_data_bit, protocol_can, protocol_lin,
}
use xcan_router.Gateway.State.{State, Sent, load_ecu, read_bytes, set_block}
use xcan_router.Gateway.Tables.{pdu_descriptors, num_of_ecus}
use xcan_router.Gateway.Routing.{pdu_discard}
use xcan_router.Gateway.Deliver.{
  Carries, Known, frame_to, frame_for, frames_to, latest_first, latest_first-append, destinations,
  reads-bytes, known_lem,
}
use xcan_router.Gateway.Printing.{
  beside, on_gateway, printing_send, printing_send_to, printing_send_pdu, printing_send_to_all,
  printing_route_entry, printing_route_data, printing_pdu,
}
use xcan_router.Console.Serial.{Uart}
use xcan_router.Console.Frames.{SendStatus, label_of, pdu_labels, pdu_line}
use xcan_router.Console.Labels.{label_lem, short_lem}
use xcan_router.Console.Lines.{second}
use xcan_router.Console.Printed.{print_pdu-prints}
use xcan_router.Console.Sends.{ReportFits, send_reported_iff, on_bus}

-- The interfaces of the ECUs are numbered with one digit.
abbrev pub Numbered : List Ecu → Type 0
Numbered ecus = (i : ℕ) (e : Ecu) → get_elem? ecus i ≡ some e → e.instance_no < 10

data_id :
    (id : ℕ) → has_bit id type_data_bit ≡ true → clear_bit id type_data_bit < 5 → ecu_id_of id < 5
data_id id is lt = grind arith

-- An identifier of the table has a label, of up to 18 characters.
pub data_label :
    (id : ℕ)
    → has_bit id type_data_bit ≡ true
    → clear_bit id type_data_bit < length pdu_descriptors
    → (label : List ℕ) × (label_of id ≡ some label) × (length label ≤ 18)
data_label id is lt =
    let (label, at) = get_elem?_of_lt pdu_labels (ecu_id_of id) (data_id id is lt) in
    let named : label_of id ≡ some label = rw (is) at in
    let (short, _) = short_lem label (label_lem id label named) in (label, named, short)

report_fits :
    (id : ℕ) (bytes label : List ℕ) (st : Option SendStatus)
    → label_of id ≡ some label
    → length label ≤ 18
    → 2 ≤ length bytes
    → length bytes ≤ 33
    → ReportFits id bytes st
report_fits id bytes label none named short lo hi = (label, named, omega arith)
report_fits id bytes label (some stat) named short lo hi = hi

module _ (Queue : Type 0) (uart : Uart) (status : ℕ → Option SendStatus) where
  -- The gateway is in the state `s'`, whatever is on the console.
  abbrev pub Gateway : State Queue → Unit {0} → State Queue × uart.Line → Type 0
  Gateway s' _ (s, t) = s ≡ s'

  module _ (x : Pdu) (bytes : List ℕ) {label : List ℕ} (named : label_of x.id ≡ some label)
      (short : length label ≤ 18) (lo : 2 ≤ length bytes) (hi : length bytes ≤ 33) where
    send_returns :
        (instance_no : ℕ) (s : State Queue) (t : uart.Line)
        → instance_no < 10
        → Returns
            (Gateway (on_bus instance_no x.id bytes s))
            (printing_send Queue uart status instance_no x.id bytes (s, t))
    unfolding printing_send
    send_returns instance_no s t small =
        let st = status (length s.bus) in
        Returns-mono _ (printing_send Queue uart status instance_no x.id bytes (s, t))
          ((send_reported_iff uart instance_no x.id bytes st s t (omega arith) small).0
            (report_fits x.id bytes label st named short lo hi))
          λ _ p (e, _). e

    send_to_returns :
        (s : State Queue) (t : uart.Line) (e : Ecu)
        → Carries s x bytes
        → e.instance_no < 10
        → Returns
            (Gateway (record s { bus = latest_first (frame_for x.id bytes e) s.bus }))
            (printing_send_to Queue uart status e x (s, t))
    unfolding printing_send_to
    send_to_returns s t e c small = elim (Bool-cases (e.protocol == protocol_can)) [
      | inl can ↦ rw (can, reads-bytes s c) (send_returns e.instance_no s t small)
      | inr other ↦ elim (Bool-cases (e.protocol == protocol_lin)) [
        | inl lin ↦ rw (other, lin) refl
        | inr neither ↦ rw (other, neither) refl
      ]
    ]

    send_pdu_returns :
        (s : State Queue) (t : uart.Line) (d : ℕ)
        → Carries s x bytes
        → Numbered s.ecus
        → d < length s.ecus
        → Returns
            (Gateway (record s { bus = latest_first (frame_to s.ecus x.id bytes d) s.bus }))
            (printing_send_pdu Queue uart status d x (s, t))
    unfolding printing_send_pdu
    send_pdu_returns s t d c numbered lt =
        let (e, at) = get_elem?_of_lt s.ecus d lt in
        let loaded : load_ecu d s ≡ done e s = rw (load_ecu, at) refl in
        let opened : printing_send_pdu Queue uart status d x (s, t)
            ≡ printing_send_to Queue uart status e x (s, t) =
          ap
            (λ (o : Run (State Queue) Ecu).
              then_run (beside o t) (λ e. printing_send_to Queue uart status e x))
            loaded in
        let goal : frame_to s.ecus x.id bytes d ≡ frame_for x.id bytes e = rw (frame_to, at) refl in
        subst
          (λ (fs : List Sent).
            Returns (Gateway (record s { bus = latest_first fs s.bus }))
              (printing_send_pdu Queue uart status d x (s, t)))
          (sym goal)
          (subst
            (Returns (Gateway (record s { bus = latest_first (frame_for x.id bytes e) s.bus })))
            (sym opened) (send_to_returns s t e c (numbered d e at)))

    send_to_all_returns :
        (s : State Queue) (t : uart.Line) (dest : List ℕ)
        → Carries s x bytes
        → Numbered s.ecus
        → Known s.ecus dest
        → Returns
            (Gateway (record s { bus = latest_first (frames_to s.ecus x.id bytes dest) s.bus }))
            (printing_send_to_all Queue uart status (length dest) dest x (s, t))
    unfolding printing_send_to_all
    send_to_all_returns s t [] c numbered known = refl
    send_to_all_returns s t (d ∷ dest) c numbered (lt, known) =
        let sent = latest_first (frame_to s.ecus x.id bytes d) s.bus in
        let s1 : State Queue = record s { bus = sent } in
        let c1 : Carries s1 x bytes = record {
          ne_null = c.ne_null;
          live = c.live;
          counts = c.counts;
          fits = c.fits;
        } in
        let due = frames_to s.ecus x.id bytes (d ∷ dest) in
        let all = printing_send_to_all Queue uart status (length dest) dest x in
        Returns-bind _ (λ _. all) (printing_send_pdu Queue uart status d x (s, t))
          (send_pdu_returns s t d c numbered lt)
          λ _ (s', t') e.
            subst
              (λ (z : State Queue).
                Returns (Gateway (record s { bus = latest_first due s.bus })) (all (z, t')))
              (sym e)
              (Returns-mono _ (all (s1, t')) (send_to_all_returns s1 t' dest c1 numbered known)
                λ _ (s2, t2) e2.
                  e2
                  ∙ ap (λ (b : List Sent). record s { bus = b })
                      (latest_first-append (frame_to s.ecus x.id bytes d)
                        (frames_to s.ecus x.id bytes dest) s.bus))

    route_entry_returns :
        (k : ℕ) (s : State Queue) (t : uart.Line)
        → Carries s x bytes
        → Numbered s.ecus
        → length s.ecus ≡ num_of_ecus
        → k < length pdu_descriptors
        → Returns
            (Gateway (record s {
              bus = latest_first (frames_to s.ecus x.id bytes (destinations k)) s.bus;
              blocks = set_block s.blocks x.payload none;
            }))
            (printing_route_entry Queue uart status k x (s, t))
    route_entry_returns k s t c numbered count lt =
        let (desc, found, full, dests, known) = known_lem s.ecus k count lt in
        let free = on_gateway Queue uart status (pdu_discard x) in
        rw (printing_route_entry, found, full)
          (Returns-bind _ (λ _. free)
            (printing_send_to_all Queue uart status (length desc.dest) desc.dest x (s, t))
            (send_to_all_returns s t desc.dest c numbered known)
            λ _ (s', t') e.
              subst
                (λ (z : State Queue).
                  Returns
                    (Gateway (record s {
                      bus = latest_first (frames_to s.ecus x.id bytes desc.dest) s.bus;
                      blocks = set_block s.blocks x.payload none;
                    }))
                    (free (z, t')))
                (sym e) (rw (==_ne x.payload 0 c.ne_null, c.live) refl))

    -- Where the table has the identifier: the frames are on the buses, and the payload is freed.
    pub route_data_returns :
        (s : State Queue) (t : uart.Line)
        → Carries s x bytes
        → Numbered s.ecus
        → length s.ecus ≡ num_of_ecus
        → clear_bit x.id type_data_bit < length pdu_descriptors
        → Returns
            (Gateway (record s {
              bus =
                  latest_first
                    (frames_to s.ecus x.id bytes (destinations (clear_bit x.id type_data_bit)))
                    s.bus;
              blocks = set_block s.blocks x.payload none;
            }))
            (printing_route_data Queue uart status x (s, t))
    unfolding printing_route_data
    route_data_returns = route_entry_returns (clear_bit x.id type_data_bit)

  -- PDU_printPDU of a PDU with its bytes.
  pub print_returns :
      (x : Pdu) (bytes label : List ℕ) (s : State Queue) (t : uart.Line)
      → read_bytes x.payload x.length s ≡ done bytes s
      → length bytes ≡ x.length
      → label_of x.id ≡ some label
      → length label < 15 + x.length * 3
      → printing_pdu Queue uart status x (s, t)
        ≡ done tt (
          s,
          uart.send
              (second (pdu_line false label x.id x.length) bytes)
              (uart.send (pdu_line false label x.id x.length) t),
        )
  unfolding printing_pdu
  print_returns x bytes label s t reads size named fits =
      rw
        (
          reads,
          print_pdu-prints uart x.id x.length bytes false label t (omega (arith, size)) named fits,
          take_all x.length bytes (omega (arith, size)),
        )
        refl
