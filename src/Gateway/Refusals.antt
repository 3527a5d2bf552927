-- ===== src/Gateway/Refusals.antt =====
-- The PDUs that PDU_Task drops, with all that is printed.
use xcan_router.Prelude.{
  zero, suc, ℕ, ◌≤◌, ◌<◌, ◌≡◌, ◌≢◌, refl, sym, ap, subst, ◌∙◌, inl, inr, true, false, Option, none,
  some, List, [], ◌∷◌, ◌++◌, arith, ==_ne, if◌then◌else◌, Bool-cases, length, take,
  length-take_of_le,
}
use xcan_router.Run.{done, Returns}
use xcan_router.Gateway.Ecu.{Pdu, has_bit, type_data_bit, type_cmd_bit, type_fw_bit}
use xcan_router.Gateway.Rtos.{Rtos}
use xcan_router.Gateway.State.{State, set_block, read_bytes}
use xcan_router.Gateway.Intake.{IsFull, Dropped}
use xcan_router.Gateway.Printing.{
  printing_route, printing_turn, printing_to_gateway, printing_to_firmware, gateway_full,
  firmware_full,
}
use xcan_router.Console.Text.{codes}
use xcan_router.Console.Serial.{Uart, print_error, in_red}
use xcan_router.Console.Lines.{second, print_error_lem}
use xcan_router.Console.Frames.{SendStatus, label_of, pdu_line}
use xcan_router.Gateway.Routed.{turn_prints}
use xcan_router.Console.Sends.{or_nothing}

type_label :
    (id : ℕ)
    → has_bit id type_data_bit ≡ false
    → (label : List ℕ) × (label_of id ≡ some label) × (length label < 15)
type_label id no_data = elim (Bool-cases (has_bit id type_cmd_bit)) [
  | inl cmd ↦ (codes "COMMAND  ", rw (no_data, cmd) refl, omega arith)
  | inr no_cmd ↦ elim (Bool-cases (has_bit id type_fw_bit)) [
    | inl fw ↦ (codes "FIRMWARE  ", rw (no_data, no_cmd, fw) refl, omega arith)
    | inr no_fw ↦ (codes "N/A", rw (no_data, no_cmd, no_fw) refl, omega arith)
  ]
]

reads_part :
    {Queue : Type 0} (s : State Queue) (p len : ℕ) (bytes : List ℕ)
    → p ≢ 0
    → s.blocks p ≡ some bytes
    → len ≤ length bytes
    → read_bytes p len s ≡ done (take len bytes) s
reads_part s p zero bytes ne live le = refl
reads_part s p (suc len) bytes ne live le = ground (arith, ne, live)

module _ (rtos : Rtos) (uart : Uart) (status : ℕ → Option SendStatus) where
  -- What is printed where no queue takes a PDU: a text for a command and one for firmware.
  abbrev pub refusal : Pdu → uart.Line → uart.Line
  refusal x t =
      if has_bit x.id type_cmd_bit
      then uart.send (in_red gateway_full) t
      else if has_bit x.id type_fw_bit
      then uart.send (in_red firmware_full) t
      else t

  gateway_full_lem :
      (t : uart.Line)
      → print_error uart (gateway_full ++ 0 ∷ []) t ≡ done tt (uart.send (in_red gateway_full) t)
  gateway_full_lem t = print_error_lem uart gateway_full [] t refl

  firmware_full_lem :
      (t : uart.Line)
      → print_error uart (firmware_full ++ 0 ∷ []) t ≡ done tt (uart.send (in_red firmware_full) t)
  firmware_full_lem t = print_error_lem uart firmware_full [] t refl

  gateway_refuses :
      (s : State rtos.Handle) (t : uart.Line) (x : Pdu) {bytes : List ℕ}
      → x.payload ≢ 0
      → s.blocks x.payload ≡ some bytes
      → IsFull rtos s.gateway_queue
      → printing_to_gateway rtos uart status x (s, t)
        ≡ done tt (
          record s { blocks = set_block s.blocks x.payload none },
          uart.send (in_red gateway_full) t,
        )
  unfolding printing_to_gateway
  gateway_refuses s t x ne live full =
      rw
        (
          printing_to_gateway,
          rtos.send_back_none s.gateway_queue x full,
          ==_ne x.payload 0 ne,
          live,
        )
        (rw (gateway_full_lem t) refl)

  firmware_refuses :
      (s : State rtos.Handle) (t : uart.Line) (x : Pdu) {bytes : List ℕ}
      → x.payload ≢ 0
      → s.blocks x.payload ≡ some bytes
      → IsFull rtos s.fw_queue
      → printing_to_firmware rtos uart status x (s, t)
        ≡ done tt (
          record s { blocks = set_block s.blocks x.payload none },
          uart.send (in_red firmware_full) t,
        )
  unfolding printing_to_firmware
  firmware_refuses s t x ne live full =
      rw (printing_to_firmware, rtos.send_back_none s.fw_queue x full, ==_ne x.payload 0 ne, live)
        (rw (firmware_full_lem t) refl)

  route_refuses :
      (s : State rtos.Handle) (t : uart.Line) (x : Pdu) (bytes : List ℕ)
      → x.payload ≢ 0
      → s.blocks x.payload ≡ some bytes
      → has_bit x.id type_data_bit ≡ false
      → (has_bit x.id type_cmd_bit ≡ true → IsFull rtos s.gateway_queue)
      → (has_bit x.id type_cmd_bit ≡ false
          → has_bit x.id type_fw_bit ≡ true
          → IsFull rtos s.fw_queue)
      → printing_route rtos uart status x (s, t)
        ≡ done tt (record s { blocks = set_block s.blocks x.payload none }, refusal x t)
  unfolding printing_route
  route_refuses s t x bytes ne live no_data gateway fw =
      elim (Bool-cases (has_bit x.id type_cmd_bit)) [
        | inl cmd ↦ rw (no_data, cmd) (gateway_refuses s t x ne live (gateway cmd))
        | inr no_cmd ↦ elim (Bool-cases (has_bit x.id type_fw_bit)) [
          | inl is_fw ↦
              rw (no_data, no_cmd, is_fw) (firmware_refuses s t x ne live (fw no_cmd is_fw))
          | inr no_fw ↦ rw (no_data, no_cmd, no_fw, ==_ne x.payload 0 ne, live) refl
        ]
      ]

  -- A PDU without the data bit, with a live payload of at least the bytes that its length says, that
  -- the router cannot hand on, since the queue for its type is full or since it has none of the three
  -- types, is dropped, with all that DEBUG_ENABLE and the full queue make the router print. The queue
  -- has lost it, its payload is freed, and nothing else changes in the gateway. The console has the
  -- line of the PDU, its bytes, or the line again if it has none, and the text for the full queue in
  -- red, if there is one.
  pub turn-refuses :
      (s : State rtos.Handle) (t : uart.Line) (x : Pdu) (xs : List Pdu) (bytes : List ℕ)
      → rtos.contents s.pdu_queue ≡ x ∷ xs
      → x.payload ≢ 0
      → s.blocks x.payload ≡ some bytes
      → x.length ≤ length bytes
      → has_bit x.id type_data_bit ≡ false
      → (has_bit x.id type_cmd_bit ≡ true → IsFull rtos s.gateway_queue)
      → (has_bit x.id type_cmd_bit ≡ false
          → has_bit x.id type_fw_bit ≡ true
          → IsFull rtos s.fw_queue)
      → let line = pdu_line false (or_nothing (label_of x.id)) x.id x.length in
        Returns
          (λ _ (s', t').
            Dropped rtos s x xs tt s'
            × (t' ≡ refusal x (uart.send (second line (take x.length bytes)) (uart.send line t))))
          (printing_turn rtos uart status (s, t))
  turn-refuses s t x xs bytes head ne live enough no_data gateway fw =
      let (q, got, rest, _) = rtos.receive_some s.pdu_queue x xs head in
      let (label, named, short) = type_label x.id no_data in
      let part = take x.length bytes in
      let sq : State rtos.Handle = record s { pdu_queue = q } in
      let after : List ℕ → uart.Line = λ label.
        let line = pdu_line false label x.id x.length in
        uart.send (second line part) (uart.send line t) in
      subst (Returns _)
        (sym (
          turn_prints rtos uart status s t x q part label got
            (reads_part sq x.payload x.length bytes ne live enough)
            (length-take_of_le x.length bytes enough) named (omega arith)
          ∙ route_refuses sq (after label) x bytes ne live no_data gateway fw))
        ((rest, refl), ap (λ (o : Option (List ℕ)). refusal x (after (or_nothing o))) (sym named))
