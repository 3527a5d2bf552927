-- ===== src/Gateway/Intake.antt =====
-- The way of a frame into the gateway: CAN_eventHandler, and what PDU_Task does with a PDU.
use xcan_router.Prelude.{
  ℕ, ◌+◌, ◌≤◌, ◌<◌, ◌≡◌, ◌≢◌, inl, inr, true, false, none, some, List, [], ◌∷◌, ◌++◌, arith,
  Bool-cases, length, take,
}
use xcan_router.Run.{done, Returns}
use xcan_router.Gateway.Ecu.{Pdu, CanMessage, has_bit, type_data_bit, type_cmd_bit, type_fw_bit}
use xcan_router.Gateway.Rtos.{Rtos}
use xcan_router.Gateway.State.{State, set_block}
use xcan_router.Gateway.Can.{rx_complete, can_build_pdu, can_event_handler, can_filter_frame}
use xcan_router.Gateway.Routing.{route_pdu, to_gateway, to_firmware, pdu_task_turn}

module _ (rtos : Rtos) where
  -- The queue `q` has a place free, or has none.
  abbrev pub HasRoom : rtos.Handle → Type 0
  HasRoom q = length (rtos.contents q) < rtos.limit q

  abbrev pub IsFull : rtos.Handle → Type 0
  IsFull q = rtos.limit q ≤ length (rtos.contents q)

  -- The PDU that a frame becomes, with its payload at an address.
  abbrev pub pdu_of : CanMessage → ℕ → Pdu
  pdu_of f p = record { id = f.id; length = f.length; payload = p }

  -- Where the queue of PDUs has room, malloc gives memory, and the frame has the bytes that its
  -- length says, a received frame becomes a PDU at the queue's end, whose payload is a fresh block
  -- with the frame's bytes. Nothing else changes.
  pub handler-queues :
      (s : State rtos.Handle) (f : CanMessage)
      → HasRoom s.pdu_queue
      → s.refuses s.brk ≡ false
      → f.length ≤ length f.content
      → Returns
          (λ _ s'.
            (rtos.contents s'.pdu_queue ≡ rtos.contents s.pdu_queue ++ pdu_of f s.brk ∷ [])
            × (rtos.limit s'.pdu_queue ≡ rtos.limit s.pdu_queue)
            × (s' ≡ record s {
              brk = s.brk + 1;
              blocks = set_block s.blocks s.brk (some (take f.length f.content));
              pdu_queue = s'.pdu_queue;
            }))
          (can_event_handler rtos rx_complete f s)
  unfolding can_event_handler can_filter_frame can_build_pdu
  handler-queues s f room gives enough =
      let (q, sent, now, same) = rtos.send_back_some s.pdu_queue (pdu_of f s.brk) room in
      ground (arith, sent, now, same, rtos.is_full_false s.pdu_queue room)

  -- A received frame is dropped where the queue of PDUs is full, and nothing changes.
  pub handler-drops :
      (s : State rtos.Handle) (f : CanMessage)
      → IsFull s.pdu_queue
      → can_event_handler rtos rx_complete f s ≡ done tt s
  unfolding can_event_handler can_filter_frame can_build_pdu
  handler-drops s f full = ground (arith, rtos.is_full_true s.pdu_queue full)

  -- The router's turn on a command at the head of its queue, without the data bit and with the
  -- command bit: where the gateway's queue has room, the command goes to its end, its payload kept,
  -- and nothing else changes.
  pub turn-hands_over :
      (s : State rtos.Handle) (x : Pdu) (xs : List Pdu)
      → rtos.contents s.pdu_queue ≡ x ∷ xs
      → has_bit x.id type_data_bit ≡ false
      → has_bit x.id type_cmd_bit ≡ true
      → HasRoom s.gateway_queue
      → Returns
          (λ _ s'.
            (rtos.contents s'.pdu_queue ≡ xs)
            × (rtos.contents s'.gateway_queue ≡ rtos.contents s.gateway_queue ++ x ∷ [])
            × (s' ≡ record s { pdu_queue = s'.pdu_queue; gateway_queue = s'.gateway_queue }))
          (pdu_task_turn rtos s)
  unfolding pdu_task_turn route_pdu to_gateway
  turn-hands_over s x xs head no_data cmd room =
      let (q, got, rest, _) = rtos.receive_some s.pdu_queue x xs head in
      let (q', sent, now, _) = rtos.send_back_some s.gateway_queue x room in
      ground (arith, got, rest, no_data, cmd, sent, now)

  -- What is left of a PDU that the router drops: the queue has lost it and its payload is free.
  abbrev pub Dropped : State rtos.Handle → Pdu → List Pdu → Unit {0} → State rtos.Handle → Type 0
  Dropped s x xs _ s' =
      (rtos.contents s'.pdu_queue ≡ xs)
      × (s' ≡ record s { pdu_queue = s'.pdu_queue; blocks = set_block s.blocks x.payload none })

  -- A PDU with a live payload that the router cannot hand on, since the queue for its type is full
  -- or since it has none of the three types, is dropped, its payload is freed, and nothing else
  -- changes.
  pub turn-drops :
      (s : State rtos.Handle) (x : Pdu) (xs : List Pdu) (bytes : List ℕ)
      → rtos.contents s.pdu_queue ≡ x ∷ xs
      → x.payload ≢ 0
      → s.blocks x.payload ≡ some bytes
      → has_bit x.id type_data_bit ≡ false
      → (has_bit x.id type_cmd_bit ≡ true → IsFull s.gateway_queue)
      → (has_bit x.id type_cmd_bit ≡ false → has_bit x.id type_fw_bit ≡ true → IsFull s.fw_queue)
      → Returns (Dropped s x xs) (pdu_task_turn rtos s)
  unfolding pdu_task_turn route_pdu to_gateway to_firmware
  turn-drops s x xs bytes head ne live no_data gateway_full fw_full =
      let (q, got, rest, _) = rtos.receive_some s.pdu_queue x xs head in
      elim (Bool-cases (has_bit x.id type_cmd_bit)) [
        | inl cmd ↦ ground (
          arith,
          got,
          rest,
          ne,
          live,
          no_data,
          cmd,
          rtos.send_back_none s.gateway_queue x (gateway_full cmd),
        )
        | inr no_cmd ↦ elim (Bool-cases (has_bit x.id type_fw_bit)) [
          | inl fw ↦ ground (
            arith,
            got,
            rest,
            ne,
            live,
            no_data,
            no_cmd,
            fw,
            rtos.send_back_none s.fw_queue x (fw_full no_cmd fw),
          )
          | inr no_fw ↦ ground (arith, got, rest, ne, live, no_data, no_cmd, no_fw)
        ]
      ]
