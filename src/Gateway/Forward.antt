-- ===== src/Gateway/Forward.antt =====
-- A data frame on its way through the gateway, from CAN_eventHandler to the buses of its
-- destinations.
use xcan_router.Prelude.{
  ℕ, ◌≤◌, ◌<◌, ◌≡◌, refl, ap, ap₂, ◌∙◌, ◌≢◌, true, false, Option, none, List, [], ◌∷◌, ◌++◌, arith,
  length, take, length-take_of_le,
}
use xcan_router.Run.{◌>>◌, Returns, Returns-bind, Returns-mono}
use xcan_router.Gateway.Ecu.{Pdu, CanMessage, has_bit, clear_bit, type_data_bit}
use xcan_router.Gateway.Rtos.{Rtos}
use xcan_router.Gateway.State.{State, set_block}
use xcan_router.Gateway.Tables.{pdu_descriptors, num_of_ecus}
use xcan_router.Gateway.Can.{rx_complete, can_event_handler}
use xcan_router.Gateway.Routing.{route_pdu, pdu_task_turn}
use xcan_router.Gateway.Deliver.{
  Carries, frames_to, latest_first, destinations, route_data-delivers,
}
use xcan_router.Gateway.Intake.{pdu_of, handler-queues}

pub set_block_self :
    (blocks : ℕ → Option (List ℕ)) (p : ℕ) (v : Option (List ℕ)) → set_block blocks p v p ≡ v
set_block_self blocks p v = ground arith

pub set_block_back :
    (blocks : ℕ → Option (List ℕ)) (p : ℕ) (v : Option (List ℕ)) (a : ℕ)
    → blocks p ≡ none
    → set_block (set_block blocks p v) p none a ≡ blocks a
set_block_back blocks p v a fresh = ground (arith, fresh)

module _ (rtos : Rtos) where
  -- The router's turn on a data PDU at the head of its queue.
  pub turn-delivers :
      (s : State rtos.Handle) (x : Pdu) (xs : List Pdu) (bytes : List ℕ)
      → rtos.contents s.pdu_queue ≡ x ∷ xs
      → has_bit x.id type_data_bit ≡ true
      → Carries s x bytes
      → length s.ecus ≡ num_of_ecus
      → clear_bit x.id type_data_bit < length pdu_descriptors
      → Returns
          (λ _ s'.
            (rtos.contents s'.pdu_queue ≡ xs)
            × (s' ≡ record s {
              pdu_queue = s'.pdu_queue;
              bus =
                  latest_first
                    (frames_to s.ecus x.id bytes (destinations (clear_bit x.id type_data_bit)))
                    s.bus;
              blocks = set_block s.blocks x.payload none;
            }))
          (pdu_task_turn rtos s)
  unfolding pdu_task_turn route_pdu
  turn-delivers s x xs bytes head is_data c count lt =
      let (q, got, rest, _) = rtos.receive_some s.pdu_queue x xs head in
      let routed =
        route_data-delivers (record s { pdu_queue = q })
          (record { ne_null = c.ne_null; live = c.live; counts = c.counts; fits = c.fits }) count
          lt in
      rw (pdu_task_turn, got, route_pdu, is_data, routed) (rest, refl)

  -- A frame with the data bit and up to 64 bytes comes in while the queue of PDUs is empty and has
  -- a place, and the router's turn follows: the buses of the destinations in the table have a frame
  -- with its identifier and its bytes, the queue is empty again, the ECUs are as before, and no
  -- block of the heap is left behind. The table knows the identifier, the list of ECUs has its 4
  -- entries, and malloc gives a fresh block that is not null.
  pub frame-forwarded :
      (s : State rtos.Handle) (f : CanMessage)
      → rtos.contents s.pdu_queue ≡ []
      → 0 < rtos.limit s.pdu_queue
      → has_bit f.id type_data_bit ≡ true
      → clear_bit f.id type_data_bit < length pdu_descriptors
      → f.length ≤ length f.content
      → f.length ≤ 64
      → length s.ecus ≡ num_of_ecus
      → s.refuses s.brk ≡ false
      → s.brk ≢ 0
      → s.blocks s.brk ≡ none
      → Returns
          (λ _ s'.
            (s'.bus
              ≡ latest_first
                  (frames_to s.ecus f.id
                    (take f.length f.content)
                    (destinations (clear_bit f.id type_data_bit)))
                  s.bus)
            × (rtos.contents s'.pdu_queue ≡ [])
            × (s'.ecus ≡ s.ecus)
            × ((a : ℕ) → s'.blocks a ≡ s.blocks a))
          ((can_event_handler rtos rx_complete f >> pdu_task_turn rtos) s)
  frame-forwarded s f empty room is_data lt enough fits count gives ne fresh =
      Returns-bind _ (λ _. pdu_task_turn rtos) (can_event_handler rtos rx_complete f s)
        (handler-queues rtos s f (rw (empty) room) gives enough)
        λ _ m (queued, _, is).
          Returns-mono _ (pdu_task_turn rtos m)
            (turn-delivers m (pdu_of rtos f s.brk) [] (take f.length f.content)
              (queued ∙ ap (λ ys. ys ++ pdu_of rtos f s.brk ∷ []) empty) is_data
              (record {
                ne_null = ne;
                live = ap (λ t. t.blocks s.brk) is ∙ set_block_self s.blocks s.brk _;
                counts = length-take_of_le f.length f.content enough;
                fits = fits;
              })
              (ap (λ t. length t.ecus) is ∙ count) lt)
            λ _ s' (rest, after). (
              ap (λ t. t.bus) after
                  ∙ ap₂ latest_first
                      (ap
                        (λ t.
                          frames_to t f.id (take f.length f.content)
                            (destinations (clear_bit f.id type_data_bit)))
                        (ap (λ t. t.ecus) is))
                      (ap (λ t. t.bus) is),
              rest,
              ap (λ t. t.ecus) after ∙ ap (λ t. t.ecus) is,
              λ a.
                  ap (λ t. t.blocks a) after
                  ∙ ap (λ t. set_block t.blocks s.brk none a) is
                  ∙ set_block_back s.blocks s.brk _ a fresh,
            )
