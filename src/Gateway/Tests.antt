-- ===== src/Gateway/Tests.antt =====
-- The gateway on a small state.
use xcan_router.Prelude.{
  length-replicate, ℕ, ◌≡◌, refl, false, Option, none, some, List, [], ◌∷◌, arith, set, replicate,
}
use xcan_router.Run.{done, Returns}
use xcan_router.Gateway.Ecu.{Ecu, Pdu, CanMessage}
use xcan_router.Gateway.State.{State, set_block}
use xcan_router.Gateway.Tables.{ecu_list}
use xcan_router.Gateway.Can.{rx_complete, can_filter_frame, can_build_pdu, can_event_handler}
use xcan_router.Gateway.Control.{gateway_task_turn, heartbeat_turn}
use xcan_router.Gateway.Deliver.{latest_first}
use xcan_router.Gateway.Intake.{Dropped, pdu_of}
use xcan_router.Gateway.Status.{requests, heartbeat-requests, turn-sets_status}
use xcan_router.Gateway.Ownership.{count}
use xcan_router.Gateway.Interleaving.{Steps, here, then_step, interrupt, payload-owned}
use xcan_router.Gateway.Printing.{printing_turn}
use xcan_router.Gateway.Refusals.{refusal, turn-refuses}
use xcan_router.Console.Serial.{Uart}
use xcan_router.Console.Text.{codes}
use xcan_router.Console.Lines.{second}
use xcan_router.Console.Frames.{SendStatus, pdu_line}
use xcan_router.Gateway.Sample.{Bounded, rtos, start, cluster}

-- The identifier 0x10000001 is that of the engine's temperature.
abbrev temperature : CanMessage
temperature = record { id = 0x10000001; length = 2; content = 40 ∷ 41 ∷ 0 ∷ [] }

-- A console that keeps the texts, the last one first.
abbrev line : Uart
line = record {
  Line = List (List ℕ);
  send = λ text t. text ∷ t;
  fresh = λ n. replicate n 0xAA;
  length_fresh = λ n. length-replicate n 0xAA;
}

abbrev all_sent : ℕ → Option SendStatus
all_sent n = none

-- A status response of the cluster, and a PDU of no type.
abbrev response : Pdu
response = record { id = 0x08000002; length = 2; payload = 1 }

abbrev untyped : Pdu
untyped = record { id = 7; length = 2; payload = 1 }

abbrev routing : Pdu → State Bounded
routing x = record start { pdu_queue = record { limit = 5; items = x ∷ [] } }

turn-refuses_example :
    Returns
      (λ _ (s', t').
        Dropped rtos (routing untyped) untyped [] tt s'
        × (t'
            ≡ refusal rtos line all_sent untyped (
                second (pdu_line false (codes "N/A") 7 2) (4 ∷ 3 ∷ [])
                ∷ pdu_line false (codes "N/A") 7 2
                ∷ [])))
      (printing_turn rtos line all_sent (routing untyped, []))
turn-refuses_example =
    turn-refuses rtos line all_sent (routing untyped) [] untyped [] (4 ∷ 3 ∷ []) refl (omega arith)
      refl (omega arith) refl (λ e. ground arith) (λ _ e. ground arith)

heartbeat-requests_example :
    heartbeat_turn start ≡ done tt (record start { bus = latest_first (requests 0 ecu_list) [] })
heartbeat-requests_example = heartbeat-requests start refl

abbrev nothing_decoded : List ℕ → Ecu
nothing_decoded bytes = record {
  status = 0;
  endianness = 0;
  security = 0;
  protocol = 0;
  instance_no = 0;
  fw_version = 0;
  reserved = 0;
}

abbrev answered : State Bounded
answered = record start { gateway_queue = record { limit = 10; items = response ∷ [] } }

turn-sets_status_example :
    Returns
      (λ _ s'.
        (s'.gateway_queue.items ≡ [])
        × (s' ≡ record answered {
          blocks = set_block start.blocks 1 none;
          gateway_queue = s'.gateway_queue;
          ecus = set ecu_list 2 (record cluster { status = 3 });
        }))
      (gateway_task_turn nothing_decoded rtos answered)
turn-sets_status_example =
    turn-sets_status nothing_decoded rtos answered response [] cluster 3 [] refl refl (omega arith)
      refl refl

-- The state after the frame has come in.
abbrev filled : State Bounded
filled = record start {
  brk = 3;
  blocks = set_block start.blocks 2 (some (40 ∷ 41 ∷ []));
  pdu_queue = record { limit = 5; items = pdu_of rtos temperature 2 ∷ [] };
}

filled-reached : Steps rtos nothing_decoded start filled
unfolding can_event_handler can_filter_frame can_build_pdu
filled-reached = then_step here (interrupt rx_complete temperature refl)

payload-owned_example :
    ((bytes : List ℕ) × (filled.blocks 2 ≡ some bytes))
    × (count 2 [] ≡ 0)
    × (count 2 [] ≡ 0)
    × (count 2 [] ≡ 0)
payload-owned_example =
    payload-owned rtos nothing_decoded start filled (pdu_of rtos temperature 2) [] refl refl refl
      (λ a le. ground arith) filled-reached refl (omega arith)
