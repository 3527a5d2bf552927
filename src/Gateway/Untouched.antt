-- ===== src/Gateway/Untouched.antt =====
-- What sending and parsing leave alone: the heap and the queues.
use xcan_router.Prelude.{ℕ, zero, suc, ◌+◌, ◌≡◌, refl, ◌∙◌, List, [], ◌∷◌, arith}
use xcan_router.Run.{IfDone-mono, IfDone, IfDone-bind}
use xcan_router.Gateway.Ecu.{ecu_id_of, Ecu, Pdu}
use xcan_router.Gateway.State.{State, load, byte_at}
use xcan_router.Gateway.Can.{can_send_frame}
use xcan_router.Gateway.Send.{ecu_send_pdu, ecu_send_command}
use xcan_router.Gateway.Routing.{send_to_all}
use xcan_router.Gateway.Control.{parse_cmd, gw_parse_pdu, heartbeat_ecu, heartbeat_from}

-- What sending leaves alone.
pub record Untouched {Queue : Type 0} (s s' : State Queue) : Type 0 where
  pub brk_same : s'.brk ≡ s.brk
  pub blocks_same : s'.blocks ≡ s.blocks
  pub pdu_same : s'.pdu_queue ≡ s.pdu_queue
  pub gateway_same : s'.gateway_queue ≡ s.gateway_queue
  pub fw_same : s'.fw_queue ≡ s.fw_queue

module _ {Queue : Type 0} where
  pub Untouched-refl : (s : State Queue) → Untouched s s
  Untouched-refl s = record {
    brk_same = refl;
    blocks_same = refl;
    pdu_same = refl;
    gateway_same = refl;
    fw_same = refl;
  }

  Untouched-trans : {s t u : State Queue} → Untouched s t → Untouched t u → Untouched s u
  Untouched-trans a b = record {
    brk_same = b.brk_same ∙ a.brk_same;
    blocks_same = b.blocks_same ∙ a.blocks_same;
    pdu_same = b.pdu_same ∙ a.pdu_same;
    gateway_same = b.gateway_same ∙ a.gateway_same;
    fw_same = b.fw_same ∙ a.fw_same;
  }

  ecu_send_pdu-Untouched :
      (d : ℕ) (x : Pdu) (s : State Queue) → IfDone (λ _ s'. Untouched s s') (ecu_send_pdu d x s)
  unfolding ecu_send_pdu can_send_frame
  ecu_send_pdu-Untouched d x s = ground arith

  pub send_to_all-Untouched :
      (n : ℕ) (ds : List ℕ) (x : Pdu) (s t : State Queue)
      → Untouched s t
      → IfDone (λ _ s'. Untouched s s') (send_to_all n ds x t)
  unfolding send_to_all
  send_to_all-Untouched zero ds x s t u = u
  send_to_all-Untouched (suc n) [] x s t u = tt
  send_to_all-Untouched (suc n) (d ∷ ds) x s t u =
      IfDone-bind _ (λ _. send_to_all n ds x) (ecu_send_pdu d x t) (ecu_send_pdu-Untouched d x t)
        λ _ v w. send_to_all-Untouched n ds x s v (Untouched-trans u w)

  heartbeat_ecu-Untouched :
      (i : ℕ) (s : State Queue) → IfDone (λ _ s'. Untouched s s') (heartbeat_ecu i s)
  unfolding ecu_send_command can_send_frame
  heartbeat_ecu-Untouched i s = ground arith

  pub heartbeat-Untouched :
      (n i : ℕ) (s t : State Queue)
      → Untouched s t
      → IfDone (λ _ s'. Untouched s s') (heartbeat_from i n t)
  unfolding heartbeat_from
  heartbeat-Untouched zero i s t u = u
  heartbeat-Untouched (suc n) i s t u =
      IfDone-bind _ (λ _. heartbeat_from (i + 1) n) (heartbeat_ecu i t)
        (heartbeat_ecu-Untouched i t)
        λ _ v w. heartbeat-Untouched n (i + 1) s v (Untouched-trans u w)

  parse_cmd-Untouched :
      (decode : List ℕ → Ecu) (id cmd : ℕ) (bytes : List ℕ) (s : State Queue)
      → IfDone (λ _ s'. Untouched s s') (parse_cmd decode id cmd bytes s)
  unfolding parse_cmd
  parse_cmd-Untouched decode id cmd bytes s = ground arith

  load-Untouched : (p : ℕ) (s : State Queue) → IfDone (λ _ s'. Untouched s s') (load p s)
  load-Untouched p s = ground arith

  byte_at-Untouched :
      (bytes : List ℕ) (i : ℕ) (s : State Queue)
      → IfDone (λ _ s'. Untouched s s') (byte_at bytes i s)
  byte_at-Untouched bytes i s = ground arith

  pub parse-Untouched :
      (decode : List ℕ → Ecu) (x : Pdu) (s : State Queue)
      → IfDone (λ _ s'. Untouched s s') (gw_parse_pdu decode x s)
  unfolding gw_parse_pdu
  parse-Untouched decode x s =
      IfDone-bind _ _ (load x.payload s) (load-Untouched x.payload s) λ bytes t u.
        IfDone-bind _ _ (byte_at bytes 0 t) (byte_at-Untouched bytes 0 t) λ cmd v w.
          IfDone-mono _ (parse_cmd decode (ecu_id_of x.id) cmd bytes v)
            (parse_cmd-Untouched decode (ecu_id_of x.id) cmd bytes v)
            λ _ z y. Untouched-trans (Untouched-trans u w) y
