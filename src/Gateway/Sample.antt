-- ===== src/Gateway/Sample.antt =====
-- A small state of the gateway for the examples.
use xcan_router.Prelude.{
  ℕ, ◌≤◌, ◌<◌, ◌≡◌, refl, ap, true, false, Option, none, some, List, [], ◌∷◌, ◌++◌, arith, ltb, leb,
  ◌==◌, if◌then◌else◌, length,
}
use xcan_router.Gateway.Ecu.{Ecu, Pdu}
use xcan_router.Gateway.Rtos.{Rtos}
use xcan_router.Gateway.State.{State}
use xcan_router.Gateway.Tables.{ecu_list}

-- A queue of FreeRTOS as a list with a limit.
pub record Bounded : Type 0 where
  pub limit : ℕ
  pub items : List Pdu

abbrev pub send_back : Bounded → Pdu → Option Bounded
send_back q x =
    if ltb (length q.items) q.limit then some (record q { items = q.items ++ x ∷ [] }) else none

abbrev pub pop : ℕ → List Pdu → Option (Pdu × Bounded)
pop limit [] = none
pop limit (x ∷ xs) = some (x, record { limit = limit; items = xs })

pub send_back-room :
    (q : Bounded) (x : Pdu)
    → length q.items < q.limit
    → send_back q x ≡ some (record q { items = q.items ++ x ∷ [] })
send_back-room q x lt = ground arith

pub send_back-full : (q : Bounded) (x : Pdu) → q.limit ≤ length q.items → send_back q x ≡ none
send_back-full q x le = ground arith

pub leb-full : (q : Bounded) → q.limit ≤ length q.items → leb q.limit (length q.items) ≡ true
leb-full q le = ground arith

pub leb-room : (q : Bounded) → length q.items < q.limit → leb q.limit (length q.items) ≡ false
leb-room q lt = ground arith

abbrev pub rtos : Rtos
rtos = record {
  Handle = Bounded;
  contents = λ q. q.items;
  limit = λ q. q.limit;
  send_back = send_back;
  receive = λ q. pop q.limit q.items;
  is_full = λ q. leb q.limit (length q.items);
  send_back_none = send_back-full;
  send_back_some =
      λ q x lt. (record q { items = q.items ++ x ∷ [] }, send_back-room q x lt, refl, refl);
  receive_none = λ q e. ap (pop q.limit) e;
  receive_some =
      λ q x xs e. (record { limit = q.limit; items = xs }, ap (pop q.limit) e, refl, refl);
  is_full_true = leb-full;
  is_full_false = leb-room;
}

abbrev pub empty : ℕ → Bounded
empty n = record { limit = n; items = [] }

-- The tables as they stand in the source, empty queues, and a heap with one block.
abbrev pub start : State Bounded
start = record {
  brk = 2;
  refuses = λ _. false;
  blocks = λ p. if p == 1 then some (4 ∷ 3 ∷ []) else none;
  pdu_queue = empty 5;
  gateway_queue = empty 10;
  fw_queue = empty 10;
  ecus = ecu_list;
  bus = [];
}

abbrev pub cluster : Ecu
cluster = record {
  status = 0;
  endianness = 0;
  security = 0;
  protocol = 2;
  instance_no = 2;
  fw_version = 1;
  reserved = 0;
}
