-- ===== src/Gateway/Rtos.antt =====
-- What the gateway relies on of the FreeRTOS queues, which are not part of the repository.
use xcan_router.Prelude.{
  ℕ, ◌≤◌, ◌<◌, ◌≡◌, Bool, true, false, Option, none, some, List, [], ◌∷◌, ◌++◌, length,
}
use xcan_router.Gateway.Ecu.{Pdu}

-- `send_back` is xQueueSendToBack without waiting (`none` is errQUEUE_FULL), `receive` is
-- xQueueReceive (`none` where nothing comes), and `is_full` xQueueIsQueueFullFromISR. A queue of a
-- fixed length holds PDUs in the order in which they came.
pub record Rtos : Type 1 where
  pub Handle : Type 0
  pub contents : Handle → List Pdu
  pub limit : Handle → ℕ
  pub send_back : Handle → Pdu → Option Handle
  pub receive : Handle → Option (Pdu × Handle)
  pub is_full : Handle → Bool
  pub send_back_none : (q : Handle) (x : Pdu) → limit q ≤ length (contents q) → send_back q x ≡ none
  pub send_back_some :
      (q : Handle) (x : Pdu)
      → length (contents q) < limit q
      → (q' : Handle) × (send_back q x ≡ some q')
        × (contents q' ≡ contents q ++ x ∷ [])
        × (limit q' ≡ limit q)
  pub receive_none : (q : Handle) → contents q ≡ [] → receive q ≡ none
  pub receive_some :
      (q : Handle) (x : Pdu) (xs : List Pdu)
      → contents q ≡ x ∷ xs
      → (q' : Handle) × (receive q ≡ some (x, q')) × (contents q' ≡ xs) × (limit q' ≡ limit q)
  pub is_full_true : (q : Handle) → limit q ≤ length (contents q) → is_full q ≡ true
  pub is_full_false : (q : Handle) → length (contents q) < limit q → is_full q ≡ false
