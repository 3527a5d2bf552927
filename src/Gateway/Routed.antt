-- ===== src/Gateway/Routed.antt =====
-- A frame through the gateway, and the PDUs that PDU_Task drops, with all that is printed.
use xcan_router.Prelude.{ℕ, ◌+◌, ◌*◌, ◌<◌, ◌≡◌, ap, false, Option, some, List, length}
use xcan_router.Run.{Run, done, then_run}
use xcan_router.Gateway.Ecu.{Pdu}
use xcan_router.Gateway.Rtos.{Rtos}
use xcan_router.Gateway.State.{State, read_bytes}
use xcan_router.Gateway.Printing.{printing_route, printing_turn}
use xcan_router.Gateway.Printed.{print_returns}
use xcan_router.Console.Serial.{Uart}
use xcan_router.Console.Lines.{second}
use xcan_router.Console.Frames.{SendStatus, label_of, pdu_line}

module _ (rtos : Rtos) (uart : Uart) (status : ℕ → Option SendStatus) where
  -- A turn on the PDU at the head of the queue starts with the printing of it.
  pub turn_prints :
      (s : State rtos.Handle) (t : uart.Line) (x : Pdu) (q : rtos.Handle) (bytes label : List ℕ)
      → rtos.receive s.pdu_queue ≡ some (x, q)
      → read_bytes x.payload x.length (record s { pdu_queue = q })
        ≡ done bytes (record s { pdu_queue = q })
      → length bytes ≡ x.length
      → label_of x.id ≡ some label
      → length label < 15 + x.length * 3
      → let line = pdu_line false label x.id x.length in
        printing_turn rtos uart status (s, t)
        ≡ printing_route rtos uart status x
            (record s { pdu_queue = q }, uart.send (second line bytes) (uart.send line t))
  unfolding printing_turn
  turn_prints s t x q bytes label got reads size named fits =
      let sq : State rtos.Handle = record s { pdu_queue = q } in
      rw (printing_turn, got)
        (ap
          (λ (o : Run (State rtos.Handle × uart.Line) (Unit {0})).
            then_run o (λ _. printing_route rtos uart status x))
          (print_returns rtos.Handle uart status x bytes label sq t reads size named fits))
