-- ===== src/Boot/Ready.antt =====
-- The gateway after its start.
use xcan_router.Prelude.{
  ℕ, zero, suc, ◌≤◌, ◌<◌, ◌≡◌, refl, inl, inr, none, List, [], ◌∷◌, arith, Bool-cases, length,
}
use xcan_router.Run.{done, Returns}
use xcan_router.Gateway.Card.{Fat, Stored}
use xcan_router.Security.Driver.{She}
use xcan_router.Security.Module.{initialise}
use xcan_router.Boot.{
  Task, pdu_router, application, serial_console, Call, clock_init, clock_update, pins_init, pin_mux,
  write_pin, wait, uart_init, fatfs_init, create_task, start_scheduler, can_init, can_install,
  can_config, can_filter, can_receive, Kernel, Board, pdu_queue_size, fw_queue_size, can_initialise,
  sd_initialise, on_card, start_up, main, app_task, init_peripherals, pdu_initialise,
  console_initialise,
}
use xcan_router.Boot.Order.{Occurs, Ordered, received, received_later, receives, received-Ordered}
use xcan_router.Boot.Store.{store_all}

-- The tasks, the last one first.
abbrev pub tasks_of : List Call → List Task
tasks_of [] = []
tasks_of (create_task task ∷ calls) = task ∷ tasks_of calls
tasks_of (clock_init ∷ calls) = tasks_of calls
tasks_of (clock_update ∷ calls) = tasks_of calls
tasks_of (pins_init ∷ calls) = tasks_of calls
tasks_of (pin_mux ∷ calls) = tasks_of calls
tasks_of (write_pin pin level ∷ calls) = tasks_of calls
tasks_of (wait ms ∷ calls) = tasks_of calls
tasks_of (uart_init ∷ calls) = tasks_of calls
tasks_of (fatfs_init ∷ calls) = tasks_of calls
tasks_of (start_scheduler ∷ calls) = tasks_of calls
tasks_of (can_init i ∷ calls) = tasks_of calls
tasks_of (can_install i ∷ calls) = tasks_of calls
tasks_of (can_config i mb bit ∷ calls) = tasks_of calls
tasks_of (can_filter i mb bit ∷ calls) = tasks_of calls
tasks_of (can_receive i mb ∷ calls) = tasks_of calls

module _ (she : She) (fat : Fat) (kernel : Kernel fat) where
  sd_initialise_lem :
      (b : Board she fat kernel)
      → 4 ≤ length b.card.ecus
      → (card : Stored fat) × (sd_initialise she fat kernel b
          ≡ done tt (record b { calls = fatfs_init ∷ b.calls; card = card }))
        × (card.ecus ≡ b.card.ecus)
  unfolding sd_initialise
  sd_initialise_lem b le =
      let (ok, disk) = kernel.mount b.card.disk in
      let mounted = record (b.card) { disk = disk } in
      let (status, card, stores, same) = store_all fat mounted le in
      elim (Bool-cases ok) [
        | inl e ↦ (card, rw (sd_initialise, e, on_card, stores) refl, same)
        | inr e ↦ (mounted, rw (sd_initialise, e) refl, refl)
      ]

  -- What holds when App_Task waits: the queues of the router are the ones that were created, the one
  -- of the gateway's task is NULL and that task does not exist, each of the four interfaces receives
  -- in its three mailboxes, and each reception was prepared.
  abbrev pub Running : Board she fat kernel → Type 0
  Running b =
      (b.pdu_queue ≡ kernel.create pdu_queue_size)
      × (b.fw_update_queue ≡ kernel.create fw_queue_size)
      × (b.gateway_queue ≡ none)
      × (tasks_of b.calls ≡ serial_console ∷ application ∷ pdu_router ∷ [])
      × Ordered b.calls
      × ((n mb : ℕ)
          → n < 4
          → 1 ≤ mb
          → mb ≤ 3
          → Occurs (can_receive (kernel.can_instance n).index mb) b.calls)

  -- The calls before the SD card, and before the CAN interfaces.
  abbrev first_calls : List Call
  first_calls =
      write_pin 13 1
      ∷ write_pin 12 1
      ∷ create_task serial_console
      ∷ uart_init
      ∷ wait 100
      ∷ pin_mux
      ∷ pins_init
      ∷ start_scheduler
      ∷ create_task application
      ∷ create_task pdu_router
      ∷ clock_update
      ∷ clock_init
      ∷ []

  abbrev inst : ℕ → ℕ
  inst n = (kernel.can_instance n).index

  abbrev all_received : List Call → List Call
  all_received calls =
      received (inst 3) (received (inst 2) (received (inst 1) (received (inst 0) calls)))

  all_receive :
      (n mb : ℕ) (calls : List Call)
      → n < 4
      → 1 ≤ mb
      → mb ≤ 3
      → Occurs (can_receive (inst n) mb) (all_received calls)
  all_receive zero mb calls lt ge le =
      let c = can_receive (inst 0) mb in
      let c0 = received (inst 0) calls in
      let c1 = received (inst 1) c0 in
      received_later (inst 3) c (received (inst 2) c1) (
        received_later (inst 2) c c1
          (received_later (inst 1) c c0 (receives (inst 0) mb calls ge le)))
  all_receive (suc zero) mb calls lt ge le =
      let c = can_receive (inst 1) mb in
      let c0 = received (inst 0) calls in
      let c1 = received (inst 1) c0 in
      received_later (inst 3) c (received (inst 2) c1)
        (received_later (inst 2) c c1 (receives (inst 1) mb c0 ge le))
  all_receive (suc (suc zero)) mb calls lt ge le =
      let c1 = received (inst 1) (received (inst 0) calls) in
      received_later (inst 3) (can_receive (inst 2) mb) (received (inst 2) c1)
        (receives (inst 2) mb c1 ge le)
  all_receive (suc (suc (suc zero))) mb calls lt ge le =
      receives (inst 3) mb (received (inst 2) (received (inst 1) (received (inst 0) calls))) ge le
  all_receive (suc (suc (suc (suc n)))) mb calls lt ge le = absurd (omega arith)

  all_received-Ordered :
      (calls : List Call)
      → Occurs (create_task pdu_router) calls
      → Ordered calls
      → Ordered (all_received calls)
  all_received-Ordered calls created ordered =
      let c0 = received (inst 0) calls in
      let c1 = received (inst 1) c0 in
      let c2 = received (inst 2) c1 in
      let o0 : Occurs (create_task pdu_router) c0 =
        received_later (inst 0) (create_task pdu_router) calls created in
      let o1 : Occurs (create_task pdu_router) c1 =
        received_later (inst 1) (create_task pdu_router) c0 o0 in
      let o2 : Occurs (create_task pdu_router) c2 =
        received_later (inst 2) (create_task pdu_router) c1 o1 in
      received-Ordered (inst 3) c2 o2 (
        received-Ordered (inst 2) c1 o1
          (received-Ordered (inst 1) c0 o0 (received-Ordered (inst 0) calls created ordered)))

  -- The calls of main and of App_Task up to its endless loop, without what other tasks do while it
  -- waits. From a board on which nothing was called yet, with the queue of the gateway's task NULL
  -- and a list of at least 4 ECUs, they come to an end, whatever the calls of the SD card and of
  -- the creation of queues give. The two queues of the router are what their creation gave, NULL
  -- where it failed, which nothing tests. The gateway's task and its queue are missing, and only
  -- the tasks of the router, of the application and of the console exist. Each of the four CAN
  -- interfaces receives in its three mailboxes, and each reception was prepared: the mailbox
  -- configured and filtered with the same mask, the event handler installed and the router's task
  -- created before. The security module was initialised and the ECUs are as before.
  pub start_up-Running :
      (b : Board she fat kernel)
      → b.calls ≡ []
      → b.gateway_queue ≡ none
      → 4 ≤ length b.card.ecus
      → Returns
          (λ _ b'.
            Running b' × (b'.security ≡ initialise she b.security) × (b'.card.ecus ≡ b.card.ecus))
          (start_up she fat kernel b)
  unfolding start_up main app_task init_peripherals pdu_initialise console_initialise can_initialise
  start_up-Running b fresh null enough =
      let b1 : Board she fat kernel = record b {
        calls = first_calls;
        pdu_queue = kernel.create pdu_queue_size;
        fw_update_queue = kernel.create fw_queue_size;
      } in
      let (card, mounted, same) = sd_initialise_lem b1 enough in
      let calls = fatfs_init ∷ first_calls in
      rw (fresh, mounted)
        (
          (
            refl,
            refl,
            null,
            refl,
            all_received-Ordered calls
                (inr (inr (inr (inr (inr (inr (inr (inr (inr (inr (inl refl))))))))))) tt,
            λ n mb lt ge le. inr (inr (all_receive n mb calls lt ge le)),
          ),
          refl,
          same,
        )
