-- ===== src/Boot/Order.antt =====
-- The order of the calls while the gateway starts.
use xcan_router.Prelude.{ℕ, zero, suc, ◌≤◌, ◌≡◌, refl, ◌⊎◌, inl, inr, List, [], ◌∷◌, arith}
use xcan_router.Run.{Returns}
use xcan_router.Gateway.Ecu.{type_data_bit, type_cmd_bit, type_fw_bit}
use xcan_router.Gateway.Card.{Fat}
use xcan_router.Security.Driver.{She}
use xcan_router.Boot.{
  pdu_router, CanInstance, Call, clock_init, clock_update, pins_init, pin_mux, write_pin, wait,
  uart_init, fatfs_init, create_task, start_scheduler, can_init, can_install, can_config,
  can_filter, can_receive, Kernel, rx_mb_data, rx_mb_cmd, rx_mb_fw, Board, can_initialise,
}

abbrev pub Occurs : Call → List Call → Type 0
Occurs c [] = ⊥
Occurs c (x ∷ xs) = (x ≡ c) ⊎ Occurs c xs

-- What has to come before the reception in a mailbox: its interface has its event handler, the
-- mailbox is configured and filtered with the same mask, and the router's task has its queues.
abbrev pub Prepared : ℕ → ℕ → List Call → Type 0
Prepared i mb calls =
    Occurs (create_task pdu_router) calls
    × Occurs (can_install i) calls
    × ((bit : ℕ) × Occurs (can_config i mb bit) calls × Occurs (can_filter i mb bit) calls)

-- Each reception is prepared by the calls before it.
abbrev pub Ordered : List Call → Type 0
Ordered [] = Unit
Ordered (can_receive i mb ∷ calls) = Prepared i mb calls × Ordered calls
Ordered (clock_init ∷ calls) = Ordered calls
Ordered (clock_update ∷ calls) = Ordered calls
Ordered (pins_init ∷ calls) = Ordered calls
Ordered (pin_mux ∷ calls) = Ordered calls
Ordered (write_pin pin level ∷ calls) = Ordered calls
Ordered (wait ms ∷ calls) = Ordered calls
Ordered (uart_init ∷ calls) = Ordered calls
Ordered (fatfs_init ∷ calls) = Ordered calls
Ordered (create_task task ∷ calls) = Ordered calls
Ordered (start_scheduler ∷ calls) = Ordered calls
Ordered (can_init i ∷ calls) = Ordered calls
Ordered (can_install i ∷ calls) = Ordered calls
Ordered (can_config i mb bit ∷ calls) = Ordered calls
Ordered (can_filter i mb bit ∷ calls) = Ordered calls

-- The calls of CAN_initialise, before and with the receptions.
abbrev set_up : ℕ → List Call → List Call
set_up i calls =
    can_filter i rx_mb_fw type_fw_bit
    ∷ can_filter i rx_mb_cmd type_cmd_bit
    ∷ can_filter i rx_mb_data type_data_bit
    ∷ can_config i rx_mb_fw type_fw_bit
    ∷ can_config i rx_mb_cmd type_cmd_bit
    ∷ can_config i rx_mb_data type_data_bit
    ∷ can_install i
    ∷ can_init i
    ∷ calls

abbrev pub received : ℕ → List Call → List Call
received i calls =
    can_receive i rx_mb_fw ∷ can_receive i rx_mb_cmd ∷ can_receive i rx_mb_data ∷ set_up i calls

pub received_later :
    (i : ℕ) (c : Call) (calls : List Call) → Occurs c calls → Occurs c (received i calls)
received_later i c calls o = inr (inr (inr (inr (inr (inr (inr (inr (inr (inr (inr o))))))))))

-- CAN_initialise starts the reception in each of the three mailboxes.
pub receives :
    (i mb : ℕ) (calls : List Call) → 1 ≤ mb → mb ≤ 3 → Occurs (can_receive i mb) (received i calls)
receives i zero calls ge le = absurd (omega arith)
receives i (suc zero) calls ge le = inr (inr (inl refl))
receives i (suc (suc zero)) calls ge le = inr (inl refl)
receives i (suc (suc (suc zero))) calls ge le = inl refl
receives i (suc (suc (suc (suc mb)))) calls ge le = absurd (omega arith)

module _ (i : ℕ) (calls : List Call) (created : Occurs (create_task pdu_router) calls) where
  router_created : Occurs (create_task pdu_router) (set_up i calls)
  router_created = inr (inr (inr (inr (inr (inr (inr (inr created)))))))

  installed : Occurs (can_install i) (set_up i calls)
  installed = inr (inr (inr (inr (inr (inr (inl refl))))))

  data-Prepared : Prepared i rx_mb_data (set_up i calls)
  data-Prepared = (
    router_created,
    installed,
    (type_data_bit, inr (inr (inr (inr (inr (inl refl))))), inr (inr (inl refl))),
  )

  cmd-Prepared : Prepared i rx_mb_cmd (set_up i calls)
  cmd-Prepared =
      (router_created, installed, (type_cmd_bit, inr (inr (inr (inr (inl refl)))), inr (inl refl)))

  fw-Prepared : Prepared i rx_mb_fw (set_up i calls)
  fw-Prepared = (router_created, installed, (type_fw_bit, inr (inr (inr (inl refl))), inl refl))

  later : (mb : ℕ) (c : Call) (cs : List Call) → Prepared i mb cs → Prepared i mb (c ∷ cs)
  later mb c cs (r, k, (b, f, g)) = (inr r, inr k, (b, inr f, inr g))

  pub received-Ordered : Ordered calls → Ordered (received i calls)
  received-Ordered ordered =
      let cs = set_up i calls in
      let cs' = can_receive i rx_mb_data ∷ cs in
      (
        later rx_mb_fw (can_receive i rx_mb_cmd) cs'
            (later rx_mb_fw (can_receive i rx_mb_data) cs fw-Prepared),
        (later rx_mb_cmd (can_receive i rx_mb_data) cs cmd-Prepared, (data-Prepared, ordered)),
      )

module _ (she : She) (fat : Fat) (kernel : Kernel fat) where
  -- From a state in which each reception was prepared and the router's task created, CAN_initialise
  -- of any interface comes to such a state: each mailbox is configured and filtered, with the same
  -- mask, and the event handler installed, before its reception starts. It writes no queue, and
  -- leaves the security module and the card alone.
  pub can_initialise-Ordered :
      (i : CanInstance) (b : Board she fat kernel)
      → Ordered b.calls
      → Occurs (create_task pdu_router) b.calls
      → Returns
          (λ _ b'.
            Ordered b'.calls
            × Occurs (create_task pdu_router) b'.calls
            × Occurs (can_receive i.index rx_mb_data) b'.calls
            × Occurs (can_receive i.index rx_mb_cmd) b'.calls
            × Occurs (can_receive i.index rx_mb_fw) b'.calls
            × (b' ≡ record b { calls = b'.calls; can_ip_type = i.ip_type }))
          (can_initialise she fat kernel i b)
  unfolding can_initialise
  can_initialise-Ordered i b ordered created = (
    received-Ordered i.index b.calls created ordered,
    inr (inr (inr (router_created i.index b.calls created))),
    inr (inr (inl refl)),
    inr (inl refl),
    inl refl,
    refl,
  )
