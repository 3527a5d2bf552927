-- ===== src/Boot.antt =====
-- _old/Sources/main.c and the initialisers that it calls, in _old/Framework: CAN_initialise,
-- PDU_initialise, GW_initialise, SD_initialise and CONSOLE_initialise.
mod Tests
pub mod Order
pub mod Store
pub mod Ready
use xcan_router.Prelude.Int.{
  ℤ, is_pos, is_zero, is_neg, pred_ℤ, pos_part, is_minus_one, pos, negsuc,
}
use xcan_router.Prelude.{
  ℕ, zero, suc, ◌+◌, ◌-◌, ◌*◌, ◌/◌, ◌%◌, ◌^◌, ◌≤◌, ◌<◌, min, ◌≡◌, refl, sym, ap, ap₂, subst,
  fun_ext, ◌∙◌, ◌≢◌, ◌↔◌, ◌⊎◌, inl, inr, Bool, true, false, not, ◌&&◌, ◌||◌, Option, none, some,
  List, [], ◌∷◌, ◌++◌, map, arith, ltb, leb, ◌==◌, if◌then◌else◌, Bool-cases, Option-cases, ==_self,
  ==_ne, eq_of_==, ne_of_==, length, get_elem?, set, take, drop, replicate, length-append,
  length-replicate, length-set, get_elem?-set_self, get_elem?-replicate, has, length-take_of_le,
  length-drop, take-set-append, set-set, set-get_self, take-set_after, has-drop, has-take,
  get_elem?_of_lt, not-has-take, get_elem?-append, drop-replicate, set-append_last, take_all,
  take-append, drop-append, append_assoc, append_nil,
}
use xcan_router.Run.{Run, done, crash, spin, pure, ◌>>=◌, ◌>>◌}
use xcan_router.Gateway.Ecu.{type_data_bit, type_cmd_bit, type_fw_bit}
use xcan_router.Gateway.Card.{Fat, Stored, Status, success, sd_store_all}
use xcan_router.Security.Driver.{She}
use xcan_router.Security.Module.{initialise}

pub data Task : Type 0 where
  pdu_router : Task
  gateway : Task
  application : Task
  serial_console : Task

-- `can_instance_t`
pub record CanInstance : Type 0 where
  pub index : ℕ
  pub ip_type : ℕ

-- The calls of the SDK and of FreeRTOS, with the arguments that differ from call to call. A mailbox
-- is configured and filtered with a mask, which is given by the number of its one bit.
pub data Call : Type 0 where
  clock_init : Call
  clock_update : Call
  pins_init : Call
  pin_mux : Call
  write_pin : ℕ → ℕ → Call
  wait : ℕ → Call
  uart_init : Call
  fatfs_init : Call
  create_task : Task → Call
  start_scheduler : Call
  can_init : ℕ → Call
  can_install : ℕ → Call
  can_config : ℕ → ℕ → ℕ → Call
  can_filter : ℕ → ℕ → ℕ → Call
  can_receive : ℕ → ℕ → Call

-- `create` is xQueueCreate (`none` is NULL), `mount` is f_mount and whether it gives FR_OK, and
-- `can_instance` has CAN0_instance to CAN3_instance, which the SDK generates.
pub record Kernel (fat : Fat) : Type 1 where
  pub Handle : Type 0
  pub create : ℕ → Option Handle
  pub mount : fat.Disk → Bool × fat.Disk
  pub can_instance : ℕ → CanInstance

-- RX_MB_DATA, RX_MB_CMD and RX_MB_FW
abbrev pub rx_mb_data : ℕ
rx_mb_data = 1

abbrev pub rx_mb_cmd : ℕ
rx_mb_cmd = 2

abbrev pub rx_mb_fw : ℕ
rx_mb_fw = 3

-- PDU_QUEUE_SIZE, GW_QUEUE_SIZE and FW_QUEUE_SIZE
abbrev pub pdu_queue_size : ℕ
pdu_queue_size = 5

abbrev pub gw_queue_size : ℕ
gw_queue_size = 10

abbrev pub fw_queue_size : ℕ
fw_queue_size = 10

-- The calls so far, the last one first, the global variables, and the state of the security module
-- and of the SD card. A global variable that no code has written is NULL.
pub record Board (she : She) (fat : Fat) (kernel : Kernel fat) : Type 0 where
  pub calls : List Call
  pub pdu_queue : Option kernel.Handle
  pub fw_update_queue : Option kernel.Handle
  pub gateway_queue : Option kernel.Handle
  pub can_ip_type : ℕ
  pub security : she.Hw
  pub card : Stored fat

module _ (she : She) (fat : Fat) (kernel : Kernel fat) where
  abbrev pub Step : Type 0
  Step = Board she fat kernel → Run (Board she fat kernel) (Unit {0})

  abbrev pub call : Call → Step
  call c b = done tt (record b { calls = c ∷ b.calls })

  unfoldable pub can_initialise : CanInstance → Step
  can_initialise i = do
    call (can_init i.index)
    (λ b. done tt (record b { can_ip_type = i.ip_type }))
    call (can_install i.index)
    call (can_config i.index rx_mb_data type_data_bit)
    call (can_config i.index rx_mb_cmd type_cmd_bit)
    call (can_config i.index rx_mb_fw type_fw_bit)
    call (can_filter i.index rx_mb_data type_data_bit)
    call (can_filter i.index rx_mb_cmd type_cmd_bit)
    call (can_filter i.index rx_mb_fw type_fw_bit)
    call (can_receive i.index rx_mb_data)
    call (can_receive i.index rx_mb_cmd)
    call (can_receive i.index rx_mb_fw)

  unfoldable pub pdu_initialise : Step
  pdu_initialise = do
    (λ b. done tt (record b { pdu_queue = kernel.create pdu_queue_size }))
    (λ b. done tt (record b { fw_update_queue = kernel.create fw_queue_size }))
    call (create_task pdu_router)

  unfoldable pub gw_initialise : Step
  gw_initialise = do
    (λ b. done tt (record b { gateway_queue = kernel.create gw_queue_size }))
    call (create_task gateway)

  unfoldable pub console_initialise : Step
  console_initialise = do call uart_init; call (create_task serial_console)

  abbrev on_card : (Stored fat → Run (Stored fat) Status) → Step
  on_card job b = elim (job b.card) [
    | done status card ↦ done tt (record b { card = card })
    | crash ↦ crash
    | spin ↦ spin
  ]

  -- The result of SD_storeAllECU is not looked at.
  unfoldable pub sd_initialise : Step
  sd_initialise = do
    call fatfs_init
    (λ b.
        let (ok, disk) = kernel.mount b.card.disk in
        let b' = record b { card = record (b.card) { disk = disk } } in
        if ok then on_card (sd_store_all fat) b' else done tt b')

  abbrev hsm_initialise : Step
  hsm_initialise b = done tt (record b { security = initialise she b.security })

  unfoldable pub init_peripherals : Step
  init_peripherals = do
    call pins_init
    call pin_mux
    call (wait 100)
    console_initialise
    call (write_pin 12 1)
    call (write_pin 13 1)
    sd_initialise
    hsm_initialise
    can_initialise (kernel.can_instance 0)
    can_initialise (kernel.can_instance 1)
    can_initialise (kernel.can_instance 2)
    can_initialise (kernel.can_instance 3)
    call (write_pin 12 1)
    call (write_pin 13 1)

  abbrev init_clocks : Step
  init_clocks = do call clock_init; call clock_update

  -- `main` up to the scheduler. The call of GW_initialise is commented out.
  unfoldable pub main : Step
  main = do init_clocks; pdu_initialise; call (create_task application); call start_scheduler

  -- App_Task up to the loop in which it waits.
  unfoldable pub app_task : Step
  app_task = init_peripherals

  -- main, and what App_Task does then. What other tasks do while it waits in vTaskDelay is left out.
  unfoldable pub start_up : Step
  start_up = main >> app_task
