-- ===== src/SocketCan/Polling.antt =====
-- Polls of the driver's devices and ticks in any order.
use xcan_router.Prelude.{ℕ, ◌+◌, ◌<◌, ◌≡◌, Bool, some}
use xcan_router.Prelude.Int.{ℤ}
use xcan_router.Memory.{Mem, done}
use xcan_router.Device.{max_devices}
use xcan_router.Device.Slots.{Slot, Slots}
use xcan_router.SocketCan.{CanApi, prv_poll, socketcan_driver}
use xcan_router.Stack.{stack_tick}
use xcan_router.Stack.Intake.{HasCount}

-- Memory once a frame was read from the socket.
abbrev pub frame_read : Mem → Mem
frame_read m = record m { reads = m.reads + 1 }

module _ (api : CanApi) (debug : Bool) (s : Slots) (elem : ℕ) where
  -- A device of the pool is polled, or a tick comes to its end.
  pub data Step (m m' : Mem) : Type 0 where
    poll :
        (i : ℕ) (x : Slot) (score r : ℤ)
        → i < max_devices
        → s i ≡ some x
        → HasCount m x.device.q_in
        → prv_poll api elem x.dev score m ≡ done r m'
        → Step m m'
    tick : stack_tick (socketcan_driver api debug) m ≡ done tt m' → Step m m'

  pub data Steps (m : Mem) : Mem → Type 0 where
    start : Steps m m
    further : {m1 m2 : Mem} → Steps m m1 → Step m1 m2 → Steps m m2
