-- ===== src/Example/Devices.antt =====
-- What is there once the example has registered its devices.
use xcan_router.Prelude.{
  ℕ, ◌+◌, ◌<◌, ◌≡◌, ◌≢◌, Bool, false, some, List, arith, length, set, get_elem?_of_lt,
}
use xcan_router.Prelude.Int.{ℤ, is_minus_one, pos}
use xcan_router.Memory.{Ptr, Mem, zero_queue, IsFresh, Returns}
use xcan_router.Device.{device_init, max_devices}
use xcan_router.SocketCan.{CanApi, socketcan_create}
use xcan_router.SocketCan.Create.{created, bound_socket}

-- A registration that succeeded: the device and its queues are at the next three addresses, and
-- what was there before is as it was.
pub record Registered (opened id : ℕ) (name : List ℕ) (m : Mem) (p : Ptr) (m' : Mem) : Type 0 where
  pub at_brk : p ≡ m.brk
  pub brk : m'.brk ≡ m.brk + 3
  pub refuses : m'.refuses ≡ m.refuses
  pub device : m'.devices m.brk ≡ some (created opened id name m.brk)
  pub q_in : m'.queues (m.brk + 1) ≡ some zero_queue
  pub q_out : m'.queues (m.brk + 2) ≡ some zero_queue
  pub pool : m'.pool ≡ set m.pool id m.brk
  pub devices_same : (a : Ptr) → a ≢ m.brk → m'.devices a ≡ m.devices a
  pub queues_same : (a : Ptr) → a < m.brk → m'.queues a ≡ m.queues a
  pub fresh : IsFresh m'

module _ (api : CanApi) (opened : ℕ) (bound : ℤ) (id : ℕ) (name : List ℕ) {m : Mem} (fr : IsFresh m)
    (short : length name < api.ifname_size) (a : m.refuses m.brk ≡ false) where
  pub registered :
      (debug : Bool)
      → length m.pool ≡ max_devices
      → id < max_devices
      → is_minus_one bound ≡ false
      → m.refuses (m.brk + 1) ≡ false
      → m.refuses (m.brk + 2) ≡ false
      → Returns
          (Registered opened id name m)
          (socketcan_create api debug 1 (pos opened) bound id name m)
  unfolding device_init
  registered debug slots below bind b c =
      let (old, at) = get_elem?_of_lt m.pool id (omega arith) in
      rw (bound_socket api opened bound id name fr short a debug bind) (ground (arith, fr.started))
