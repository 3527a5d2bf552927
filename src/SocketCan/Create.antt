-- ===== src/SocketCan/Create.antt =====
-- Creation and destruction of the driver's device.
use xcan_router.Memory.{
  Ptr, null, Device, Mem, Cmd, pure, then_run, ◌>>◌, write, set_device, zero_queue, zero_device,
  Returns, IsFresh, Returns-bind, done, crash,
}
use xcan_router.Prelude.Int.{ℤ, is_zero, is_minus_one, pos}
use xcan_router.Prelude.{
  ℕ, ◌+◌, ◌≤◌, ◌<◌, ◌≡◌, ◌≢◌, Bool, true, false, none, some, List, [], arith, if◌then◌else◌, length,
  set,
}
use xcan_router.Device.{device_init, strncpy, max_devices, max_device_name}
use xcan_router.Queue.Chain.{IsQueue, IsQueue-same}
use xcan_router.Device.Register.{init-registers, init-bad_id}
use xcan_router.SocketCan.{CanApi, socketcan_create, socketcan_destroy, socketcan_ops}

-- The destructor frees a live device. Where DEBUG is defined, as in the build file, the line that
-- it prints then reads the freed device, which is a crash.
pub destroy_lem :
    (m : Mem) (dev : Ptr) {d : Device}
    → dev ≢ null
    → m.devices dev ≡ some d
    → (socketcan_destroy true dev m ≡ crash)
      × (socketcan_destroy false dev m ≡ done tt (record m { devices = write m.devices dev none }))
unfolding socketcan_destroy
destroy_lem m dev ne live = (ground arith, ground arith)

-- The device that a successful creation leaves, its queues at the two addresses behind it.
abbrev pub created : ℕ → ℕ → List ℕ → Ptr → Device
created opened id name p = record zero_device {
  id = id;
  name = strncpy name max_device_name;
  q_in = p + 1;
  q_out = p + 1 + 1;
  ops = socketcan_ops;
  fd = pos opened;
}

-- Memory once the struct is allocated and its socket is open.
abbrev pub opened_mem : ℕ → Mem → Mem
opened_mem opened m = record m {
  brk = m.brk + 1;
  devices =
      write (write m.devices m.brk (some zero_device)) m.brk
        (some (record zero_device { fd = pos opened }));
}

-- What follows the registration.
abbrev pub finish : Bool → Ptr → ℤ → Cmd Ptr
finish debug sc r =
    if is_zero r
    then (set_device sc (λ d. record d { ops = socketcan_ops }) >> pure sc)
    else (socketcan_destroy debug sc >> pure null)

module _ (api : CanApi) (opened : ℕ) (bound : ℤ) (id : ℕ) (name : List ℕ) {m : Mem} (fr : IsFresh m)
    (short : length name < api.ifname_size) (a : m.refuses m.brk ≡ false) where
  opened-IsFresh : IsFresh (opened_mem opened m)
  opened-IsFresh = grind (arith, fr.no_frame, fr.no_buffer, fr.no_queue, fr.no_device)

  pub bound_socket :
      (debug : Bool)
      → is_minus_one bound ≡ false
      → socketcan_create api debug 1 (pos opened) bound id name m
        ≡ then_run (device_init 1 m.brk id name (opened_mem opened m)) (finish debug m.brk)
  unfolding socketcan_create
  bound_socket debug bind = ground (arith, fr.started)

  -- With an interface name that fits, a socket that opens and binds, an id in range and a calloc
  -- that is asked for whole structs and gives three: the device is in the slot of its id, with two
  -- empty queues and the driver's functions.
  pub create-registers :
      (debug : Bool)
      → length m.pool ≡ max_devices
      → id < max_devices
      → is_minus_one bound ≡ false
      → m.refuses (m.brk + 1) ≡ false
      → m.refuses (m.brk + 1 + 1) ≡ false
      → Returns
          (λ p m'.
            (p ≡ m.brk)
            × (m'.devices p ≡ some (created opened id name p))
            × (m'.pool ≡ set m.pool id p)
            × IsQueue m' (p + 1) zero_queue []
            × IsQueue m' (p + 1 + 1) zero_queue [])
          (socketcan_create api debug 1 (pos opened) bound id name m)
  create-registers debug slots below bind b c = rw (bound_socket debug bind) (
      Returns-bind _ (finish debug m.brk) (device_init 1 m.brk id name (opened_mem opened m))
        (init-registers m.brk id name {d = record zero_device { fd = pos opened }} opened-IsFresh
          below slots (omega (arith, fr.started)) (ground arith) b c)
        λ r m1 (e, live, pool, q1, q2).
          ground (arith, fr.started, IsQueue-same q1, IsQueue-same q2))

  -- An id out of range: nothing is registered. A release build frees the device, a debug build
  -- crashes in its destructor.
  pub create-bad_id :
      max_devices ≤ id
      → is_minus_one bound ≡ false
      → (socketcan_create api true 1 (pos opened) bound id name m ≡ crash)
        × Returns
            (λ p m'. (p ≡ null) × (m'.devices m.brk ≡ none) × (m'.pool ≡ m.pool))
            (socketcan_create api false 1 (pos opened) bound id name m)
  unfolding socketcan_destroy
  create-bad_id high bind = (
    rw (bound_socket true bind, init-bad_id m.brk id name {m = opened_mem opened m} 1 high)
        (ground (arith, fr.started)),
    rw (bound_socket false bind, init-bad_id m.brk id name {m = opened_mem opened m} 1 high)
        (ground (arith, fr.started)),
  )

  -- Where the interface name fits, the struct is allocated and the socket opens, but bind() fails,
  -- the caller gets NULL, and the device stays allocated without being in the pool.
  pub create-unbound :
      (debug : Bool)
      → is_minus_one bound ≡ true
      → Returns
          (λ p m'.
            (p ≡ null)
            × (m'.devices m.brk ≡ some (record zero_device { fd = pos opened }))
            × (m'.pool ≡ m.pool))
          (socketcan_create api debug 1 (pos opened) bound id name m)
  unfolding socketcan_create
  create-unbound debug bind = ground (arith, fr.started)
