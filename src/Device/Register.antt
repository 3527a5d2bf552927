-- ===== src/Device/Register.antt =====
-- xcan_device_init.
use xcan_router.Memory.{Ptr, null, Device, Mem, zero_queue, Returns, IsFresh, Returns-mono, done}
use xcan_router.Prelude.Int.{pos, negsuc}
use xcan_router.Prelude.{
  ℕ, ◌+◌, ◌≤◌, ◌<◌, ◌≡◌, refl, ◌≢◌, ◌⊎◌, true, false, some, List, [], ◌++◌, arith, length,
  get_elem?, set, replicate, length-append, length-replicate, length-take_of_le, get_elem?_of_lt,
}
use xcan_router.Queue.Chain.{nil, IsQueue}
use xcan_router.Device.{device_init, strncpy, max_devices, max_device_name}

pub length-strncpy : (src : List ℕ) (n : ℕ) → length (strncpy src n) ≡ n
length-strncpy src n =
    length-take_of_le n (src ++ replicate n 0)
      (omega (arith, length-append src (replicate {A = ℕ} n 0), length-replicate {A = ℕ} n 0))

-- The device that the code registers.
abbrev pub initialised : Device → ℕ → List ℕ → Ptr → Ptr → Device
initialised d id name q_in q_out = record d {
  id = id;
  name = strncpy name max_device_name;
  q_in = q_in;
  q_out = q_out;
}

pub empty-IsQueue :
    {m : Mem} {qp : Ptr} → qp ≢ null → m.queues qp ≡ some zero_queue → IsQueue m qp zero_queue []
empty-IsQueue ne live = record {
  ne_null = ne;
  live = live;
  chain = nil;
  ends = refl;
  counts = refl;
}

module _ (dev id : ℕ) (name : List ℕ) {m : Mem} where
  -- An id beyond the slots is refused, and nothing changes.
  pub init-bad_id :
      (elem : ℕ) → max_devices ≤ id → device_init elem dev id name m ≡ done (negsuc 0) m
  unfolding device_init
  init-bad_id elem h = ground arith

  module _ {d : Device} (fr : IsFresh m) (below : id < max_devices)
      (slots : length m.pool ≡ max_devices) (ne : dev ≢ null) (live : m.devices dev ≡ some d) where
    registers :
        (old : Ptr)
        → get_elem? m.pool id ≡ some old
        → m.refuses m.brk ≡ false
        → m.refuses (m.brk + 1) ≡ false
        → Returns
            (λ r m'.
              (r ≡ pos 0)
              × (m'.devices dev ≡ some (initialised d id name m.brk (m.brk + 1)))
              × (m'.pool ≡ set m.pool id dev)
              × (m'.queues m.brk ≡ some zero_queue)
              × (m'.queues (m.brk + 1) ≡ some zero_queue))
            (device_init 1 dev id name m)
    unfolding device_init
    registers old at a b = ground (arith, fr.started)

    -- Where the device is live, the pool has its slots, the id is one of them, and a calloc that is
    -- asked for whole structs gives a block for each queue: the device gets the id, its name and
    -- two empty queues, and stands in the slot of its id.
    pub init-registers :
        m.refuses m.brk ≡ false
        → m.refuses (m.brk + 1) ≡ false
        → Returns
            (λ r m'.
              (r ≡ pos 0)
              × (m'.devices dev ≡ some (initialised d id name m.brk (m.brk + 1)))
              × (m'.pool ≡ set m.pool id dev)
              × IsQueue m' m.brk zero_queue []
              × IsQueue m' (m.brk + 1) zero_queue [])
            (device_init 1 dev id name m)
    init-registers a b =
        let (old, at) = get_elem?_of_lt m.pool id (omega arith) in
        Returns-mono _ (device_init 1 dev id name m) (registers old at a b)
          λ r m' (e, d', p, q1, q2).
            (e, d', p, empty-IsQueue (omega (arith, fr.started)) q1, empty-IsQueue (omega arith) q2)

    -- Where there is no block for one of the two queues of a live device with an id in range, the
    -- caller is told so, and neither the pool nor the queues of the others change.
    pub init-no_memory :
        (m.refuses m.brk ≡ true) ⊎ ((m.refuses m.brk ≡ false) × (m.refuses (m.brk + 1) ≡ true))
        → Returns
            (λ r m'.
              (r ≡ negsuc 0)
              × (m'.pool ≡ m.pool)
              × ((q : Ptr) → q < m.brk + 2 → m'.queues q ≡ m.queues q))
            (device_init 1 dev id name m)
    unfolding device_init
    init-no_memory a = ground (arith, fr.started, fr.no_queue m.brk)
