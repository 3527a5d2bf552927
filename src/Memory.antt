-- ===== src/Memory.antt =====
-- The store that the routing stack runs over: the structs of stack/include and modules, each in a
-- map from addresses, the allocator, and the sockets. Commands read and write it.
pub use xcan_router.Run.{
  Run, done, crash, spin, pure, then_run, ◌>>=◌, ◌>>◌, Returns, Returns-bind, Returns-mono,
  Returns-done, IfDone, IfDone-bind, IfDone-trivial, then_run_assoc,
}
use xcan_router.Prelude.{
  ℕ, ◌+◌, ◌*◌, ◌≤◌, ◌<◌, ◌≡◌, Bool, Option, none, some, List, ◌==◌, ltb, leb, if◌then◌else◌,
  get_elem?, set, take, drop, ◌++◌, length, replicate,
}
use xcan_router.Prelude.Int.{ℤ, pos}

abbrev pub Ptr : Type 0
Ptr = ℕ

abbrev pub null : Ptr
null = 0

-- `struct xcan_frame`. `data` points at the start of a buffer; `usage_count` is a pointer into a
-- buffer: its block and the offset.
pub record Frame : Type 0 where
  pub next : Ptr
  pub dev : Ptr
  pub id : ℕ
  pub flags : ℕ
  pub len : ℕ
  pub payload : Ptr
  pub usage_block : Ptr
  pub usage_offset : ℕ

-- `struct xcan_queue`
pub record Queue : Type 0 where
  pub frames : ℕ
  pub max_frames : ℕ
  pub head : Ptr
  pub tail : Ptr

-- `struct xcan_device`, with the `fd` of the `xcan_device_socketcan` around it. The four function
-- pointers are set together: `ops` names the driver, and is 0 while they are NULL.
pub record Device : Type 0 where
  pub id : ℕ
  pub name : List ℕ
  pub q_in : Ptr
  pub q_out : Ptr
  pub ops : ℕ
  pub fd : ℤ

-- What a socket carries: the fields that `struct can_frame` and `struct canfd_frame` share, and
-- the number of bytes that are written or were read.
pub record Packet : Type 0 where
  pub can_id : ℕ
  pub flags : ℕ
  pub len : ℕ
  pub content : List ℕ
  pub nbytes : ℤ

-- Addresses from `brk` on have never been handed out. `refuses` says which requests the allocator
-- refuses, by the address that it would have given. `wire` holds what was written to the sockets,
-- the latest first, `write_result n` is what the write after n others returns, and `read_result`
-- n what the read after n others leaves in its buffer; `reads` counts them.
pub record Mem : Type 0 where
  pub brk : ℕ
  pub refuses : ℕ → Bool
  pub frames : Ptr → Option Frame
  pub buffers : Ptr → Option (List ℕ)
  pub queues : Ptr → Option Queue
  pub devices : Ptr → Option Device
  pub pool : List Ptr
  pub wire : List Packet
  pub write_result : ℕ → ℤ
  pub read_result : ℕ → Packet
  pub reads : ℕ

abbrev pub Outcome : Type 0 → Type 0
Outcome A = Run Mem A

abbrev pub Cmd : Type 0 → Type 0
Cmd A = Mem → Run Mem A

-- The map `f` with the value at `p` replaced.
abbrev pub write {ℓ} : {A : Type ℓ} → (Ptr → Option A) → Ptr → Option A → Ptr → Option A
write f p v a = if a == p then v else f a

-- `*p`, where `p` must point at a live object.
abbrev pub deref : {A : Type 0} → (Mem → Ptr → Option A) → Ptr → Cmd A
deref objects p =
    λ m. if p == null then crash else elim (objects m p) [ none ↦ crash | some x ↦ done x m ]

abbrev pub load_frame : Ptr → Cmd Frame
load_frame p = deref (λ m. m.frames) p

abbrev pub load_queue : Ptr → Cmd Queue
load_queue p = deref (λ m. m.queues) p

abbrev pub load_device : Ptr → Cmd Device
load_device p = deref (λ m. m.devices) p

abbrev pub load_buffer : Ptr → Cmd (List ℕ)
load_buffer p = deref (λ m. m.buffers) p

abbrev pub put_frame : Ptr → Option Frame → Cmd (Unit {0})
put_frame p x = λ m. done tt (record m { frames = write m.frames p x })

abbrev pub put_queue : Ptr → Option Queue → Cmd (Unit {0})
put_queue p x = λ m. done tt (record m { queues = write m.queues p x })

abbrev pub put_device : Ptr → Option Device → Cmd (Unit {0})
put_device p x = λ m. done tt (record m { devices = write m.devices p x })

abbrev pub put_buffer : Ptr → Option (List ℕ) → Cmd (Unit {0})
put_buffer p x = λ m. done tt (record m { buffers = write m.buffers p x })

-- One byte of a buffer, and a store to one. Out of range is undefined behaviour.
abbrev pub load_byte : Ptr → ℕ → Cmd ℕ
load_byte p i = do b ← load_buffer p; elim (get_elem? b i) [ none ↦ λ _. crash | some v ↦ pure v ]

abbrev pub store_byte : Ptr → ℕ → ℕ → Cmd (Unit {0})
store_byte p i v = do
  b ← load_buffer p
  if ltb i (length b) then put_buffer p (some (set b i v)) else λ _. crash

-- memcpy into the start of a buffer.
abbrev pub store_bytes : Ptr → List ℕ → Cmd (Unit {0})
store_bytes p v = do
  b ← load_buffer p
  if leb (length v) (length b) then put_buffer p (some (v ++ drop (length v) b)) else λ _. crash

-- memcpy out of the start of a buffer.
abbrev pub load_bytes : Ptr → ℕ → Cmd (List ℕ)
load_bytes p n = do b ← load_buffer p; if leb n (length b) then pure (take n b) else λ _. crash

-- The fields of a struct, updated in place.
abbrev pub set_frame : Ptr → (Frame → Frame) → Cmd (Unit {0})
set_frame p g = do x ← load_frame p; put_frame p (some (g x))

abbrev pub set_queue : Ptr → (Queue → Queue) → Cmd (Unit {0})
set_queue p g = do q ← load_queue p; put_queue p (some (g q))

abbrev pub set_device : Ptr → (Device → Device) → Cmd (Unit {0})
set_device p g = do d ← load_device p; put_device p (some (g d))

-- A fresh address from the allocator, or NULL.
abbrev pub fresh_block : Cmd Ptr
fresh_block m = done (if m.refuses m.brk then null else m.brk) (record m { brk = m.brk + 1 })

-- Sizes of the structs where pointers have 8 bytes.
abbrev pub frame_size : ℕ
frame_size = 40

abbrev pub queue_size : ℕ
queue_size = 24

abbrev pub device_size : ℕ
device_size = 64

abbrev pub zero_frame : Frame
zero_frame = record {
  next = null;
  dev = null;
  id = 0;
  flags = 0;
  len = 0;
  payload = null;
  usage_block = null;
  usage_offset = 0;
}

abbrev pub zero_queue : Queue
zero_queue = record { frames = 0; max_frames = 0; head = null; tail = null }

-- `calloc(n, elem)` for a buffer of bytes and for the structs. Where the block is too small for
-- the struct it holds no object, so that an access through the pointer is a crash.
abbrev pub calloc_bytes : ℕ → ℕ → Cmd Ptr
calloc_bytes n elem = do
  p ← fresh_block
  if p == null then pure null else (put_buffer p (some (replicate (n * elem) 0)) >> pure p)

abbrev pub calloc_frame : ℕ → ℕ → Cmd Ptr
calloc_frame n elem = do
  p ← fresh_block
  if p == null
      then pure null
      else do put_frame p (if leb frame_size (n * elem) then some zero_frame else none); pure p

abbrev pub calloc_queue : ℕ → ℕ → Cmd Ptr
calloc_queue n elem = do
  p ← fresh_block
  if p == null
      then pure null
      else do put_queue p (if leb queue_size (n * elem) then some zero_queue else none); pure p

abbrev pub zero_device : Device
zero_device = record {
  id = 0;
  name = replicate 16 0;
  q_in = null;
  q_out = null;
  ops = 0;
  fd = pos 0;
}

abbrev pub calloc_device : ℕ → ℕ → Cmd Ptr
calloc_device n elem = do
  p ← fresh_block
  if p == null
      then pure null
      else do put_device p (if leb device_size (n * elem) then some zero_device else none); pure p

abbrev pub free_frame : Ptr → Cmd (Unit {0})
free_frame p = if p == null then pure tt else (load_frame p >> put_frame p none)

abbrev pub free_buffer : Ptr → Cmd (Unit {0})
free_buffer p = if p == null then pure tt else (load_buffer p >> put_buffer p none)

abbrev pub free_device : Ptr → Cmd (Unit {0})
free_device p = if p == null then pure tt else (load_device p >> put_device p none)

abbrev pub free_queue : Ptr → Cmd (Unit {0})
free_queue p = if p == null then pure tt else (load_queue p >> put_queue p none)

-- No object lives at an address that has not been handed out, and NULL never is.
pub record IsFresh (m : Mem) : Type 0 where
  pub started : 0 < m.brk
  pub no_frame : (p : Ptr) → m.brk ≤ p → m.frames p ≡ none
  pub no_buffer : (p : Ptr) → m.brk ≤ p → m.buffers p ≡ none
  pub no_queue : (p : Ptr) → m.brk ≤ p → m.queues p ≡ none
  pub no_device : (p : Ptr) → m.brk ≤ p → m.devices p ≡ none
