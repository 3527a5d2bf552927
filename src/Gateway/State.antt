-- ===== src/Gateway/State.antt =====
-- The state that the gateway's tasks and interrupt handlers share: the heap of payloads, the
-- queues, the ECUs, and what went out on the buses.
use xcan_router.Prelude.{
  ℕ, ◌+◌, Bool, Option, none, some, List, [], ltb, ◌==◌, if◌then◌else◌, length, get_elem?, set,
  take,
}
use xcan_router.Run.{Run, done, crash, ◌>>=◌}
use xcan_router.Gateway.Ecu.{Ecu}

-- A frame that CAN_sendFrame handed to the bus of an instance.
pub record Sent : Type 0 where
  pub instance_no : ℕ
  pub id : ℕ
  pub bytes : List ℕ

-- Addresses from `brk` on have never been handed out, and `refuses` says which requests malloc
-- refuses. `bus` has the latest frame first.
pub record State (Queue : Type 0) : Type 0 where
  pub brk : ℕ
  pub refuses : ℕ → Bool
  pub blocks : ℕ → Option (List ℕ)
  pub pdu_queue : Queue
  pub gateway_queue : Queue
  pub fw_queue : Queue
  pub ecus : List Ecu
  pub bus : List Sent

abbrev pub set_block : (ℕ → Option (List ℕ)) → ℕ → Option (List ℕ) → ℕ → Option (List ℕ)
set_block f p v a = if a == p then v else f a

-- A function of the gateway: the state goes in, and a result with the next state comes out.
abbrev pub Cmd : Type 0 → Type 0 → Type 0
Cmd Queue A = State Queue → Run (State Queue) A

-- The block at an address. An access to no live block is a crash.
abbrev pub load : {Queue : Type 0} → ℕ → Cmd Queue (List ℕ)
load p s = if p == 0 then crash else elim (s.blocks p) [ none ↦ crash | some b ↦ done b s ]

-- The `len` bytes from the start of a block, as memcpy reads them: with none to read, the address
-- is not used.
abbrev pub read_bytes : {Queue : Type 0} → ℕ → ℕ → Cmd Queue (List ℕ)
read_bytes p len s =
    if len == 0
    then done [] s
    else (load p >>= λ b. λ m. if ltb (length b) len then crash else done (take len b) m) s

-- `free`
abbrev pub free : {Queue : Type 0} → ℕ → Cmd Queue (Unit {0})
free p s = if p == 0 then done tt s else elim (s.blocks p) [
  | none ↦ crash
  | some _ ↦ done tt (record s { blocks = set_block s.blocks p none })
]

-- `malloc` and the memcpy of `bytes` into the block. The code does not test the result of malloc,
-- and a memcpy of nothing is the only one that null survives.
abbrev pub malloc_copy : {Queue : Type 0} → List ℕ → Cmd Queue ℕ
malloc_copy bytes s =
    if s.refuses s.brk
    then if length bytes == 0 then done 0 s else crash
    else done s.brk (record s { brk = s.brk + 1; blocks = set_block s.blocks s.brk (some bytes) })

abbrev pub get_state : {Queue : Type 0} → Cmd Queue (State Queue)
get_state s = done s s

-- `ecu_list[i]`
abbrev pub load_ecu : {Queue : Type 0} → ℕ → Cmd Queue Ecu
load_ecu i s = elim (get_elem? s.ecus i) [ none ↦ crash | some e ↦ done e s ]

abbrev pub store_ecu : {Queue : Type 0} → ℕ → Ecu → Cmd Queue (Unit {0})
store_ecu i e s = elim (get_elem? s.ecus i) [
  | none ↦ crash
  | some _ ↦ done tt (record s { ecus = set s.ecus i e })
]

-- A byte of a payload; beyond the block it is a crash.
abbrev pub byte_at : {Queue : Type 0} → List ℕ → ℕ → Cmd Queue ℕ
byte_at bytes i s = elim (get_elem? bytes i) [ none ↦ crash | some b ↦ done b s ]
