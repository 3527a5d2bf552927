-- ===== src/Stack/Kept.antt =====
-- What a new frame leaves alone: the input queues of the pool.
use xcan_router.Prelude.{
  zero, suc, ℕ, ◌+◌, ◌≤◌, ◌<◌, ◌≡◌, refl, ap, ◌∙◌, ◌≢◌, ◌⊎◌, inl, inr, true, false, Option, none,
  some, List, arith, Bool-cases, get_elem?, has,
}
use xcan_router.Memory.{Ptr, null, Queue, Device, Mem, IsFresh, crash, IfDone}
use xcan_router.Frame.{frame_alloc}
use xcan_router.Queue.Chain.{IsQueue-same}
use xcan_router.Device.{max_devices}
use xcan_router.Device.Slots.{Slot, Slots, Waiting, SlotHolds, Intake}
use xcan_router.Stack.{received_frame}
use xcan_router.Stack.Receive.{Built, built, Chain-below}
use xcan_router.Run.{IfDone-Returns, IfDone-mono}

-- The frames other than the one at `a`, and all queues, devices and slots are as before.
pub record Kept (a : Ptr) (m m' : Mem) : Type 0 where
  pub frames_same : (p : Ptr) → p ≢ a → m'.frames p ≡ m.frames p
  pub queues_same : m'.queues ≡ m.queues
  pub devices_same : m'.devices ≡ m.devices
  pub pool_same : m'.pool ≡ m.pool

pub SlotHolds-Kept :
    {a : Ptr} {m m' : Mem} (i : ℕ) (o : Option Slot) (ps : List Ptr)
    → Kept a m m'
    → has a ps ≡ false
    → SlotHolds m i o ps
    → SlotHolds m' i o ps
SlotHolds-Kept i none ps k out (e, idle) =
    (ap (λ (l : List Ptr). get_elem? l i) k.pool_same ∙ e, idle)
SlotHolds-Kept {a} i (some x) ps k out (e, p, l, (q, is)) = (
  ap (λ (l : List Ptr). get_elem? l i) k.pool_same ∙ e,
  p,
  ap (λ (g : Ptr → Option Device). g x.dev) k.devices_same ∙ l,
  (
    q,
    IsQueue-same is (ap (λ (g : Ptr → Option Queue). g x.device.q_in) k.queues_same)
        λ b i. k.frames_same b (ground arith),
  ),
)

pub Intake-Kept :
    {a : Ptr} {m m' : Mem} {s : Slots} {c : Waiting}
    → Kept a m m'
    → ((j : ℕ) → j < max_devices → has a (c j) ≡ false)
    → Intake m s c
    → Intake m' s c
Intake-Kept {s} {c} k out intake = record {
  held = λ j b. SlotHolds-Kept j (s j) (c j) k (out j b) (intake.held j b);
  own_queue = intake.own_queue;
  own_frames = intake.own_frames;
}

pub slot_below :
    {m : Mem} (a i : ℕ) (o : Option Slot) (ps : List Ptr)
    → IsFresh m
    → m.brk ≤ a
    → SlotHolds m i o ps
    → has a ps ≡ false
slot_below a i none ps fr le (e, idle) = rw (idle) refl
slot_below a i (some x) ps fr le (e, p, l, (q, is)) = Chain-below a fr le is.chain

module _ (dev can_id : ℕ) (payload : List ℕ) {m : Mem} (fr : IsFresh m) where
  -- There is no new frame, or it is built.
  abbrev pub Received : Ptr → Mem → Type 0
  Received f m' = ((f ≡ null) × Kept m.brk m m') ⊎ Built dev can_id payload m f m'

  received-Kept :
      (elem : ℕ)
      → m.refuses m.brk ≡ true
      → IfDone (λ f m'. (f ≡ null) × Kept m.brk m m') (received_frame elem dev can_id payload m)
  unfolding received_frame frame_alloc
  received-Kept elem refused = grind arith

  received-crash :
      m.refuses m.brk ≡ false
      → m.refuses (m.brk + 1) ≡ true
      → received_frame 1 dev can_id payload m ≡ crash
  unfolding received_frame frame_alloc
  received-crash given refused = grind arith

  received-elem_zero : m.refuses m.brk ≡ false → received_frame 0 dev can_id payload m ≡ crash
  unfolding received_frame frame_alloc
  received-elem_zero given = grind arith

  whole-Received : m.refuses m.brk ≡ false → IfDone Received (received_frame 1 dev can_id payload m)
  whole-Received given = elim (Bool-cases (m.refuses (m.brk + 1))) [
    | inl refused ↦ rw (received-crash given refused) tt
    | inr given' ↦
        IfDone-mono _ (received_frame 1 dev can_id payload m)
          (IfDone-Returns _ (received_frame 1 dev can_id payload m)
            (built dev can_id payload fr given given'))
          λ f m' b. inr b
  ]

  -- For a calloc that is asked for blocks of no bytes, or for whole blocks.
  pub Received-cases :
      (elem : ℕ) → elem ≤ 1 → IfDone Received (received_frame elem dev can_id payload m)
  Received-cases zero le = elim (Bool-cases (m.refuses m.brk)) [
    | inl refused ↦
        IfDone-mono _ (received_frame 0 dev can_id payload m) (received-Kept 0 refused)
          λ f m' k. inl k
    | inr given ↦ rw (received-elem_zero given) tt
  ]
  Received-cases (suc zero) le = elim (Bool-cases (m.refuses m.brk)) [
    | inl refused ↦
        IfDone-mono _ (received_frame 1 dev can_id payload m) (received-Kept 1 refused)
          λ f m' k. inl k
    | inr given ↦ whole-Received given
  ]
  Received-cases (suc (suc n)) le = absurd (omega arith)
