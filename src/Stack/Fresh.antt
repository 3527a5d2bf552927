-- ===== src/Stack/Fresh.antt =====
-- No function of the stack touches an address that was not handed out yet.
use xcan_router.Prelude.{
  ℕ, zero, suc, ◌+◌, sym, subst, inl, inr, List, arith, ◌==◌, Bool-cases, Option-cases, get_elem?,
}
use xcan_router.Prelude.Int.{ℤ, is_zero, pred_ℤ, pos_part, pos, negsuc}
use xcan_router.Memory.{
  Ptr, null, Mem, Outcome, load_queue, load_device, IsFresh, IfDone, IfDone-bind,
}
use xcan_router.Frame.{frame_alloc, frame_discard}
use xcan_router.Queue.{enqueue, dequeue}
use xcan_router.Datalink.{datalink_receive}
use xcan_router.Device.{
  Driver, devloop_in, devloop_in_rounds, for_devices, devices_round, devices_loop_rounds,
  devices_loop, device_at, max_devices,
}
use xcan_router.Stack.{received_frame, stack_recv, stack_tick, loop_dir_in}
use xcan_router.Stack.Tick.{tick-eq-in}

abbrev Fresh : {A : Type 0} → Outcome A → Type 0
Fresh o = IfDone (λ _ m. IsFresh m) o

dequeue-IsFresh : (qp : Ptr) {m : Mem} → IsFresh m → Fresh (dequeue qp m)
unfolding dequeue
dequeue-IsFresh qp {m} fr = grind arith

load_device-IsFresh : (p : Ptr) {m : Mem} → IsFresh m → Fresh (load_device p m)
load_device-IsFresh p fr = grind arith

load_queue-IsFresh : (p : Ptr) {m : Mem} → IsFresh m → Fresh (load_queue p m)
load_queue-IsFresh p fr = grind arith

device_at-IsFresh : (i : ℕ) {m : Mem} → IsFresh m → Fresh (device_at i m)
device_at-IsFresh i {m} fr = elim (Option-cases (get_elem? m.pool i)) [
  | inl e ↦ rw (device_at, e) tt
  | inr (p, e) ↦ rw (device_at, e) fr
]

-- What is left of a round of devloop_in, once the queue is loaded.
rounds-IsFresh :
    (k : ℕ) (dev : Ptr) (score : ℤ) {m : Mem} → IsFresh m → Fresh (devloop_in_rounds k dev score m)
unfolding devloop_in_rounds datalink_receive
rounds-IsFresh zero dev score fr = tt
rounds-IsFresh (suc k) dev (negsuc n) fr = fr
rounds-IsFresh (suc k) dev (pos zero) fr = fr
rounds-IsFresh (suc k) dev (pos (suc n)) {m} fr =
    IfDone-bind _ _ (load_device dev m) (load_device-IsFresh dev fr) λ d m1 fr1.
      IfDone-bind _ _ (load_queue d.q_in m1) (load_queue-IsFresh d.q_in fr1) λ q m2 fr2.
        elim (Bool-cases (q.frames == 0)) [
          | inl e ↦ rw (e) fr2
          | inr e ↦ rw (e) (
              IfDone-bind _ _ (dequeue d.q_in m2) (dequeue-IsFresh d.q_in fr2) λ f m3 fr3.
                elim (Bool-cases (f == null)) [
                  | inl e' ↦ rw (e') (rounds-IsFresh k dev (pos (suc n)) fr3)
                  | inr e' ↦ rw (e') (rounds-IsFresh k dev (pos n) fr3)
                ])
        ]

devloop_in-IsFresh : (dev : Ptr) (score : ℤ) {m : Mem} → IsFresh m → Fresh (devloop_in dev score m)
unfolding devloop_in
devloop_in-IsFresh dev score {m} fr = elim (Bool-cases (dev == null)) [
  | inl e ↦ rw (devloop_in, e) fr
  | inr e ↦ rw (devloop_in, e) (rounds-IsFresh (suc (pos_part score)) dev score fr)
]

for_devices-IsFresh :
    (k i : ℕ) (score : ℤ) {m : Mem} → IsFresh m → Fresh (for_devices devloop_in k i score m)
unfolding for_devices
for_devices-IsFresh zero i score fr = fr
for_devices-IsFresh (suc k) i score {m} fr =
    IfDone-bind _ _ (device_at i m) (device_at-IsFresh i fr) λ dev m1 fr1.
      IfDone-bind _ _ (devloop_in dev score m1) (devloop_in-IsFresh dev score fr1)
        λ r m2 fr2. for_devices-IsFresh k (i + 1) r fr2

pub received_frame-IsFresh :
    (elem dev can_id : ℕ) (payload : List ℕ) {m : Mem}
    → IsFresh m
    → Fresh (received_frame elem dev can_id payload m)
unfolding received_frame frame_alloc
received_frame-IsFresh elem dev can_id payload {m} fr = grind arith

pub enqueue-IsFresh : (qp f : Ptr) {m : Mem} → IsFresh m → Fresh (enqueue qp f m)
unfolding enqueue
enqueue-IsFresh qp f {m} fr = grind arith

pub frame_discard-IsFresh : (f : Ptr) {m : Mem} → IsFresh m → Fresh (frame_discard f m)
unfolding frame_discard
frame_discard-IsFresh f {m} fr = grind arith

-- If a reception comes to an end, no object lives at an address that was not handed out.
pub recv-IsFresh :
    (elem dev can_id flags : ℕ) (payload : List ℕ) {m : Mem}
    → IsFresh m
    → Fresh (stack_recv elem dev can_id flags payload m)
unfolding stack_recv
recv-IsFresh elem dev can_id flags payload {m} fr =
    IfDone-bind _ _ (received_frame elem dev can_id payload m)
      (received_frame-IsFresh elem dev can_id payload fr)
      λ f m1 fr1. elim (Bool-cases (f == null)) [
        | inl e ↦ rw (e) fr1
        | inr e ↦ rw (e) (
            IfDone-bind _ _ (load_device dev m1) (load_device-IsFresh dev fr1) λ d m2 fr2.
              IfDone-bind _ _ (enqueue d.q_in f m2) (enqueue-IsFresh d.q_in f fr2) λ r m3 fr3.
                elim (Bool-cases (is_zero r)) [
                  | inl z ↦ rw (z) fr3
                  | inr z ↦ rw (z) (
                      IfDone-bind _ _ (frame_discard f m3) (frame_discard-IsFresh f fr3)
                        λ _ m4 fr4. fr4)
                ])
      ]

module _ (driver : Driver) where
  loop-IsFresh :
      (k : ℕ) (score : ℤ) {m : Mem}
      → IsFresh m
      → Fresh (devices_loop_rounds driver k score loop_dir_in m)
  unfolding devices_loop_rounds devices_round
  loop-IsFresh zero score fr = tt
  loop-IsFresh (suc k) (negsuc n) fr = fr
  loop-IsFresh (suc k) (pos zero) fr = fr
  loop-IsFresh (suc k) (pos (suc n)) {m} fr =
      IfDone-bind _ _ (for_devices devloop_in max_devices 0 (pos (suc n)) m)
        (for_devices-IsFresh max_devices 0 (pos (suc n)) fr)
        λ r m1 fr1. loop-IsFresh k (pred_ℤ r) fr1

  -- If a tick comes to an end, no object lives at an address that was not handed out.
  pub tick-IsFresh : {m : Mem} → IsFresh m → Fresh (stack_tick driver m)
  unfolding devices_loop
  tick-IsFresh {m} fr = subst Fresh (sym (tick-eq-in driver m)) (
      IfDone-bind _ _ (devices_loop driver (pos 20) loop_dir_in m) (loop-IsFresh 21 (pos 20) fr)
        λ r m1 fr1. fr1)
