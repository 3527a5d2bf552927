-- ===== src/Stack/Sequence.antt =====
-- Receptions and ticks in any order.
use xcan_router.Prelude.{
  ℕ, zero, suc, ◌+◌, ◌-◌, ◌≤◌, ◌<◌, ◌≡◌, refl, subst, ◌∙◌, some, List, arith, ==_ne, length, drop,
}
use xcan_router.Prelude.Int.{ℤ}
use xcan_router.Memory.{Mem, IsFresh, done, Returns, Returns-mono, IfDone}
use xcan_router.Run.{Returns-both, IfDone-both, IfDone-Returns}
use xcan_router.Device.{Driver, max_devices}
use xcan_router.Device.Slots.{Slot, Slots, Waiting, update, Intake}
use xcan_router.Device.Rounds.{left_waiting}
use xcan_router.Stack.{stack_recv, stack_tick}
use xcan_router.Stack.Tick.{tick-drains}
use xcan_router.Stack.Fresh.{recv-IsFresh, tick-IsFresh}
use xcan_router.Stack.Intake.{Within, HasCount, recv-Waits}

-- The input queues of the pool are in order, nothing waits beyond the pool, and no object lives at
-- an address that was not handed out.
abbrev pub InOrder : Slots → Mem → Type 0
InOrder s m = ((c : Waiting) × Intake m s c × Within c) × IsFresh m

left_beyond : (k i n j : ℕ) (c : Waiting) → i + k ≤ j → left_waiting k i n c j ≡ c j
left_beyond zero i n j c h = refl
left_beyond (suc k) i n j c h =
    left_beyond k (i + 1) (n - length (c i)) j (update c i (drop n (c i))) (omega arith)
    ∙ rw (==_ne j i (omega arith)) refl

module _ (driver : Driver) (s : Slots) where
  pub tick-InOrder : {m : Mem} → InOrder s m → Returns (λ _ m'. InOrder s m') (stack_tick driver m)
  tick-InOrder {m} ((c, intake, within), fr) =
      Returns-both _ _ (stack_tick driver m)
        (Returns-mono _ (stack_tick driver m) (tick-drains driver intake) λ _ m' left. (
          left_waiting max_devices 0 20 c,
          left,
          λ j le. left_beyond max_devices 0 20 j c (omega arith) ∙ within j le,
        ))
        (tick-IsFresh driver fr)

module _ (driver : Driver) (s : Slots) (elem : ℕ) where
  -- A device of the pool hands a frame in, or a tick comes to its end. `elem` is the second
  -- argument of calloc: 0 in the source.
  pub data Step (m m' : Mem) : Type 0 where
    receive :
        (i : ℕ) (x : Slot) (can_id flags : ℕ) (payload : List ℕ) (r : ℤ)
        → i < max_devices
        → s i ≡ some x
        → HasCount m x.device.q_in
        → stack_recv elem x.dev can_id flags payload m ≡ done r m'
        → Step m m'
    tick : stack_tick driver m ≡ done tt m' → Step m m'

  pub data Steps (m : Mem) : Mem → Type 0 where
    start : Steps m m
    further : {m1 m2 : Mem} → Steps m m1 → Step m1 m2 → Steps m m2

  pub recv-InOrder :
      elem ≤ 1
      → (i : ℕ) (x : Slot) (can_id flags : ℕ) (payload : List ℕ) {m : Mem} → InOrder s m
      → i < max_devices
      → s i ≡ some x
      → HasCount m x.device.q_in
      → IfDone (λ _ m'. InOrder s m') (stack_recv elem x.dev can_id flags payload m)
  recv-InOrder whole i x can_id flags payload {m} ((c, intake, within), fr) below is counts =
      IfDone-both _ _ (stack_recv elem x.dev can_id flags payload m)
        (recv-Waits can_id payload i intake within fr below is elem whole flags counts)
        (recv-IsFresh elem x.dev can_id flags payload fr)

  step-InOrder : elem ≤ 1 → {m m' : Mem} → InOrder s m → Step m m' → InOrder s m'
  step-InOrder whole {m} {m'} order (receive i x can_id flags payload r below is counts end) =
      subst (IfDone (λ _ m'. InOrder s m')) end
        (recv-InOrder whole i x can_id flags payload order below is counts)
  step-InOrder whole {m} {m'} order (tick end) =
      subst (IfDone (λ _ m'. InOrder s m')) end
        (IfDone-Returns _ (stack_tick driver m) (tick-InOrder driver s order))

  steps_kept : elem ≤ 1 → {m m' : Mem} → InOrder s m → Steps m m' → InOrder s m'
  steps_kept whole order start = order
  steps_kept whole order (further steps step) =
      step-InOrder whole (steps_kept whole order steps) step

  -- From a pool whose input queues are in order, with no object at an address that was not handed
  -- out: whatever receptions and ticks come, in whatever order, whether blocks are refused or
  -- queues full, none of which ran into undefined behaviour, the queues are in order again, and
  -- the next tick comes to an end and leaves them in order. That is so for the blocks of no bytes
  -- that the source asks calloc for, of which a reception only survives the refusal, and for whole
  -- blocks. No frame comes into a queue that counts 2 ^ 32 - 1 frames.
  pub steps-InOrder :
      elem ≤ 1
      → {m m' : Mem} → InOrder s m
      → Steps m m'
      → InOrder s m' × Returns (λ _ m''. InOrder s m'') (stack_tick driver m')
  steps-InOrder whole order steps =
      (steps_kept whole order steps, tick-InOrder driver s (steps_kept whole order steps))
