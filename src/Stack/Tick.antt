-- ===== src/Stack/Tick.antt =====
-- xcan_stack_tick.
use xcan_router.Prelude.{ℕ, ◌≤◌, ◌<◌, [], ◌≡◌, refl, sym, subst, false}
use xcan_router.Prelude.Int.{ℤ, is_pos, pos}
use xcan_router.Memory.{
  Mem, Outcome, pure, then_run, ◌>>◌, Returns, Returns-bind, Returns-mono, IfDone, done, crash,
  spin,
}
use xcan_router.Device.{Driver, devices_loop}
use xcan_router.Device.Score.{devices_loop-not_pos, devices_loop-idle}
use xcan_router.Device.{max_devices}
use xcan_router.Device.Slots.{Slots, Waiting, Intake}
use xcan_router.Device.Rounds.{left_waiting, total}
use xcan_router.Device.Ticks.{devices_loop-drains, left_waiting-none}
use xcan_router.Stack.{stack_tick, loop_dir_in, loop_dir_out}

module _ (driver : Driver) where
  second_loop :
      (o : Outcome ℤ)
      → IfDone (λ r _. is_pos r ≡ false) o
      → then_run o (λ score. do devices_loop driver score loop_dir_out; pure tt)
        ≡ then_run o (λ _. pure tt)
  second_loop (done r m) over = rw (devices_loop-idle driver r loop_dir_out m over)
  second_loop crash over = refl
  second_loop spin over = refl

  -- A tick is its first loop: the second one, of the output direction, finds no score left and does
  -- nothing.
  pub tick-eq-in :
      (m : Mem) → stack_tick driver m ≡ (do devices_loop driver (pos 20) loop_dir_in; pure tt) m
  unfolding stack_tick
  tick-eq-in m =
      second_loop (devices_loop driver (pos 20) loop_dir_in m)
        (devices_loop-not_pos driver (pos 20) loop_dir_in m)

  -- From a pool whose input queues are in order a tick comes to an end. The devices have handed in
  -- up to 20 frames, each the oldest of its queue.
  pub tick-drains :
      {s : Slots} {m : Mem} {c : Waiting}
      → Intake m s c
      → Returns (λ _ m'. Intake m' s (left_waiting max_devices 0 20 c)) (stack_tick driver m)
  tick-drains {s} {m} {c} intake =
      subst (Returns (λ _ m'. Intake m' s (left_waiting max_devices 0 20 c))) (sym (tick-eq-in m)) (
        Returns-bind (λ _ m'. Intake m' s (left_waiting max_devices 0 20 c)) (λ _. pure tt)
          (devices_loop driver (pos 20) loop_dir_in m) (devices_loop-drains driver 20 intake)
          λ r m' (_, left). left)

  -- From a pool whose input queues are in order, where at most 20 frames wait in them, a tick comes
  -- to an end and none of them waits.
  pub tick-empties :
      {s : Slots} {m : Mem} {c : Waiting}
      → Intake m s c
      → total max_devices 0 c ≤ 20
      → Returns
          (λ _ m'. (c' : Waiting) × Intake m' s c' × ((j : ℕ) → j < max_devices → c' j ≡ []))
          (stack_tick driver m)
  tick-empties {s} {m} {c} intake few =
      Returns-mono _ (stack_tick driver m) (tick-drains intake) λ _ m' left.
        (left_waiting max_devices 0 20 c, left, λ j lt. left_waiting-none 20 j c few lt)
