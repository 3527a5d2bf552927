-- ===== src/Device/Score.antt =====
-- What the loops over the devices do to the score that the ticks hand them.
use xcan_router.Prelude.{ℕ, zero, suc, ◌≡◌, inl, inr, false, Bool-cases}
use xcan_router.Prelude.Int.{ℤ, is_pos, pred_ℤ, pos_part}
use xcan_router.Memory.{Mem, IfDone, IfDone-bind, IfDone-trivial, done}
use xcan_router.Device.{Driver, devices_loop_rounds, devices_loop, devices_round}

module _ (driver : Driver) where
  rounds-not_pos :
      (k : ℕ) (score : ℤ) (direction : ℕ) (m : Mem)
      → IfDone (λ r _. is_pos r ≡ false) (devices_loop_rounds driver k score direction m)
  unfolding devices_loop_rounds
  rounds-not_pos zero score direction m = tt
  rounds-not_pos (suc k) score direction m = elim (Bool-cases (is_pos score)) [
    | inl more ↦ rw more (
        IfDone-bind {P = λ _ _. Unit {0}} (λ r _. is_pos r ≡ false)
          (λ s. devices_loop_rounds driver k (pred_ℤ s) direction)
          (devices_round driver score direction m)
          (IfDone-trivial (devices_round driver score direction m))
          λ s m' _. rounds-not_pos k (pred_ℤ s) direction m')
    | inr over ↦ rw over over
  ]

  -- devices_loop runs until the score is used up.
  pub devices_loop-not_pos :
      (score : ℤ) (direction : ℕ) (m : Mem)
      → IfDone (λ r _. is_pos r ≡ false) (devices_loop driver score direction m)
  unfolding devices_loop
  devices_loop-not_pos score direction m = rounds-not_pos (suc (pos_part score)) score direction m

  pub devices_loop-idle :
      (score : ℤ) (direction : ℕ) (m : Mem)
      → is_pos score ≡ false
      → devices_loop driver score direction m ≡ done score m
  unfolding devices_loop devices_loop_rounds
  devices_loop-idle score direction m over = rw over
