-- ===== src/Device/Ticks.antt =====
-- devices_loop in the direction of the stack: one pass over the devices does all the work.
use xcan_router.Memory.{Mem, Returns, Returns-bind, done}
use xcan_router.Prelude.Int.{ℤ, is_pos, pred_ℤ, pos, negsuc}
use xcan_router.Prelude.{
  ℕ, zero, suc, ◌+◌, ◌-◌, ◌≤◌, ◌<◌, ◌≡◌, refl, sym, ap, subst, fun_ext, ◌∙◌, inl, inr, false, List,
  [], ◌∷◌, arith, ◌==◌, Bool-cases, length, drop,
}
use xcan_router.Device.{
  Driver, for_devices, devloop_in, devices_loop, devices_loop_rounds, devices_round, max_devices,
}
use xcan_router.Device.Slots.{Slots, Waiting, update, Intake}
use xcan_router.Device.Rounds.{left_waiting, total, total-update, update_idle, for_devices-drains}

drop-all : (n : ℕ) (xs : List ℕ) → length xs ≤ n → drop n xs ≡ []
drop-all zero [] h = refl
drop-all zero (x ∷ xs) h = absurd (omega arith)
drop-all (suc n) [] h = refl
drop-all (suc n) (x ∷ xs) h = drop-all n xs (omega arith)

left_before : (k i n j : ℕ) (c : Waiting) → j < i → left_waiting k i n c j ≡ c j
left_before zero i n j c h = refl
left_before (suc k) i n j c h =
    left_before k (i + 1) (n - length (c i)) j (update c i (drop n (c i))) (omega arith)
    ∙ ground arith

-- A score that covers all frames leaves none.
left_none :
    (k i n j : ℕ) (c : Waiting) → total k i c ≤ n → i ≤ j → j < i + k → left_waiting k i n c j ≡ []
left_none zero i n j c h lo hi = absurd (omega arith)
left_none (suc k) i n j c h lo hi = elim (Bool-cases (j == i)) [
  | inl e ↦
      left_before k (i + 1) (n - length (c i)) j (update c i (drop n (c i))) (ground arith)
      ∙ rw e (drop-all n (c i) (omega arith))
  | inr ne ↦
      left_none k (i + 1) (n - length (c i)) j (update c i (drop n (c i)))
        (omega (arith, total-update k (i + 1) i c (drop n (c i)))) (ground arith) (omega arith)
]

left_idle :
    (k i n : ℕ) (c : Waiting) → ((j : ℕ) → i ≤ j → j < i + k → c j ≡ []) → left_waiting k i n c ≡ c
left_idle zero i n c h = refl
left_idle (suc k) i n c h =
    ap (left_waiting k (i + 1) (n - length (c i)))
      (update_idle c i n (h i (omega arith) (omega arith)))
    ∙ left_idle k (i + 1) (n - length (c i)) c (λ j lo hi. h j (omega arith) (omega arith))

left_zero : (k i : ℕ) (c : Waiting) → left_waiting k i 0 c ≡ c
left_zero zero i c = refl
left_zero (suc k) i c =
    ap (λ (n : ℕ). left_waiting k (i + 1) n (update c i (c i))) (omega arith)
    ∙ ap (left_waiting k (i + 1) 0) (fun_ext λ j. ground arith)
    ∙ left_zero k (i + 1) c

module _ (driver : Driver) where
  rounds_over :
      (k : ℕ) (score : ℤ) (m : Mem)
      → is_pos score ≡ false
      → 0 < k
      → devices_loop_rounds driver k score 0 m ≡ done score m
  unfolding devices_loop_rounds
  rounds_over zero score m over h = absurd (omega arith)
  rounds_over (suc k) score m over h = rw over

  -- What `k` rounds make of any score below `k`.
  abbrev RoundsDrain : Slots → ℕ → Type 0
  RoundsDrain s k =
      (n : ℕ) (m : Mem) (c : Waiting)
      → Intake m s c
      → n < k
      → Returns (λ r m'. (is_pos r ≡ false) × Intake m' s (left_waiting max_devices 0 n c))
          (devices_loop_rounds driver k (pos n) 0 m)

  -- The rounds behind the first find either no score or no frames.
  later_rounds :
      (k n rest : ℕ) {s : Slots} {m : Mem} (c : Waiting)
      → RoundsDrain s k
      → n - total max_devices 0 c ≡ rest
      → 1 ≤ n
      → n ≤ k
      → Intake m s (left_waiting max_devices 0 n c)
      → Returns
          (λ r m'. (is_pos r ≡ false) × Intake m' s (left_waiting max_devices 0 n c))
          (devices_loop_rounds driver k (pred_ℤ (pos rest)) 0 m)
  later_rounds k n zero {m} c ih e lo h intake =
      rw (rounds_over k (negsuc 0) m refl (omega arith)) (refl, intake)
  later_rounds k n (suc rest) {s} {m} c ih e lo h intake =
      subst
        (λ (d : Waiting).
          Returns (λ r m'. (is_pos r ≡ false) × Intake m' s d)
            (devices_loop_rounds driver k (pos rest) 0 m))
        (left_idle max_devices 0 rest (left_waiting max_devices 0 n c)
          λ j l u. left_none max_devices 0 n j c (omega arith) l u)
        (ih rest m (left_waiting max_devices 0 n c) intake (omega arith))

  rounds-drains : (k : ℕ) (s : Slots) → RoundsDrain s k
  unfolding devices_loop_rounds devices_round
  rounds-drains zero s n m c intake h = absurd (omega arith)
  rounds-drains (suc k) s zero m c intake h =
      (refl, subst (λ (d : Waiting). Intake m s d) (sym (left_zero max_devices 0 c)) intake)
  rounds-drains (suc k) s (suc n) m c intake h =
      Returns-bind _ (λ score. devices_loop_rounds driver k (pred_ℤ score) 0)
        (for_devices devloop_in max_devices 0 (pos (suc n)) m)
        (for_devices-drains max_devices 0 (suc n) intake (omega arith))
        λ r m1 (e, intake1). rw e (
          later_rounds k (suc n) (suc n - total max_devices 0 c) c (rounds-drains k s) refl
            (omega arith) (omega arith) intake1)

  -- From a pool each slot of which is empty or has a device whose input queue is in order, no queue
  -- or frame being shared, the loop of the input direction comes to an end with no score left. Each
  -- device in turn has handed in as many frames as the score still allowed, the oldest first, and
  -- the pool is in order again.
  pub devices_loop-drains :
      (n : ℕ) {s : Slots} {m : Mem} {c : Waiting}
      → Intake m s c
      → Returns
          (λ r m'. (is_pos r ≡ false) × Intake m' s (left_waiting max_devices 0 n c))
          (devices_loop driver (pos n) 0 m)
  unfolding devices_loop
  devices_loop-drains n {s} {m} {c} intake = rounds-drains (suc n) s n m c intake (omega arith)

-- Where the score covers all waiting frames, none is left.
pub left_waiting-none :
    (n j : ℕ) (c : Waiting)
    → total max_devices 0 c ≤ n
    → j < max_devices
    → left_waiting max_devices 0 n c j ≡ []
left_waiting-none n j c h below = left_none max_devices 0 n j c h (omega arith) below
