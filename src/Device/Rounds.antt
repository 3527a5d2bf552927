-- ===== src/Device/Rounds.antt =====
-- The loop over all devices in the direction of the stack.
use xcan_router.Memory.{Ptr, Mem, ◌>>=◌, Returns, Returns-bind, Returns-mono, then_run_assoc}
use xcan_router.Prelude.Int.{pos}
use xcan_router.Prelude.{
  ℕ, zero, suc, ◌+◌, ◌-◌, ◌≤◌, ◌<◌, ◌≡◌, refl, sym, ap, subst, fun_ext, ◌∙◌, Option, none, some,
  List, [], arith, length, drop,
}
use xcan_router.Device.{for_devices, devloop_in, max_devices, device_at}
use xcan_router.Device.Intake.{devloop_in-drains}
use xcan_router.Device.Slots.{Slot, Slots, Waiting, update, SlotHolds, Intake, Intake-step}

-- What is left at each index, and of the score, after `k` devices from index `i` on.
abbrev pub left_waiting : ℕ → ℕ → ℕ → Waiting → Waiting
left_waiting zero i n c = c
left_waiting (suc k) i n c = left_waiting k (i + 1) (n - length (c i)) (update c i (drop n (c i)))

abbrev pub total : ℕ → ℕ → Waiting → ℕ
total zero i c = 0
total (suc k) i c = length (c i) + total k (i + 1) c

pub total-update :
    (k i j : ℕ) (c : Waiting) (v : List Ptr) → j < i → total k i (update c j v) ≡ total k i c
total-update zero i j c v h = refl
total-update (suc k) i j c v h = ground (arith, total-update k (i + 1) j c v)

pub update_idle : (s : Waiting) (i n : ℕ) → s i ≡ [] → update s i (drop n (s i)) ≡ s
update_idle s i zero e = fun_ext λ j. ground arith
update_idle s i (suc n) e = fun_ext λ j. ground arith

module _ {s : Slots} where
  one_device :
      (i n : ℕ) (o : Option Slot) {m : Mem} {c : Waiting}
      → Intake m s c
      → i < max_devices
      → s i ≡ o
      → Returns
          (λ r m'. (r ≡ pos (n - length (c i))) × Intake m' s (update c i (drop n (c i))))
          ((do dev ← device_at i; devloop_in dev (pos n)) m)
  unfolding devloop_in
  one_device i n none {m} {c} intake below is =
      let (e, idle) : SlotHolds m i none (c i) =
        subst (λ (o : Option Slot). SlotHolds m i o (c i)) is (intake.held i below) in
      rw (e, device_at)
        (
          ap pos (omega (arith, ap length idle)),
          subst (λ (d : Waiting). Intake m s d) (sym (update_idle c i n idle)) intake,
        )
  one_device i n (some x) {m} {c} intake below is =
      let (e, ne, live, q) : SlotHolds m i (some x) (c i) =
        subst (λ (o : Option Slot). SlotHolds m i o (c i)) is (intake.held i below) in
      rw (e, device_at)
        (Returns-mono _ (devloop_in x.dev (pos n) m) (devloop_in-drains n x.dev (c i) ne live q)
          λ r m' (score, q', links). (score, Intake-step i intake below is n q' links))

  pub for_devices-drains :
      (k i n : ℕ) {m : Mem} {c : Waiting}
      → Intake m s c
      → i + k ≤ max_devices
      → Returns
          (λ r m'. (r ≡ pos (n - total k i c)) × Intake m' s (left_waiting k i n c))
          (for_devices devloop_in k i (pos n) m)
  unfolding for_devices
  for_devices-drains zero i n intake h = (ap pos (omega arith), intake)
  for_devices-drains (suc k) i n {m} {c} intake h =
      subst (Returns _)
        (then_run_assoc (device_at i m) (λ dev. devloop_in dev (pos n))
          (λ score. for_devices devloop_in k (i + 1) score))
        (Returns-bind _ (λ score. for_devices devloop_in k (i + 1) score)
          ((do dev ← device_at i; devloop_in dev (pos n)) m)
          (one_device i n (s i) intake (omega arith) refl)
          λ r m' (e, intake'). rw e (
            Returns-mono _ (for_devices devloop_in k (i + 1) (pos (n - length (c i))) m')
              (for_devices-drains k (i + 1) (n - length (c i)) intake' (omega arith))
              λ r' m'' (e', intake'').
                (e' ∙ ap pos (omega (arith, total-update k (i + 1) i c (drop n (c i)))), intake'')))
