-- ===== src/Stack/Tests.antt =====
-- The stack on the sample memory.
use xcan_router.Prelude.{ℕ, ◌<◌, ◌≡◌, refl, ◌⊎◌, [], ◌∷◌, arith}
use xcan_router.Prelude.Int.{pos}
use xcan_router.Memory.{Mem, Outcome, done, crash, spin, pure, ◌>>◌, Returns}
use xcan_router.Sample.{
  refusing, refusing-InOrder, one_counted, device, memory, memory-IsFresh, slots, memory-Intake,
}
use xcan_router.Device.{Driver, max_devices, devices_loop}
use xcan_router.Device.Slots.{Intake, Waiting}
use xcan_router.Frame.{frame_alloc}
use xcan_router.Stack.Sequence.{InOrder, Step, Steps, steps-InOrder}
use xcan_router.Stack.{received_frame, stack_recv, stack_tick, loop_dir_in}
use xcan_router.Stack.Receive.{recv-elem_zero}
use xcan_router.Stack.Tick.{tick-eq-in, tick-empties}

abbrev idle : Driver
idle = record {
  link_state = λ _. pure (pos 0);
  send = λ _ _ _ _ _. pure (pos 0);
  destroy = λ _. pure tt;
}

tick-empties_example :
    Returns
      (λ _ m'. (c' : Waiting) × Intake m' slots c' × ((j : ℕ) → j < max_devices → c' j ≡ []))
      (stack_tick idle memory)
tick-empties_example = tick-empties idle memory-Intake (omega arith)

tick-eq-in_example :
    stack_tick idle memory ≡ (do devices_loop idle (pos 20) loop_dir_in; pure tt) memory
tick-eq-in_example = tick-eq-in idle memory

recv-elem_zero_example :
    Returns (λ r _. r ≡ pos 1) (stack_recv 0 5 0x20 1 (6 ∷ []) memory)
    ⊎ (stack_recv 0 5 0x20 1 (6 ∷ []) memory ≡ crash)
recv-elem_zero_example = recv-elem_zero 5 0x20 (6 ∷ []) memory-IsFresh 1

-- Memory after a reception that was refused.
abbrev state_of : {A : Type 0} → Outcome A → Mem
state_of (done a m) = m
state_of crash = memory
state_of spin = memory

abbrev after_recv : Mem
after_recv = state_of (stack_recv 0 5 0x20 0 (6 ∷ []) refusing)

refused_first : stack_recv 0 5 0x20 0 (6 ∷ []) refusing ≡ done (pos 1) after_recv
unfolding stack_recv received_frame frame_alloc
refused_first = refl

reception : Steps idle slots 0 refusing after_recv
reception = Steps.further Steps.start (
    Step.receive 0 (record { dev = 5; device = device }) 0x20 0 (6 ∷ []) (pos 1) (omega arith) refl
      one_counted refused_first)

steps-InOrder_example :
    InOrder slots after_recv × Returns (λ _ m. InOrder slots m) (stack_tick idle after_recv)
steps-InOrder_example = steps-InOrder idle slots 0 (omega arith) refusing-InOrder reception
