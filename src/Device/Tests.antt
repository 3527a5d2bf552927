-- ===== src/Device/Tests.antt =====
-- The device table and the loops over it, on the sample memory.
use xcan_router.Prelude.{none, some, List, ℕ, ◌≡◌, refl, false, [], ◌∷◌, arith}
use xcan_router.Prelude.Int.{is_pos, pos, negsuc}
use xcan_router.Memory.{crash, Packet, done, pure, Returns}
use xcan_router.Sample.{
  second_payload, holding_second, memory, output-IsQueue, second-Loaded, slots, waiting,
  memory-Intake,
}
use xcan_router.Queue.Chain.{Queued}
use xcan_router.Queue.Drain.{Loaded, Drained}
use xcan_router.Device.{Driver, max_devices, devloop_out, devices_loop, device_init}
use xcan_router.Device.Slots.{Intake}
use xcan_router.Device.Rounds.{left_waiting}
use xcan_router.Device.Output.{devloop_out-sends, devloop_out-refused}
use xcan_router.Device.Ticks.{devices_loop-drains, left_waiting-none}
use xcan_router.Device.Register.{init-bad_id}

-- A driver that writes every frame, and one that refuses every frame.
abbrev whole_packet : ℕ → ℕ → ℕ → List ℕ → Packet
whole_packet id flags len bytes = record {
  can_id = id;
  flags = flags;
  len = len;
  content = bytes;
  nbytes = pos len;
}

abbrev taking : Driver
taking = record {
  link_state = λ _. pure (pos 0);
  send = λ dev id flags payload len m. elim (m.buffers payload) [
    | none ↦ crash
    | some b ↦ done (pos 0) (record m { wire = whole_packet id flags len b ∷ m.wire })
  ];
  destroy = λ _. pure tt;
}

abbrev refusing : Driver
refusing = record {
  link_state = λ _. pure (pos 0);
  send = λ dev id flags payload len m. done (negsuc 0) m;
  destroy = λ _. pure tt;
}

devloop_out-sends_example :
    Returns
      (λ r m'.
        (r ≡ pos 2)
        × (m'.wire ≡ whole_packet 0x456 0 2 second_payload ∷ [])
        × Queued m' 8 []
        × Loaded m' [] []
        × Drained (2 ∷ []) (4 ∷ []) memory m')
      (devloop_out taking 5 (pos 3) memory)
devloop_out-sends_example =
    devloop_out-sends taking 5 whole_packet 3 (2 ∷ []) (4 ∷ [])
      (λ id flags payload len b m live. rw (live) refl) (omega arith) refl (omega arith)
      (holding_second, output-IsQueue) second-Loaded

devloop_out-refused_example : devloop_out refusing 5 (pos 3) memory ≡ done (pos 3) memory
devloop_out-refused_example =
    devloop_out-refused refusing 5 2 (negsuc 0) (omega arith) refl (omega arith) output-IsQueue refl
      refl refl

devices_loop-drains_example :
    Returns
      (λ r m'. (is_pos r ≡ false) × Intake m' slots (left_waiting max_devices 0 20 waiting))
      (devices_loop taking (pos 20) 0 memory)
devices_loop-drains_example = devices_loop-drains taking 20 memory-Intake

left_waiting-none_example : left_waiting max_devices 0 20 waiting 0 ≡ []
left_waiting-none_example = left_waiting-none 20 0 waiting (omega arith) (omega arith)

init-bad_id_example : device_init 1 5 4 [] memory ≡ done (negsuc 0) memory
init-bad_id_example = init-bad_id 5 4 [] 1 (omega arith)
