-- ===== src/SocketCan/Tests.antt =====
-- The SocketCAN driver on the sample memory.
use xcan_router.Prelude.{◌≡◌, refl, true, [], ◌∷◌, arith}
use xcan_router.Prelude.Int.{pos}
use xcan_router.Memory.{Mem, Outcome, done, crash, spin}
use xcan_router.Sample.{refusing, first_payload, second_payload, memory, output-IsQueue}
use xcan_router.Device.{devloop_out}
use xcan_router.SocketCan.{CanApi, prv_poll, prv_send, socketcan_driver}
use xcan_router.SocketCan.Send.{can_packet, prv_send_lem, sent_again}

-- The numbers of Linux.
abbrev linux : CanApi
linux = record { can_mtu = 16; canfd_mtu = 72; max_data = 64; ifname_size = 16 }

prv_send_lem_example :
    prv_send linux 5 0x20 0 3 1 memory
    ≡ done (pos 16) (record memory { wire = can_packet linux 0x20 0 1 first_payload ∷ [] })
prv_send_lem_example =
    prv_send_lem linux 5 0x20 0 3 1 memory (omega arith) refl (omega arith) refl (omega arith)
      (omega arith)

sent_again_example :
    devloop_out (socketcan_driver linux true) 5 (pos 3) memory
    ≡ done (pos 3) (record memory { wire = can_packet linux 0x456 0 2 second_payload ∷ [] })
sent_again_example =
    sent_again linux true 5 2 15 (omega arith) refl (omega arith) output-IsQueue refl (omega arith)
      refl (omega arith) (omega arith) (omega arith) refl

-- Memory after a poll whose frame was refused.
abbrev state_of : {A : Type 0} → Outcome A → Mem
state_of (done a m) = m
state_of crash = memory
state_of spin = memory

abbrev polled : Mem
polled = state_of (prv_poll linux 0 5 (pos 5) refusing)
