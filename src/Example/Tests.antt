-- ===== src/Example/Tests.antt =====
-- The example program on memory that holds nothing yet.
use xcan_router.Prelude.{◌⊎◌, ◌≡◌, refl, true, false, none, some, [], ◌∷◌, arith}
use xcan_router.Prelude.Int.{negsuc, pos}
use xcan_router.Memory.{Mem, IsFresh, Returns, crash}
use xcan_router.SocketCan.{CanApi}
use xcan_router.Example.{routing_table, example_main}
use xcan_router.Example.Running.{empty_pool, main-elem_zero}

-- The numbers of Linux.
abbrev linux : CanApi
linux = record { can_mtu = 16; canfd_mtu = 72; max_data = 64; ifname_size = 16 }

abbrev nothing : Mem
nothing = record {
  brk = 1;
  refuses = λ _. false;
  frames = λ _. none;
  buffers = λ _. none;
  queues = λ _. none;
  devices = λ _. none;
  pool = empty_pool;
  wire = [];
  write_result = λ _. pos 16;
  read_result =
      λ _. record { can_id = 0x20; flags = 0; len = 2; content = 6 ∷ 7 ∷ []; nbytes = pos 16 };
  reads = 0;
}

nothing-IsFresh : IsFresh nothing
nothing-IsFresh = record {
  started = omega arith;
  no_frame = λ p le. refl;
  no_buffer = λ p le. refl;
  no_queue = λ p le. refl;
  no_device = λ p le. refl;
}

-- Memory where nothing is given.
abbrev refusing : Mem
refusing = record nothing { refuses = λ _. true }

main-elem_zero_example :
    ((refusing.refuses 1 ≡ true)
      × Returns
          (λ r m'. (r ≡ (some routing_table, negsuc 0)) × (m'.pool ≡ empty_pool))
          (example_main linux true 0 10
            (pos 0)
            (record { opened = pos 3; bound = pos 0 })
            (record { opened = pos 4; bound = pos 0 })
            refusing))
    ⊎ ((refusing.refuses 1 ≡ false)
        × (example_main linux true 0 10
              (pos 0)
              (record { opened = pos 3; bound = pos 0 })
              (record { opened = pos 4; bound = pos 0 })
              refusing
            ≡ crash))
main-elem_zero_example =
    main-elem_zero linux true (record { opened = pos 3; bound = pos 0 })
      (record { opened = pos 4; bound = pos 0 }) 10 (pos 0) refusing (omega arith)
