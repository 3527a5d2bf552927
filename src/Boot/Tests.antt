-- ===== src/Boot/Tests.antt =====
-- The start on a board without a card.
use xcan_router.Prelude.{ℕ, ◌≡◌, refl, inl, false, none, some, [], ◌∷◌, arith}
use xcan_router.Run.{Returns}
use xcan_router.Gateway.Card.{Fat, no_file}
use xcan_router.Gateway.Tables.{can_ecu, ecu_list}
use xcan_router.Security.Driver.{She}
use xcan_router.Security.Module.{initialise}
use xcan_router.Boot.{
  pdu_router, create_task, can_receive, rx_mb_data, rx_mb_cmd, rx_mb_fw, Kernel, Board,
  can_initialise, start_up,
}
use xcan_router.Boot.Order.{Occurs, Ordered, can_initialise-Ordered}
use xcan_router.Boot.Ready.{Running, start_up-Running}

-- A card that is not there, and a security module that refuses every call.
abbrev no_card : Fat
no_card = record {
  Disk = Unit;
  File = Unit;
  mkdir = λ i d. d;
  create = λ p d. none;
  write = λ f bytes d. (false, 0, d);
  close = λ f d. d;
  open_existing = λ p d. no_file;
  read = λ f n d. (false, []);
  encode = λ e. [];
  decode = λ bytes. can_ecu 0;
}

abbrev silent : She
silent = record {
  Hw = Unit;
  status_success = 0;
  master_ecu = 1;
  boot_mac_key = 2;
  key_1 = 4;
  init = λ h. (1, h);
  init_rng = λ h. (1, h);
  compress = λ x h. (1, [], h);
  load_plain_key = λ k h. (1, h);
  encrypt_cbc = λ p iv h. (1, [], h);
  encrypt_ecb = λ p h. (1, [], h);
  generate_mac = λ m bits h. (1, [], h);
  verify_mac = λ m n mac k h. (1, false, h);
  load_key = λ id m1 m2 m3 h. (1, h);
  get_id = λ c h. (1, ([], 0, []), h);
  debug_challenge = λ h. (1, [], h);
  debug_auth = λ auth h. (1, h);
}

abbrev kernel : Kernel no_card
kernel = record {
  Handle = ℕ;
  create = λ n. some n;
  mount = λ d. (false, d);
  can_instance = λ n. record { index = n; ip_type = 1 };
}

abbrev reset : Board silent no_card kernel
reset = record {
  calls = [];
  pdu_queue = none;
  fw_update_queue = none;
  gateway_queue = none;
  can_ip_type = 0;
  security = tt;
  card = record { disk = tt; ecus = ecu_list };
}

start_up-Running_example :
    Returns
      (λ _ b.
        Running silent no_card kernel b
        × (b.security ≡ initialise silent tt)
        × (b.card.ecus ≡ ecu_list))
      (start_up silent no_card kernel reset)
start_up-Running_example = start_up-Running silent no_card kernel reset refl refl (omega arith)

abbrev with_router : Board silent no_card kernel
with_router = record reset { calls = create_task pdu_router ∷ [] }

can_initialise-Ordered_example :
    Returns
      (λ _ b.
        Ordered b.calls
        × Occurs (create_task pdu_router) b.calls
        × Occurs (can_receive 2 rx_mb_data) b.calls
        × Occurs (can_receive 2 rx_mb_cmd) b.calls
        × Occurs (can_receive 2 rx_mb_fw) b.calls
        × (b ≡ record with_router { calls = b.calls; can_ip_type = 1 }))
      (can_initialise silent no_card kernel (kernel.can_instance 2) with_router)
can_initialise-Ordered_example =
    can_initialise-Ordered silent no_card kernel (kernel.can_instance 2) with_router tt (inl refl)
