-- ===== src/Gateway/Tables.antt =====
-- _old/Sources/tables: the ECUs, the routes of the PDUs and the identifiers of the CAN filter.
use xcan_router.Prelude.{ℕ, List, [], ◌∷◌}
use xcan_router.Gateway.Ecu.{Ecu, PduDesc, protocol_can}

abbrev pub num_of_ecus : ℕ
num_of_ecus = 4

-- Fields that the table does not give are 0.
abbrev pub can_ecu : ℕ → Ecu
can_ecu n = record {
  status = 0;
  endianness = 0;
  security = 0;
  protocol = protocol_can;
  instance_no = n;
  fw_version = 1;
  reserved = 0;
}

-- Engine, drive control, cluster and diagnostics.
abbrev pub ecu_list : List Ecu
ecu_list = can_ecu 0 ∷ can_ecu 1 ∷ can_ecu 2 ∷ can_ecu 3 ∷ []

-- Engine RPM, engine temperature, ignition switch, acceleration pedal, handbrake.
abbrev pub pdu_descriptors : List PduDesc
pdu_descriptors =
    record { dest_count = 2; dest = 3 ∷ 2 ∷ [] }
    ∷ record { dest_count = 2; dest = 3 ∷ 2 ∷ [] }
    ∷ record { dest_count = 2; dest = 3 ∷ 0 ∷ [] }
    ∷ record { dest_count = 2; dest = 3 ∷ 0 ∷ [] }
    ∷ record { dest_count = 2; dest = 3 ∷ 2 ∷ [] }
    ∷ []

-- Ten entries, the last of which the initialiser leaves 0.
abbrev pub can_id_filter_table : List ℕ
can_id_filter_table = 0 ∷ 1 ∷ 2 ∷ 3 ∷ 4 ∷ 5 ∷ 7 ∷ 8 ∷ 9 ∷ 0 ∷ []
