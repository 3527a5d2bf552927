-- ===== src/Gateway/Ecu.antt =====
-- _old/Framework/ecu/ecu.h, _old/Framework/pdu_router/pdu_router.h and the masks of
-- _old/Framework/interfaces/can/can.h: the data that the gateway's modules share.
use xcan_router.Prelude.{ℕ, ◌+◌, ◌-◌, ◌*◌, ◌/◌, ◌%◌, ◌^◌, Bool, List, ◌==◌}

-- `ECU`, a struct of bit fields.
pub record Ecu : Type 0 where
  pub status : ℕ
  pub endianness : ℕ
  pub security : ℕ
  pub protocol : ℕ
  pub instance_no : ℕ
  pub fw_version : ℕ
  pub reserved : ℕ

-- `protocols`
abbrev pub protocol_canfd : ℕ
protocol_canfd = 0x01

abbrev pub protocol_can : ℕ
protocol_can = 0x02

abbrev pub protocol_lin : ℕ
protocol_lin = 0x03

abbrev pub protocol_eth : ℕ
protocol_eth = 0x04

-- `ecu_cmd`
abbrev pub cmd_req_all : ℕ
cmd_req_all = 1

abbrev pub cmd_req_id : ℕ
cmd_req_id = 2

abbrev pub cmd_req_fwver : ℕ
cmd_req_fwver = 3

abbrev pub cmd_req_status : ℕ
cmd_req_status = 4

abbrev pub cmd_reset : ℕ
cmd_reset = 5

abbrev pub cmd_sleep : ℕ
cmd_sleep = 6

-- `ecu_status`, the one that the code tests.
abbrev pub stat_updating : ℕ
stat_updating = 3

-- `fw_protocol_flag`
abbrev pub reset_cmd : ℕ
reset_cmd = 0xff

abbrev pub reset_ack : ℕ
reset_ack = 0xc4

abbrev pub begin_sec : ℕ
begin_sec = 0xfc

abbrev pub begin_nonsec : ℕ
begin_nonsec = 0xfa

abbrev pub frame_ack : ℕ
frame_ack = 0xc3

abbrev pub end_cmd : ℕ
end_cmd = 0xfd

abbrev pub end_ack : ℕ
end_ack = 0xc1

-- The type masks, by the number of their one bit: 0x10000000, 0x08000000 and 0x04000000.
abbrev pub type_data_bit : ℕ
type_data_bit = 28

abbrev pub type_cmd_bit : ℕ
type_cmd_bit = 27

abbrev pub type_fw_bit : ℕ
type_fw_bit = 26

-- `id & mask` is not 0.
abbrev pub has_bit : ℕ → ℕ → Bool
has_bit id k = (id / 2 ^ k) % 2 == 1

-- `id & ~mask`
abbrev pub clear_bit : ℕ → ℕ → ℕ
clear_bit id k = id - (id / 2 ^ k) % 2 * 2 ^ k

-- `mask | ecu_id`, where the uint8_t lies below the mask's bit.
abbrev pub typed_id : ℕ → ℕ → ℕ
typed_id k ecu_id = 2 ^ k + ecu_id

-- `id & 0x000000FF`
abbrev pub ecu_id_of : ℕ → ℕ
ecu_id_of id = id % 256

-- `PDU`. The payload lies in a block of the heap.
pub record Pdu : Type 0 where
  pub id : ℕ
  pub length : ℕ
  pub payload : ℕ

-- `PDU_Desc`: `destCount` and the array that `dest` points at.
pub record PduDesc : Type 0 where
  pub dest_count : ℕ
  pub dest : List ℕ

-- `can_message_t`, of the CAN driver: its identifier, its length and its array of data.
pub record CanMessage : Type 0 where
  pub id : ℕ
  pub length : ℕ
  pub content : List ℕ
