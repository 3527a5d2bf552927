-- ===== src/Gateway/Update.antt =====
-- CAN_updateFirmware of _old/Framework/interfaces/can/can.c, and ECU_updateFirmware of ecu.c.
use xcan_router.Prelude.{
  ℕ, zero, suc, ◌-◌, Bool, true, false, Option, none, some, List, [], ◌∷◌, ◌++◌, ltb, ◌==◌,
  if◌then◌else◌, length, take, replicate,
}
use xcan_router.Run.{done, crash, spin, pure, ◌>>=◌, ◌>>◌}
use xcan_router.Gateway.Ecu.{
  Pdu, type_fw_bit, typed_id, reset_cmd, reset_ack, begin_sec, begin_nonsec, frame_ack, end_cmd,
  end_ack, protocol_can, protocol_lin, protocol_eth,
}
use xcan_router.Gateway.State.{Cmd, free, load, load_ecu, byte_at}
use xcan_router.Gateway.Can.{can_send_frame}

-- FW_DATA_SIZE and FW_CMAC_SIZE
abbrev pub fw_data_size : ℕ
fw_data_size = 48

abbrev pub fw_cmac_size : ℕ
fw_cmac_size = 16

-- What the update takes from outside the repository. `wait` is xQueueReceive on the firmware queue
-- for up to a second, in which the other tasks go on. `read` is f_read: it gives the bytes that it
-- put into the buffer. `encrypt` is SECURITY_EncryptCbcBlocking, from a buffer and the
-- initialisation vector to the buffer after it. The rest are numbers of FreeRTOS and of the SDK.
pub record Outside (Queue : Type 0) : Type 1 where
  pub File : Type 0
  pub wait : Cmd Queue (Option Pdu)
  pub read : File → ℕ → List ℕ × File
  pub encrypt : List ℕ → List ℕ → List ℕ
  pub pd_true : ℕ
  pub pd_false : ℕ
  pub status_success : ℕ
  pub status_error : ℕ

-- The buffer after the two loops that fill it up: the part of the file, zeros up to 48 bytes, and
-- the 16 bytes of the random number.
abbrev pub packet : List ℕ → List ℕ → List ℕ
packet part rnd = part ++ replicate (fw_data_size - length part) 0 ++ rnd

module _ {Queue : Type 0} (outside : Outside Queue) where
  -- What follows xQueueReceive: the first byte of the answer is the one expected, or the update
  -- ends. A PDU that is not the expected one is not freed.
  abbrev pub answer_step : ℕ → Cmd Queue ℕ → Option Pdu → Cmd Queue ℕ
  answer_step ack next none = pure outside.pd_false
  answer_step ack next (some x) = load x.payload >>= λ bytes.
      byte_at bytes 0 >>= λ b. if b == ack then free x.payload >> next else pure outside.pd_true

  unfoldable pub expect : ℕ → Cmd Queue ℕ → Cmd Queue ℕ
  expect ack next = outside.wait >>= answer_step ack next

  -- memcpy of the random number
  abbrev random_of : List ℕ → Cmd Queue (List ℕ)
  random_of bytes s =
      if ltb (length bytes) fw_cmac_size then crash else done (take fw_cmac_size bytes) s

  abbrev pub random_step : (List ℕ → Cmd Queue ℕ) → Option Pdu → Cmd Queue ℕ
  random_step next none = pure outside.pd_false
  random_step next (some x) =
      load x.payload >>= λ bytes. random_of bytes >>= λ rnd. free x.payload >> next rnd

  -- Step 4: without security the answer is 0xff and the number stays 0.
  unfoldable pub expect_random : Bool → (List ℕ → Cmd Queue ℕ) → Cmd Queue ℕ
  expect_random true next = outside.wait >>= random_step next
  expect_random false next = expect 0xff (next (replicate fw_cmac_size 0))

  module _ (instance_no msg_id : ℕ) where
    -- Step 5, with `rounds` left.
    unfoldable pub send_firmware : ℕ → List ℕ → outside.File → Cmd Queue ℕ → Cmd Queue ℕ
    send_firmware zero rnd fw next = λ _. spin
    send_firmware (suc rounds) rnd fw next =
        let (part, fw') = outside.read fw fw_data_size in
        if length part == 0
        then next
        else can_send_frame instance_no msg_id
            (outside.encrypt (packet part rnd) (replicate fw_cmac_size 0))
          >> expect frame_ack (send_firmware rounds rnd fw' next)

    unfoldable pub update_steps : ℕ → outside.File → Bool → Cmd Queue ℕ
    update_steps rounds fw secure =
        can_send_frame instance_no msg_id (reset_cmd ∷ [])
        >> expect reset_ack (
            can_send_frame instance_no msg_id ((if secure then begin_sec else begin_nonsec) ∷ [])
            >> expect_random secure λ rnd. send_firmware rounds rnd fw (
                can_send_frame instance_no msg_id (end_cmd ∷ [])
                >> expect end_ack (pure outside.status_success)))

  unfoldable pub can_update_firmware : ℕ → ℕ → outside.File → Bool → Cmd Queue ℕ
  can_update_firmware rounds ecu_id fw secure = load_ecu ecu_id >>= λ e.
      update_steps e.instance_no (typed_id type_fw_bit ecu_id) rounds fw secure

  -- LIN_updateFirmware does nothing and returns 0, ETH_updateFirmware STATUS_SUCCESS.
  unfoldable pub ecu_update_firmware : ℕ → ℕ → outside.File → Bool → Cmd Queue ℕ
  ecu_update_firmware rounds ecu_id fw secure = load_ecu ecu_id >>= λ e.
      if e.protocol == protocol_can
      then can_update_firmware rounds ecu_id fw secure
      else if e.protocol == protocol_lin
      then pure 0
      else if e.protocol == protocol_eth
      then pure outside.status_success
      else pure outside.status_error
