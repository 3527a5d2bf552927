-- ===== src/Gateway/Firmware.antt =====
-- CAN_updateFirmware: the frames that it puts on the bus.
use xcan_router.Prelude.{
  ℕ, zero, suc, ◌≤◌, ◌<◌, ◌≡◌, refl, sym, ap, subst, ◌∙◌, inr, Bool, true, false, Option, none,
  some, List, [], ◌∷◌, ◌++◌, arith, ltb, if◌then◌else◌, ==_ne, length, get_elem?, take, drop,
  replicate, has, length-take_of_le, length-drop,
}
use xcan_router.Run.{pure, ◌>>=◌, ◌>>◌, Returns, Returns-bind, Returns-mono}
use xcan_router.Gateway.Ecu.{
  Ecu, Pdu, type_fw_bit, typed_id, reset_cmd, reset_ack, begin_sec, begin_nonsec, frame_ack,
  end_cmd, end_ack,
}
use xcan_router.Gateway.State.{State, Sent, Cmd, free, load_ecu}
use xcan_router.Gateway.Can.{can_send_frame}
use xcan_router.Gateway.Update.{
  Outside, fw_data_size, fw_cmac_size, packet, random_step, expect, expect_random, send_firmware,
  update_steps, can_update_firmware,
}
use xcan_router.Gateway.Protocol.{
  needed, Answer, Reliable, Progress, from_here, stopped, send_then, free_then, expect_lem,
}
use xcan_router.Gateway.Dialogue.{
  frame, image, dialogue, length-packet, suc_is_not_zero, length-take_le,
}

module _ {Queue : Type 0} (outside : Outside Queue) (ok : Reliable outside) where
  this_number :
      (due : List ℕ → List Sent) (rnd : List ℕ) (s : State Queue) (r : ℕ) (s' : State Queue)
      → Progress outside (λ _. due rnd) s r s'
      → Progress outside due s r s'
  this_number due rnd s r s' (_, n, is, end) = (rnd, n, is, end)

  ltb_lem : (bytes : List ℕ) → fw_cmac_size ≤ length bytes → ltb (length bytes) fw_cmac_size ≡ false
  ltb_lem bytes enough = ground arith

  random_answered :
      (due : List ℕ → List Sent) (next : List ℕ → Cmd Queue ℕ) (m : State Queue) (got : Option Pdu)
      → Answer outside fw_cmac_size m got
      → ((rnd : List ℕ) (s' : State Queue)
          → length rnd ≡ fw_cmac_size
          → s'.bus ≡ m.bus
          → Returns (Progress outside (λ _. due rnd) s') (next rnd s'))
      → Returns (Progress outside due m) (random_step outside next got m)
  random_answered due next m none answer after =
      stopped outside due m m outside.pd_false refl (inr refl)
  random_answered due next m (some x) (bytes, ne, live, enough) after =
      let rnd = take fw_cmac_size bytes in
      rw (==_ne x.payload 0 ne, live, ltb_lem bytes enough)
        (Returns-mono _ ((free x.payload >> next rnd) m)
          (free_then outside (λ _. due rnd) x bytes (next rnd) m ne live
            λ s'. after rnd s' (length-take_of_le fw_cmac_size bytes enough))
          λ r s''. this_number due rnd m r s'')

  random_lem :
      (secure : Bool) (due : List ℕ → List Sent) (next : List ℕ → Cmd Queue ℕ) (s : State Queue)
      → (secure ≡ true → needed s.bus ≡ fw_cmac_size)
      → ((rnd : List ℕ) (s' : State Queue)
          → length rnd ≡ fw_cmac_size
          → s'.bus ≡ s.bus
          → Returns (Progress outside (λ _. due rnd) s') (next rnd s'))
      → Returns (Progress outside due s) (expect_random outside secure next s)
  unfolding expect_random
  random_lem true due next s asked after =
      Returns-bind _ (random_step outside next) (outside.wait s) (ok.waits s)
        λ got m (same, answer).
          Returns-mono _ (random_step outside next got m)
            (random_answered due next m got
              (subst (λ n. Answer outside n m got) (asked refl) answer)
              λ rnd s' size eq. after rnd s' size (eq ∙ same))
            λ r s''. from_here outside due s m s'' r same
  random_lem false due next s asked after =
      let rnd = replicate fw_cmac_size 0 in
      Returns-mono _ (expect outside 0xff (next rnd) s)
        (expect_lem outside ok (λ _. due rnd) 0xff (next rnd) s λ s'. after rnd s' refl)
        λ r s''. this_number due rnd s r s''

  module _ (instance_no msg_id : ℕ) where
    encrypted_fits :
        (part rnd : List ℕ)
        → length part ≤ fw_data_size
        → length rnd ≡ fw_cmac_size
        → length (outside.encrypt (packet part rnd) (replicate fw_cmac_size 0)) ≤ 64
    encrypted_fits part rnd le size =
        rw (ok.keeps_length (packet part rnd) (replicate fw_cmac_size 0))
          (omega (arith, length-packet part rnd le size))

    firmware_lem :
        (rounds n : ℕ) (rnd bytes : List ℕ) (fw : outside.File) (due : List Sent)
        (next : Cmd Queue ℕ) (s : State Queue)
        → length rnd ≡ fw_cmac_size
        → ok.rest fw ≡ bytes
        → length bytes < rounds
        → length bytes ≤ n
        → ((s' : State Queue) → Returns (Progress outside (λ _. due) s') (next s'))
        → Returns
            (Progress outside (λ _. image outside instance_no msg_id n rnd bytes ++ due) s)
            (send_firmware outside instance_no msg_id rounds rnd fw next s)
    unfolding send_firmware
    firmware_lem zero n rnd bytes fw due next s size is enough le after = absurd (omega arith)
    firmware_lem (suc rounds) zero rnd [] fw due next s size is enough le after =
        let (fw', got, _) = ok.reads fw fw_data_size in rw (got, is) (after s)
    firmware_lem (suc rounds) (suc n) rnd [] fw due next s size is enough le after =
        let (fw', got, _) = ok.reads fw fw_data_size in rw (got, is) (after s)
    firmware_lem (suc rounds) zero rnd (b ∷ bytes) fw due next s size is enough le after =
        absurd (omega arith)
    firmware_lem (suc rounds) (suc n) rnd (b ∷ bytes) fw due next s size is enough le after =
        let (fw', got, rest') = ok.reads fw fw_data_size in
        let part = take fw_data_size (b ∷ bytes) in
        let more = send_firmware outside instance_no msg_id rounds rnd fw' next in
        let fewer = length-drop fw_data_size (b ∷ bytes) in
        rw (got, is, suc_is_not_zero (length (take 47 bytes)))
          (send_then outside
            (frame instance_no msg_id
              (outside.encrypt (packet part rnd) (replicate fw_cmac_size 0)))
            (λ _. image outside instance_no msg_id n rnd (drop fw_data_size (b ∷ bytes)) ++ due)
            (expect outside frame_ack more) s
            (encrypted_fits part rnd (length-take_le fw_data_size (b ∷ bytes)) size)
            λ s' eq. expect_lem outside ok _ frame_ack more s' λ s'' eq'.
              firmware_lem rounds n rnd (drop fw_data_size (b ∷ bytes)) fw' due next s'' size
                (rest' ∙ ap (drop fw_data_size) is) (omega arith) (omega arith) after)

    steps_lem :
        (rounds : ℕ) (fw : outside.File) (secure : Bool) (s : State Queue)
        → length (ok.rest fw) < rounds
        → Returns
            (Progress outside (dialogue outside instance_no msg_id secure (ok.rest fw)) s)
            (update_steps outside instance_no msg_id rounds fw secure s)
    unfolding update_steps
    steps_lem rounds fw secure s enough =
        let start = if secure then begin_sec else begin_nonsec in
        let finish =
          can_send_frame instance_no msg_id (end_cmd ∷ [])
          >> expect outside end_ack (pure outside.status_success) in
        let image_of : List ℕ → List Sent = λ rnd.
          image outside instance_no msg_id (length (ok.rest fw)) rnd (ok.rest fw)
          ++ frame instance_no msg_id (end_cmd ∷ []) ∷ [] in
        send_then outside (frame instance_no msg_id (reset_cmd ∷ [])) _ _ s (omega arith) λ s1 _.
          expect_lem outside ok _ reset_ack _ s1 λ s2 _.
            send_then outside (frame instance_no msg_id (start ∷ [])) image_of _ s2 (omega arith)
              λ s3 sent.
                random_lem secure image_of _ s3
                  (λ yes.
                    ap needed sent
                    ∙ ap
                        (λ b.
                          if has begin_sec ((if b then begin_sec else begin_nonsec) ∷ [])
                          then fw_cmac_size
                          else 1)
                        yes)
                  λ rnd s4 size _.
                    firmware_lem rounds (length (ok.rest fw)) rnd (ok.rest fw) fw
                      (frame instance_no msg_id (end_cmd ∷ []) ∷ []) finish s4 size refl enough
                      (omega arith)
                      λ s5.
                        send_then outside (frame instance_no msg_id (end_cmd ∷ [])) (λ _. []) _ s5
                          (omega arith)
                          λ s6 _.
                            expect_lem outside ok _ end_ack _ s6
                              λ s7 _. ([], 0, refl, inr (inr (refl, refl)))

  load_ecu_lem :
      (i : ℕ) (e : Ecu) (s : State Queue)
      → get_elem? s.ecus i ≡ some e
      → (k : Ecu → Cmd Queue ℕ) → (load_ecu i >>= k) s ≡ k e s
  load_ecu_lem i e s at k = rw (load_ecu, at) refl

  -- Where an answer has the bytes that are looked at, nobody else sends during the update, f_read
  -- goes through the file and the encryption keeps the length, an update over CAN comes to an end,
  -- on more rounds than the file has bytes. It has then sent, in order, some of these frames on the
  -- ECU's bus: the reset, the start, the file 48 bytes at a time, encrypted with the random number,
  -- and the end. It has sent them all unless the result is one of the two of xQueueReceive.
  pub update-sends :
      (rounds ecu_id : ℕ) (fw : outside.File) (secure : Bool) (s : State Queue) (e : Ecu)
      → get_elem? s.ecus ecu_id ≡ some e
      → length (ok.rest fw) < rounds
      → Returns
          (Progress outside
            (dialogue outside e.instance_no (typed_id type_fw_bit ecu_id) secure (ok.rest fw))
            s)
          (can_update_firmware outside rounds ecu_id fw secure s)
  unfolding can_update_firmware
  update-sends rounds ecu_id fw secure s e at enough =
      subst (Returns (Progress outside _ s))
        (sym
          (load_ecu_lem ecu_id e s at λ e. update_steps outside e.instance_no _ rounds fw secure))
        (steps_lem e.instance_no (typed_id type_fw_bit ecu_id) rounds fw secure s enough)
