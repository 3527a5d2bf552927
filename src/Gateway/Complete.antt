-- ===== src/Gateway/Complete.antt =====
-- CAN_updateFirmware with an ECU that gives each answer.
use xcan_router.Prelude.{
  ℕ, zero, suc, ◌≤◌, ◌<◌, ◌≡◌, refl, sym, ap, subst, ◌∙◌, Bool, none, some, List, [], ◌∷◌, ◌++◌,
  arith, if◌then◌else◌, length, get_elem?, take, drop, replicate, length-drop,
}
use xcan_router.Run.{pure, ◌>>=◌, ◌>>◌, Returns}
use xcan_router.Gateway.Ecu.{
  Ecu, type_fw_bit, typed_id, reset_cmd, reset_ack, begin_sec, begin_nonsec, frame_ack, end_cmd,
  end_ack,
}
use xcan_router.Gateway.State.{State, Sent, Cmd, load_ecu}
use xcan_router.Gateway.Can.{can_send_frame}
use xcan_router.Gateway.Update.{
  Outside, fw_data_size, fw_cmac_size, packet, expect, send_firmware, update_steps,
  can_update_firmware,
}
use xcan_router.Gateway.Deliver.{latest_first}
use xcan_router.Gateway.Dialogue.{
  frame, image, dialogue, length-packet, suc_is_not_zero, length-take_le,
}
use xcan_router.Gateway.Answering.{
  ack_for_latest, Cooperates, Completes, send_next, number, expect_next, expect_random_next,
  length-number, long_answered,
}
use xcan_router.Console.Frames.{label_of}
use xcan_router.Console.Text.{codes}
use xcan_router.Console.Sends.{ReportFits}

module _ {Queue : Type 0} (outside : Outside Queue) (ok : Cooperates outside)
    (instance_no msg_id : ℕ) where
  length-encrypted :
      (part rnd : List ℕ)
      → length part ≤ fw_data_size
      → length rnd ≡ fw_cmac_size
      → length (outside.encrypt (packet part rnd) (replicate fw_cmac_size 0)) ≡ 64
  length-encrypted part rnd le size =
      ok.keeps_length (packet part rnd) (replicate fw_cmac_size 0) ∙ length-packet part rnd le size

  firmware_next :
      (rounds n : ℕ) (rnd bytes : List ℕ) (fw : outside.File) (due : List Sent) (next : Cmd Queue ℕ)
      (s : State Queue)
      → length rnd ≡ fw_cmac_size
      → ok.rest fw ≡ bytes
      → length bytes < rounds
      → length bytes ≤ n
      → ((s' : State Queue) → Returns (Completes outside due s') (next s'))
      → Returns
          (Completes outside (image outside instance_no msg_id n rnd bytes ++ due) s)
          (send_firmware outside instance_no msg_id rounds rnd fw next s)
  unfolding send_firmware
  firmware_next zero n rnd bytes fw due next s size is enough le after = absurd (omega arith)
  firmware_next (suc rounds) zero rnd [] fw due next s size is enough le after =
      let (fw', got, _) = ok.reads fw fw_data_size in rw (got, is) (after s)
  firmware_next (suc rounds) (suc n) rnd [] fw due next s size is enough le after =
      let (fw', got, _) = ok.reads fw fw_data_size in rw (got, is) (after s)
  firmware_next (suc rounds) zero rnd (b ∷ bytes) fw due next s size is enough le after =
      absurd (omega arith)
  firmware_next (suc rounds) (suc n) rnd (b ∷ bytes) fw due next s size is enough le after =
      let (fw', got, rest') = ok.reads fw fw_data_size in
      let part = take fw_data_size (b ∷ bytes) in
      let later = drop fw_data_size (b ∷ bytes) in
      let sent = outside.encrypt (packet part rnd) (replicate fw_cmac_size 0) in
      let more = send_firmware outside instance_no msg_id rounds rnd fw' next in
      let fewer = length-drop fw_data_size (b ∷ bytes) in
      let full = length-encrypted part rnd (length-take_le fw_data_size (b ∷ bytes)) size in
      rw (got, is, suc_is_not_zero (length (take 47 bytes)))
        (send_next outside (frame instance_no msg_id sent)
          (image outside instance_no msg_id n rnd later ++ due) (expect outside frame_ack more) s
          (omega (arith, full))
          λ s' eq.
            expect_next outside ok (image outside instance_no msg_id n rnd later ++ due) frame_ack
              more s'
              (ap (ack_for_latest outside ok.challenge) eq
                ∙ long_answered outside ok ok.challenge sent (omega (arith, full)))
              λ s'' _.
                firmware_next rounds n rnd later fw' due next s'' size
                  (rest' ∙ ap (drop fw_data_size) is) (omega arith) (omega arith) after)

  steps_next :
      (rounds : ℕ) (fw : outside.File) (secure : Bool) (s : State Queue)
      → length (ok.rest fw) < rounds
      → Returns
          (Completes outside
            (dialogue outside instance_no msg_id secure (ok.rest fw) (number outside ok secure))
            s)
          (update_steps outside instance_no msg_id rounds fw secure s)
  unfolding update_steps
  steps_next rounds fw secure s enough =
      let start = if secure then begin_sec else begin_nonsec in
      let last = frame instance_no msg_id (end_cmd ∷ []) in
      let finish =
        can_send_frame instance_no msg_id (end_cmd ∷ [])
        >> expect outside end_ack (pure outside.status_success) in
      let after_begin =
        image outside instance_no msg_id (length (ok.rest fw)) (number outside ok secure)
          (ok.rest fw)
        ++ last ∷ [] in
      let after_reset = frame instance_no msg_id (start ∷ []) ∷ after_begin in
      send_next outside (frame instance_no msg_id (reset_cmd ∷ [])) after_reset _ s (omega arith)
        λ s1 e1.
          expect_next outside ok after_reset reset_ack _ s1
            (ap (ack_for_latest outside ok.challenge) e1)
            λ s2 _.
              send_next outside (frame instance_no msg_id (start ∷ [])) after_begin _ s2
                (omega arith)
                λ s3 e3.
                  expect_random_next outside ok secure after_begin _ s3
                    (ap (ack_for_latest outside ok.challenge) e3)
                    λ s4 _.
                      firmware_next rounds (length (ok.rest fw)) (number outside ok secure)
                        (ok.rest fw) fw (last ∷ []) finish s4 (length-number outside ok secure) refl
                        enough (omega arith)
                        λ s5. send_next outside last [] _ s5 (omega arith) λ s6 e6.
                          expect_next outside ok [] end_ack _ s6
                            (ap (ack_for_latest outside ok.challenge) e6) λ s7 _. (refl, refl)

load_ecu_lem :
    {Queue : Type 0} (i : ℕ) (e : Ecu) (s : State Queue)
    → get_elem? s.ecus i ≡ some e
    → (k : Ecu → Cmd Queue ℕ) → (load_ecu i >>= k) s ≡ k e s
load_ecu_lem i e s at k = rw (load_ecu, at) refl

-- The report of each frame fits its buffer, where CAN_SendBlocking succeeds.
abbrev pub AllFit : List Sent → Type 0
AllFit [] = Unit
AllFit (f ∷ fs) = ReportFits f.id f.bytes none × AllFit fs

firmware_label :
    (ecu_id : ℕ) → ecu_id < 256 → label_of (typed_id type_fw_bit ecu_id) ≡ some (codes "FIRMWARE  ")
firmware_label ecu_id small = grind arith

fw_fits :
    (ecu_id : ℕ) (bytes : List ℕ)
    → ecu_id < 256
    → ReportFits (typed_id type_fw_bit ecu_id) bytes none
fw_fits ecu_id bytes small = (codes "FIRMWARE  ", firmware_label ecu_id small, omega arith)

module _ {Queue : Type 0} (outside : Outside Queue) (ok : Cooperates outside) (rounds ecu_id : ℕ)
    (small : ecu_id < 256) (fw : outside.File) (secure : Bool) where
  image-AllFit :
      (instance_no n : ℕ) (rnd bytes : List ℕ) (due : List Sent)
      → AllFit due
      → AllFit (image outside instance_no (typed_id type_fw_bit ecu_id) n rnd bytes ++ due)
  image-AllFit instance_no zero rnd bytes due fit = fit
  image-AllFit instance_no (suc n) rnd [] due fit = fit
  image-AllFit instance_no (suc n) rnd (b ∷ bytes) due fit = (
    fw_fits ecu_id
        (outside.encrypt (packet (take fw_data_size (b ∷ bytes)) rnd) (replicate fw_cmac_size 0))
        small,
    image-AllFit instance_no n rnd (drop fw_data_size (b ∷ bytes)) due fit,
  )

  -- Where the ECU gives each answer, nobody else sends during the update, f_read goes through the
  -- file without an error and the encryption keeps the length, an update over CAN of an ECU whose
  -- number is a byte, with more rounds than the file has bytes, succeeds. The ECU's bus then has the
  -- frames of the update and no others more: the reset, the start, the whole file 48 bytes at a time,
  -- encrypted with the random number of the ECU's answer, or zeros without security, and the end.
  -- The report that DEBUG_ENABLE adds for each of them fits its buffer, where CAN_SendBlocking
  -- succeeds.
  pub update-completes :
      (s : State Queue) (e : Ecu)
      → get_elem? s.ecus ecu_id ≡ some e
      → length (ok.rest fw) < rounds
      → let id = typed_id type_fw_bit ecu_id in
        let due =
          dialogue outside e.instance_no id secure (ok.rest fw) (number outside ok secure) in
        Returns
          (λ r s'. (r ≡ outside.status_success) × (s'.bus ≡ latest_first due s.bus))
          (can_update_firmware outside rounds ecu_id fw secure s)
        × AllFit due
  unfolding can_update_firmware
  update-completes s e at enough =
      let id = typed_id type_fw_bit ecu_id in
      let start = if secure then begin_sec else begin_nonsec in
      let bytes = ok.rest fw in
      let rnd = number outside ok secure in
      let due = dialogue outside e.instance_no id secure bytes rnd in
      (
        subst (Returns (Completes outside due s))
            (sym (
              load_ecu_lem ecu_id e s at
                λ e. update_steps outside e.instance_no id rounds fw secure))
            (steps_next outside ok e.instance_no id rounds fw secure s enough),
        (
          fw_fits ecu_id (reset_cmd ∷ []) small,
          (
            fw_fits ecu_id (start ∷ []) small,
            image-AllFit e.instance_no (length bytes) rnd bytes
                (frame e.instance_no id (end_cmd ∷ []) ∷ [])
                (fw_fits ecu_id (end_cmd ∷ []) small, tt),
          ),
        ),
      )
