-- ===== src/Gateway/Answering.antt =====
-- CAN_updateFirmware with an ECU that gives each answer: one exchange.
use xcan_router.Prelude.{
  ℕ, ◌≤◌, ◌≡◌, ◌≢◌, refl, sym, ap, subst, ◌∙◌, Bool, true, false, Option, none, some, List, [], ◌∷◌,
  ◌++◌, arith, ltb, ◌==◌, if◌then◌else◌, ==_ne, ==_self, length, take, drop, replicate,
  length-append, take-append,
}
use xcan_router.Run.{done, crash, then_run, ◌>>◌, Returns, Returns-bind, Returns-mono}
use xcan_router.Gateway.Ecu.{Pdu, reset_cmd, reset_ack, begin_sec, begin_nonsec, frame_ack, end_ack}
use xcan_router.Gateway.State.{State, Sent, Cmd, set_block, free}
use xcan_router.Gateway.Can.{can_send_frame}
use xcan_router.Gateway.Update.{
  Outside, fw_cmac_size, answer_step, random_step, expect, expect_random,
}
use xcan_router.Gateway.Deliver.{latest_first}

module _ {Queue : Type 0} (outside : Outside Queue) where
  -- What the answer to a frame begins with, where the ECU's random number is `challenge`.
  abbrev pub ack_for : List ℕ → List ℕ → List ℕ
  ack_for challenge [] = []
  ack_for challenge (c ∷ []) =
      if c == reset_cmd
      then reset_ack ∷ []
      else if c == begin_sec
      then challenge
      else if c == begin_nonsec
      then 0xff ∷ []
      else end_ack ∷ []
  ack_for challenge (c ∷ d ∷ bytes) = frame_ack ∷ []

  abbrev pub ack_for_latest : List ℕ → List Sent → List ℕ
  ack_for_latest challenge [] = []
  ack_for_latest challenge (f ∷ bus) = ack_for challenge f.bytes

  -- A PDU is there whose payload begins with some bytes.
  abbrev pub Answers : List ℕ → State Queue → Option Pdu → Type 0
  Answers ack s none = ⊥
  Answers ack s (some x) =
      (rest : List ℕ) × (x.payload ≢ 0) × (s.blocks x.payload ≡ some (ack ++ rest))

  -- While the update waits nobody else sends, and the ECU answers the latest frame; f_read goes
  -- through the file without an error, and the encrypted buffer is as long as the plain one.
  pub record Cooperates : Type 0 where
    pub challenge : List ℕ
    pub challenge_full : length challenge ≡ fw_cmac_size
    pub rest : outside.File → List ℕ
    pub waits :
        (s : State Queue)
        → Returns
            (λ got s'. (s'.bus ≡ s.bus) × Answers (ack_for_latest challenge s.bus) s' got)
            (outside.wait s)
    pub reads :
        (fw : outside.File) (n : ℕ)
        → (fw' : outside.File) × (outside.read fw n ≡ (take n (rest fw), fw'))
          × (rest fw' ≡ drop n (rest fw))
    pub keeps_length : (buffer iv : List ℕ) → length (outside.encrypt buffer iv) ≡ length buffer

  -- The update has succeeded, and the bus has exactly these frames more.
  abbrev pub Completes : List Sent → State Queue → ℕ → State Queue → Type 0
  Completes due s r s' = (r ≡ outside.status_success) × (s'.bus ≡ latest_first due s.bus)

  leb_lem : (n : ℕ) → n ≤ 64 → ltb 64 n ≡ false
  leb_lem n le = ground arith

  pub send_next :
      (f : Sent) (due : List Sent) (next : Cmd Queue ℕ) (s : State Queue)
      → length f.bytes ≤ 64
      → ((s' : State Queue) → s'.bus ≡ f ∷ s.bus → Returns (Completes due s') (next s'))
      → Returns (Completes (f ∷ due) s) ((can_send_frame f.instance_no f.id f.bytes >> next) s)
  unfolding can_send_frame
  send_next f due next s fits after =
      let s' = record s { bus = f ∷ s.bus } in
      subst
        (λ b.
          Returns (Completes (f ∷ due) s) (then_run (if b then crash else done tt s') λ _. next))
        (sym (leb_lem (length f.bytes) fits)) (after s' refl)

  same_bus :
      (due : List Sent) (s s' : State Queue) (r : ℕ) (s'' : State Queue)
      → s'.bus ≡ s.bus
      → Completes due s' r s''
      → Completes due s r s''
  same_bus due s s' r s'' same (fine, all) = (fine, all ∙ ap (latest_first due) same)

  free_next :
      (due : List Sent) (x : Pdu) (bytes : List ℕ) (next : Cmd Queue ℕ) (s : State Queue)
      → x.payload ≢ 0
      → s.blocks x.payload ≡ some bytes
      → ((s' : State Queue) → s'.bus ≡ s.bus → Returns (Completes due s') (next s'))
      → Returns (Completes due s) ((free x.payload >> next) s)
  free_next due x bytes next s ne live after =
      let s' = record s { blocks = set_block s.blocks x.payload none } in
      rw (==_ne x.payload 0 ne, live) (after s' refl)

  answer_next :
      (due : List Sent) (ack : ℕ) (next : Cmd Queue ℕ) (m : State Queue) (got : Option Pdu)
      → Answers (ack ∷ []) m got
      → ((s' : State Queue) → s'.bus ≡ m.bus → Returns (Completes due s') (next s'))
      → Returns (Completes due m) (answer_step outside ack next got m)
  answer_next due ack next m none answer after = absurd answer
  answer_next due ack next m (some x) (rest, ne, live) after =
      rw (==_ne x.payload 0 ne, live, ==_self ack)
        (free_next due x (ack ∷ rest) next m ne live after)

  length-short : (ack rest : List ℕ) → length ack ≡ 16 → ltb (length (ack ++ rest)) 16 ≡ false
  length-short ack rest full = grind (arith, length-append ack rest, full)

  random_next :
      (due : List Sent) (challenge : List ℕ) (next : List ℕ → Cmd Queue ℕ) (m : State Queue)
      (got : Option Pdu)
      → length challenge ≡ 16
      → Answers challenge m got
      → ((s' : State Queue) → s'.bus ≡ m.bus → Returns (Completes due s') (next challenge s'))
      → Returns (Completes due m) (random_step outside next got m)
  random_next due challenge next m none full answer after = absurd answer
  random_next due challenge next m (some x) full (rest, ne, live) after =
      rw
        (
          ==_ne x.payload 0 ne,
          live,
          length-short challenge rest full,
          take-append 16 challenge rest full,
        )
        (free_next due x (challenge ++ rest) (next challenge) m ne live after)

  module _ (ok : Cooperates) where
    -- The frame that was sent last is answered.
    pub expect_next :
        (due : List Sent) (ack : ℕ) (next : Cmd Queue ℕ) (s : State Queue)
        → ack_for_latest ok.challenge s.bus ≡ ack ∷ []
        → ((s' : State Queue) → s'.bus ≡ s.bus → Returns (Completes due s') (next s'))
        → Returns (Completes due s) (expect outside ack next s)
    unfolding expect
    expect_next due ack next s is after =
        Returns-bind _ (answer_step outside ack next) (outside.wait s) (ok.waits s)
          λ got m (same, answer).
            Returns-mono _ (answer_step outside ack next got m)
              (answer_next due ack next m got (subst (λ l. Answers l m got) is answer)
                λ s' eq. after s' (eq ∙ same))
              λ r s''. same_bus due s m r s'' same

    -- The number that the frames of the file carry: the ECU's, or zeros without security.
    abbrev pub number : Bool → List ℕ
    number secure = if secure then ok.challenge else replicate fw_cmac_size 0

    pub expect_random_next :
        (secure : Bool) (due : List Sent) (next : List ℕ → Cmd Queue ℕ) (s : State Queue)
        → ack_for_latest ok.challenge s.bus
          ≡ ack_for ok.challenge ((if secure then begin_sec else begin_nonsec) ∷ [])
        → ((s' : State Queue)
            → s'.bus ≡ s.bus
            → Returns (Completes due s') (next (number secure) s'))
        → Returns (Completes due s) (expect_random outside secure next s)
    unfolding expect_random
    expect_random_next true due next s is after =
        Returns-bind _ (random_step outside next) (outside.wait s) (ok.waits s)
          λ got m (same, answer).
            Returns-mono _ (random_step outside next got m)
              (random_next due ok.challenge next m got ok.challenge_full
                (subst (λ l. Answers l m got) is answer) λ s' eq. after s' (eq ∙ same))
              λ r s''. same_bus due s m r s'' same
    expect_random_next false due next s is after =
        expect_next due 0xff (next (replicate fw_cmac_size 0)) s is after

    pub length-number : (secure : Bool) → length (number secure) ≡ fw_cmac_size
    length-number true = ok.challenge_full
    length-number false = refl

    pub long_answered :
        (challenge bytes : List ℕ) → 2 ≤ length bytes → ack_for challenge bytes ≡ frame_ack ∷ []
    long_answered challenge [] le = absurd (omega arith)
    long_answered challenge (c ∷ []) le = absurd (omega arith)
    long_answered challenge (c ∷ d ∷ bytes) le = refl
