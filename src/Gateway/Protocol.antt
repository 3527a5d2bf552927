-- ===== src/Gateway/Protocol.antt =====
-- The firmware update over CAN, seen from the bus.
use xcan_router.Prelude.{
  ℕ, suc, ◌≤◌, ◌≡◌, refl, sym, ap, subst, ◌∙◌, ◌≢◌, ◌⊎◌, inl, inr, false, ◌&&◌, Option, none, some,
  List, [], ◌∷◌, arith, ltb, ◌==◌, if◌then◌else◌, Bool-cases, ==_ne, length, take, drop, has,
}
use xcan_router.Run.{done, crash, then_run, ◌>>◌, Returns, Returns-bind, Returns-mono}
use xcan_router.Gateway.Ecu.{Pdu, begin_sec}
use xcan_router.Gateway.State.{State, Sent, Cmd, set_block, free}
use xcan_router.Gateway.Can.{can_send_frame}
use xcan_router.Gateway.Update.{Outside, fw_cmac_size, answer_step, expect}
use xcan_router.Gateway.Deliver.{latest_first}

-- How many bytes the answer to the latest frame has at least: the random number, or one.
abbrev pub needed : List Sent → ℕ
needed [] = 1
needed (f ∷ bus) = if length f.bytes == 1 && has begin_sec f.bytes then fw_cmac_size else 1

module _ {Queue : Type 0} (outside : Outside Queue) where
  -- A payload of at least `n` bytes is there for a PDU that was received.
  abbrev pub Answer : ℕ → State Queue → Option Pdu → Type 0
  Answer n s none = Unit
  Answer n s (some x) =
      (bytes : List ℕ) × (x.payload ≢ 0) × (s.blocks x.payload ≡ some bytes) × (n ≤ length bytes)

  -- What the update relies on: while it waits nobody else sends, f_read goes through the file
  -- without an error, and the encrypted buffer is as long as the plain one.
  pub record Reliable : Type 0 where
    pub rest : outside.File → List ℕ
    pub waits :
        (s : State Queue)
        → Returns (λ got s'. (s'.bus ≡ s.bus) × Answer (needed s.bus) s' got) (outside.wait s)
    pub reads :
        (fw : outside.File) (n : ℕ)
        → (fw' : outside.File) × (outside.read fw n ≡ (take n (rest fw), fw'))
          × (rest fw' ≡ drop n (rest fw))
    pub keeps_length : (buffer iv : List ℕ) → length (outside.encrypt buffer iv) ≡ length buffer

  -- The bus has some of the frames that are due, in their order, and all of them where the result
  -- is not one of the two that xQueueReceive gives. The frames may depend on the random number.
  abbrev pub Progress : (List ℕ → List Sent) → State Queue → ℕ → State Queue → Type 0
  Progress due s r s' =
      (rnd : List ℕ) × (n : ℕ) × (s'.bus ≡ latest_first (take n (due rnd)) s.bus)
      × ((r ≡ outside.pd_true)
          ⊎ (r ≡ outside.pd_false)
          ⊎ (r ≡ outside.status_success) × (n ≡ length (due rnd)))

  extend :
      (f : Sent) (due : List ℕ → List Sent) (s s' s'' : State Queue) (r : ℕ)
      → s'.bus ≡ f ∷ s.bus
      → Progress due s' r s''
      → Progress (λ rnd. f ∷ due rnd) s r s''
  extend f due s s' s'' r sent (rnd, n, is, inl wrong) =
      (rnd, suc n, is ∙ ap (latest_first (take n (due rnd))) sent, inl wrong)
  extend f due s s' s'' r sent (rnd, n, is, inr (inl late)) =
      (rnd, suc n, is ∙ ap (latest_first (take n (due rnd))) sent, inr (inl late))
  extend f due s s' s'' r sent (rnd, n, is, inr (inr (fine, all))) =
      (rnd, suc n, is ∙ ap (latest_first (take n (due rnd))) sent, inr (inr (fine, ap suc all)))

  -- The bus does not change before `after`.
  pub from_here :
      (due : List ℕ → List Sent) (s s' s'' : State Queue) (r : ℕ)
      → s'.bus ≡ s.bus
      → Progress due s' r s''
      → Progress due s r s''
  from_here due s s' s'' r same (rnd, n, is, end) =
      (rnd, n, is ∙ ap (latest_first (take n (due rnd))) same, end)

  pub stopped :
      (due : List ℕ → List Sent) (s s' : State Queue) (r : ℕ)
      → s'.bus ≡ s.bus
      → (r ≡ outside.pd_true) ⊎ (r ≡ outside.pd_false)
      → Progress due s r s'
  stopped due s s' r same (inl wrong) = ([], 0, same, inl wrong)
  stopped due s s' r same (inr late) = ([], 0, same, inr (inl late))

  leb_lem : (n : ℕ) → n ≤ 64 → ltb 64 n ≡ false
  leb_lem n le = ground arith

  pub send_then :
      (f : Sent) (due : List ℕ → List Sent) (next : Cmd Queue ℕ) (s : State Queue)
      → length f.bytes ≤ 64
      → ((s' : State Queue) → s'.bus ≡ f ∷ s.bus → Returns (Progress due s') (next s'))
      → Returns
          (Progress (λ rnd. f ∷ due rnd) s)
          ((can_send_frame f.instance_no f.id f.bytes >> next) s)
  unfolding can_send_frame
  send_then f due next s fits after =
      let s' = record s { bus = f ∷ s.bus } in
      subst
        (λ b.
          Returns (Progress (λ rnd. f ∷ due rnd) s)
            (then_run (if b then crash else done tt s') λ _. next))
        (sym (leb_lem (length f.bytes) fits))
        (Returns-mono _ (next s') (after s' refl) λ r s''. extend f due s s' s'' r refl)

  -- An answer is freed before the update goes on.
  pub free_then :
      (due : List ℕ → List Sent) (x : Pdu) (bytes : List ℕ) (next : Cmd Queue ℕ) (s : State Queue)
      → x.payload ≢ 0
      → s.blocks x.payload ≡ some bytes
      → ((s' : State Queue) → s'.bus ≡ s.bus → Returns (Progress due s') (next s'))
      → Returns (Progress due s) ((free x.payload >> next) s)
  free_then due x bytes next s ne live after =
      let s' = record s { blocks = set_block s.blocks x.payload none } in
      rw (==_ne x.payload 0 ne, live)
        (Returns-mono _ (next s') (after s' refl) λ r s''. from_here due s s' s'' r refl)

  first_byte :
      (due : List ℕ → List Sent) (ack : ℕ) (x : Pdu) (bytes : List ℕ) (next : Cmd Queue ℕ)
      (s : State Queue)
      → x.payload ≢ 0
      → s.blocks x.payload ≡ some bytes
      → 1 ≤ length bytes
      → ((s' : State Queue) → s'.bus ≡ s.bus → Returns (Progress due s') (next s'))
      → Returns (Progress due s) (answer_step outside ack next (some x) s)
  first_byte due ack x [] next s ne live enough after = absurd (omega arith)
  first_byte due ack x (b ∷ bs) next s ne live enough after = elim (Bool-cases (b == ack)) [
    | inl is ↦ rw (==_ne x.payload 0 ne, live, is) (free_then due x (b ∷ bs) next s ne live after)
    | inr differs ↦
        rw (==_ne x.payload 0 ne, live, differs) (stopped due s s outside.pd_true refl (inl refl))
  ]

  needed_pos : (bus : List Sent) → 1 ≤ needed bus
  needed_pos [] = omega arith
  needed_pos (f ∷ bus) = ground arith

  answered :
      (due : List ℕ → List Sent) (ack : ℕ) (next : Cmd Queue ℕ) (m : State Queue) (n : ℕ)
      (got : Option Pdu)
      → 1 ≤ n
      → Answer n m got
      → ((s' : State Queue) → s'.bus ≡ m.bus → Returns (Progress due s') (next s'))
      → Returns (Progress due m) (answer_step outside ack next got m)
  answered due ack next m n none pos_n answer after =
      stopped due m m outside.pd_false refl (inr refl)
  answered due ack next m n (some x) pos_n (bytes, ne, live, enough) after =
      first_byte due ack x bytes next m ne live (omega arith) after

  module _ (ok : Reliable) where
    pub expect_lem :
        (due : List ℕ → List Sent) (ack : ℕ) (next : Cmd Queue ℕ) (s : State Queue)
        → ((s' : State Queue) → s'.bus ≡ s.bus → Returns (Progress due s') (next s'))
        → Returns (Progress due s) (expect outside ack next s)
    unfolding expect
    expect_lem due ack next s after =
        Returns-bind _ (answer_step outside ack next) (outside.wait s) (ok.waits s)
          λ got m (same, answer).
            Returns-mono _ (answer_step outside ack next got m)
              (answered due ack next m (needed s.bus) got (needed_pos s.bus) answer
                λ s' eq. after s' (eq ∙ same))
              λ r s''. from_here due s m s'' r same
