-- ===== src/Gateway/Ownership.antt =====
-- Who owns the payloads: the interrupt handler and the tasks in any order.
use xcan_router.Prelude.{
  ℕ, ◌+◌, ◌≤◌, ◌≡◌, ap, ap₂, subst, ◌∙◌, ◌≢◌, inl, inr, Option, none, some, List, [], ◌∷◌, ◌++◌,
  arith, ◌==◌, if◌then◌else◌, Bool-cases,
}
use xcan_router.Run.{done, crash, IfDone}
use xcan_router.Gateway.Ecu.{Pdu}
use xcan_router.Gateway.Rtos.{Rtos}
use xcan_router.Gateway.State.{State, set_block, free}
use xcan_router.Gateway.Untouched.{Untouched}

abbrev pub one : ℕ → ℕ → ℕ
one a p = if a == p then 1 else 0

-- How many of some PDUs have their payload at an address.
abbrev pub count : ℕ → List Pdu → ℕ
count a [] = 0
count a (x ∷ xs) = one a x.payload + count a xs

pub count-append :
    (a : ℕ) (xs : List Pdu) (x : Pdu) → count a (xs ++ x ∷ []) ≡ count a xs + one a x.payload
count-append a [] x = omega arith
count-append a (y ∷ xs) x = omega (arith, count-append a xs x)

-- 1 for the address of a live block.
abbrev pub alive : {Queue : Type 0} → State Queue → ℕ → ℕ
alive s a = elim (s.blocks a) [ none ↦ 0 | some _ ↦ 1 ]

pub one_zero : (a : ℕ) → a ≢ 0 → one a 0 ≡ 0
one_zero a ne = ground arith

module _ (rtos : Rtos) where
  -- How many PDUs in the three queues have their payload at an address.
  abbrev pub held : State rtos.Handle → ℕ → ℕ
  held s a =
      count a (rtos.contents s.pdu_queue)
      + count a (rtos.contents s.gateway_queue)
      + count a (rtos.contents s.fw_queue)

  -- Each payload of a PDU in a queue is a live block that no other PDU has, and so is `p`, which a
  -- task has in hand; null aside, which a PDU without bytes may have. Addresses from `brk` on have
  -- not been handed out.
  pub record OwnedWith (p : ℕ) (s : State rtos.Handle) : Type 0 where
    pub owned : (a : ℕ) → a ≢ 0 → held s a + one a p ≤ alive s a
    pub fresh : (a : ℕ) → s.brk ≤ a → s.blocks a ≡ none

  -- No task has a payload in hand.
  abbrev pub Owned : State rtos.Handle → Type 0
  Owned = OwnedWith 0

  held-Untouched :
      {s s' : State rtos.Handle} (a : ℕ)
      → Untouched s s'
      → (held s' a ≡ held s a) × (alive s' a ≡ alive s a)
  held-Untouched {s} {s'} a u = (
    ap₂ ◌+◌
        (ap₂ ◌+◌ (ap (λ q. count a (rtos.contents q)) u.pdu_same)
          (ap (λ q. count a (rtos.contents q)) u.gateway_same))
        (ap (λ q. count a (rtos.contents q)) u.fw_same),
    ap (λ (blocks : ℕ → Option (List ℕ)). elim (blocks a) [ none ↦ 0 | some _ ↦ 1 ]) u.blocks_same,
  )

  pub keeps : {p : ℕ} {s s' : State rtos.Handle} → Untouched s s' → OwnedWith p s → OwnedWith p s'
  keeps {p} {s} {s'} u o = record {
    owned = λ a ne. let (same_held, same_alive) = held-Untouched a u in omega (arith, o.owned a ne);
    fresh = λ a le.
        ap (λ (blocks : ℕ → Option (List ℕ)). blocks a) u.blocks_same
        ∙ o.fresh a (subst (λ n. n ≤ a) u.brk_same le);
  }

  -- A payload that is no longer in hand may leak.
  pub leaks : {p : ℕ} {s : State rtos.Handle} → OwnedWith p s → Owned s
  leaks {p} {s} o = record {
    owned = λ a ne. omega (arith, o.owned a ne, one_zero a ne);
    fresh = o.fresh;
  }

  free_block :
      (p : ℕ) (s : State rtos.Handle)
      → OwnedWith p s
      → IfDone
          (λ _ s'. Owned s')
          (elim (s.blocks p) [
            | none ↦ crash
            | some _ ↦ done tt (record s { blocks = set_block s.blocks p none })
          ])
  free_block p s o =
      elim (s.blocks p)
        as (λ v.
          IfDone (λ _ s'. Owned s')
            (elim v [
              | none ↦ crash
              | some _ ↦ done tt (record s { blocks = set_block s.blocks p none })
            ])) [
              | none ↦ tt
              | some _ ↦ record {
                owned = λ a ne. ground (arith, o.owned a ne, one_zero a ne);
                fresh = λ a le. ground (arith, o.fresh a le);
              }
            ]

  pub free-Owned :
      (p : ℕ) (s : State rtos.Handle) → OwnedWith p s → IfDone (λ _ s'. Owned s') (free p s)
  free-Owned p s o = elim (Bool-cases (p == 0)) [
    | inl is ↦ rw (is) (leaks o)
    | inr other ↦ rw (other) (free_block p s o)
  ]
