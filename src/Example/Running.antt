-- ===== src/Example/Running.antt =====
-- The example program, once its devices are registered.
use xcan_router.Prelude.{
  true, ◌⊎◌, inl, inr, Bool-cases, ℕ, zero, suc, ◌+◌, ◌≤◌, ◌<◌, ◌≡◌, refl, ap, subst, ◌∙◌, ◌≢◌,
  Bool, false, none, some, List, [], ◌∷◌, arith, ==_ne, length, get_elem?, length-set,
}
use xcan_router.Prelude.Int.{negsuc, ℤ, is_minus_one, pos}
use xcan_router.Memory.{crash, Ptr, null, Mem, zero_queue, IsFresh, Returns, Returns-bind}
use xcan_router.Memory.{Ptr, null, Mem, zero_queue, IsFresh, Returns, Returns-bind}
use xcan_router.Prelude.Int.{ℤ, is_minus_one, pos}
use xcan_router.Prelude.{
  ℕ, zero, suc, ◌+◌, ◌≤◌, ◌<◌, ◌≡◌, refl, ap, subst, ◌∙◌, ◌≢◌, Bool, false, none, some, List, [],
  ◌∷◌, arith, ==_ne, length, get_elem?, length-set,
}
use xcan_router.Queue.Chain.{Queued, Chain}
use xcan_router.Device.{max_devices}
use xcan_router.Device.Slots.{Slot, Slots, SlotHolds}
use xcan_router.SocketCan.{CanApi, socketcan_create, socketcan_driver}
use xcan_router.SocketCan.Create.{created}
use xcan_router.Stack.{stack_tick, stack_init}
use xcan_router.Stack.Sequence.{InOrder, tick-InOrder}
use xcan_router.Example.{Socket, routing_table, vcan, ticks, example_main}
use xcan_router.Example.Devices.{Registered, registered}

-- The pool with the two devices, of which the first is at `p`.
abbrev pub both_slots : ℕ → ℕ → Ptr → Slots
both_slots opened0 opened1 p zero = some (record { dev = p; device = created opened0 0 (vcan 0) p })
both_slots opened0 opened1 p (suc zero) =
    some (record { dev = p + 3; device = created opened1 1 (vcan 1) (p + 3) })
both_slots opened0 opened1 p (suc (suc i)) = none

-- A pool of null pointers, as the program starts with.
abbrev pub empty_pool : List Ptr
empty_pool = null ∷ null ∷ null ∷ null ∷ []

zero_queue-IsQueue :
    {m : Mem} {qp : Ptr} → qp ≢ null → m.queues qp ≡ some zero_queue → Queued m qp []
zero_queue-IsQueue ne live = (
  zero_queue,
  record { ne_null = ne; live = live; chain = Chain.nil; ends = refl; counts = refl },
)

module _ (opened0 opened1 : ℕ) {m m1 m2 : Mem} {p0 p1 : Ptr} (fr : IsFresh m)
    (pool : m.pool ≡ empty_pool) (r0 : Registered opened0 0 (vcan 0) m p0 m1)
    (r1 : Registered opened1 1 (vcan 1) m1 p1 m2) where
  both_pool : m2.pool ≡ m.brk ∷ (m.brk + 3) ∷ null ∷ null ∷ []
  both_pool = rw (r1.pool, r0.brk, r0.pool, pool) refl

  both_held : (i : ℕ) → i < max_devices → SlotHolds m2 i (both_slots opened0 opened1 m.brk i) []
  both_held zero b = (
    ap (λ (l : List Ptr). get_elem? l 0) both_pool,
    omega (arith, fr.started),
    r1.devices_same m.brk (omega (arith, r0.brk)) ∙ r0.device,
    zero_queue-IsQueue (omega arith) (r1.queues_same (m.brk + 1) (omega (arith, r0.brk)) ∙ r0.q_in),
  )
  both_held (suc zero) b = (
    ap (λ (l : List Ptr). get_elem? l 1) both_pool,
    omega arith,
    subst (λ (p : Ptr). m2.devices p ≡ some (created opened1 1 (vcan 1) p)) r0.brk r1.device,
    zero_queue-IsQueue (omega arith)
        (subst (λ (p : Ptr). m2.queues (p + 1) ≡ some zero_queue) r0.brk r1.q_in),
  )
  both_held (suc (suc zero)) b = (ap (λ (l : List Ptr). get_elem? l 2) both_pool, refl)
  both_held (suc (suc (suc zero))) b = (ap (λ (l : List Ptr). get_elem? l 3) both_pool, refl)
  both_held (suc (suc (suc (suc i)))) b = ground arith

  both_own :
      (i j : ℕ) (x y : Slot)
      → i ≢ j
      → both_slots opened0 opened1 m.brk i ≡ some x
      → both_slots opened0 opened1 m.brk j ≡ some y
      → x.device.q_in ≢ y.device.q_in
  both_own zero zero x y ne a b = ground arith
  both_own zero (suc zero) x y ne a b = ground arith
  both_own zero (suc (suc j)) x y ne a b = ground arith
  both_own (suc zero) zero x y ne a b = ground arith
  both_own (suc zero) (suc zero) x y ne a b = ground arith
  both_own (suc zero) (suc (suc j)) x y ne a b = ground arith
  both_own (suc (suc i)) j x y ne a b = ground arith

  both-InOrder : InOrder (both_slots opened0 opened1 m.brk) m2
  both-InOrder = (
    (
      λ _. [],
      record { held = both_held; own_queue = both_own; own_frames = λ i j a ne h. refl },
      λ j le. refl,
    ),
    r1.fresh,
  )

module _ (api : CanApi) (debug : Bool) (opened0 opened1 : ℕ) (bound0 bound1 : ℤ) where
  ticks-InOrder :
      (rounds : ℕ) {s : Slots} {m : Mem}
      → InOrder s m
      → Returns (λ _ m'. InOrder s m') (ticks api debug 1 rounds m)
  unfolding ticks
  ticks-InOrder zero order = order
  ticks-InOrder (suc rounds) {s} {m} order =
      Returns-bind _ _ (stack_tick (socketcan_driver api debug) m)
        (tick-InOrder (socketcan_driver api debug) s order)
        λ _ m1 order1. ticks-InOrder rounds order1

  -- Blocks are given behind a registration as before.
  still :
      {m m1 : Mem} {p : Ptr} {id : ℕ}
      → Registered opened0 id (vcan 0) m p m1
      → (a : Ptr) → m.refuses a ≡ false
      → m1.refuses a ≡ false
  still r a gives = ap (λ (g : Ptr → Bool). g a) r.refuses ∙ gives

  -- From an empty pool, with no object at an address that was not handed out, room for the names of
  -- the interfaces, sockets that open and bind, and a calloc that is asked for whole structs and
  -- gives six: whatever xcan_stack_init returned, the table is stored, both devices are registered,
  -- and any number of ticks comes to an end, with the input queues of both devices in order.
  pub main-InOrder :
      (rounds : ℕ) (result : ℤ) {m : Mem}
      → IsFresh m
      → m.pool ≡ empty_pool
      → 5 < api.ifname_size
      → is_minus_one bound0 ≡ false
      → is_minus_one bound1 ≡ false
      → ((a : Ptr) → m.brk ≤ a → a < m.brk + 6 → m.refuses a ≡ false)
      → Returns
          (λ r m'.
            (r ≡ (some routing_table, pos 0)) × InOrder (both_slots opened0 opened1 m.brk) m')
          (example_main api debug 1 rounds result
            (record { opened = pos opened0; bound = bound0 })
            (record { opened = pos opened1; bound = bound1 })
            m)
  unfolding example_main stack_init
  main-InOrder rounds result {m} fr pool room bind0 bind1 gives =
      Returns-bind _ _ (socketcan_create api debug 1 (pos opened0) bound0 0 (vcan 0) m)
        (registered api opened0 bound0 0 (vcan 0) fr room (gives m.brk (omega arith) (omega arith))
          debug (ap length pool) (omega arith) bind0 (gives (m.brk + 1) (omega arith) (omega arith))
          (gives (m.brk + 2) (omega arith) (omega arith)))
        λ p0 m1 r0. rw (==_ne p0 null (omega (arith, fr.started, r0.at_brk))) (
          Returns-bind _ _ (socketcan_create api debug 1 (pos opened1) bound1 1 (vcan 1) m1)
            (registered api opened1 bound1 1 (vcan 1) r0.fresh room
              (still r0 m1.brk (gives m1.brk (omega (arith, r0.brk)) (omega (arith, r0.brk)))) debug
              (ap length r0.pool ∙ length-set m.pool 0 m.brk ∙ ap length pool) (omega arith) bind1
              (still r0 (m1.brk + 1)
                (gives (m1.brk + 1) (omega (arith, r0.brk)) (omega (arith, r0.brk))))
              (still r0 (m1.brk + 2)
                (gives (m1.brk + 2) (omega (arith, r0.brk)) (omega (arith, r0.brk)))))
            λ p1 m2 r1. rw (==_ne p1 null (omega (arith, fr.started, r1.at_brk, r0.brk))) (
              Returns-bind _ _ (ticks api debug 1 rounds m2)
                (ticks-InOrder rounds (both-InOrder opened0 opened1 fr pool r0 r1))
                λ _ m3 order. (refl, order)))

-- With the blocks of no bytes that the source asks calloc for, main ends, without a device: it
-- returns -1 if the first block is refused, and writes outside of it otherwise. Whatever
-- xcan_stack_init returned, whatever the sockets give and however often the loop would go round.
pub main-elem_zero :
    (api : CanApi) (debug : Bool) (socket0 socket1 : Socket) (rounds : ℕ) (result : ℤ) (m : Mem)
    → 0 < m.brk
    → ((m.refuses m.brk ≡ true)
        × Returns
            (λ r m'. (r ≡ (some routing_table, negsuc 0)) × (m'.pool ≡ m.pool))
            (example_main api debug 0 rounds result socket0 socket1 m))
      ⊎ ((m.refuses m.brk ≡ false)
          × (example_main api debug 0 rounds result socket0 socket1 m ≡ crash))
unfolding example_main stack_init socketcan_create
main-elem_zero api debug socket0 socket1 rounds result m started =
    elim (Bool-cases (m.refuses m.brk)) [
      | inl refused ↦ inl (refused, grind arith)
      | inr given ↦ inr (given, grind arith)
    ]
