-- ===== src/Device/Slots.antt =====
-- The input queues of all devices of the pool, and the loop over them.
use xcan_router.Memory.{Ptr, null, Device, Mem}
use xcan_router.Prelude.{
  ℕ, ◌<◌, ◌≡◌, refl, sym, ap, subst, ◌∙◌, ◌≢◌, inl, inr, true, false, Option, none, some, List, [],
  arith, ◌==◌, if◌then◌else◌, Bool-cases, eq_of_==, ne_of_==, get_elem?, take, drop, has,
  not-has-take, not-has-drop,
}
use xcan_router.Queue.Chain.{Queued, IsQueue-same}
use xcan_router.Queue.Fifo.{Relinks, Relinks-devices, Relinks-pool}
use xcan_router.Device.{max_devices}

-- A registered device: its address and its struct.
pub record Slot : Type 0 where
  pub dev : Ptr
  pub device : Device

abbrev pub Slots : Type 0
Slots = ℕ → Option Slot

-- The frames that wait at each index of the pool, the oldest first.
abbrev pub Waiting : Type 0
Waiting = ℕ → List Ptr

abbrev pub update : Waiting → ℕ → List Ptr → Waiting
update c i v j = if j == i then v else c j

-- One entry of the pool: NULL and nothing waits, or a device whose input queue holds the frames.
abbrev pub SlotHolds : Mem → ℕ → Option Slot → List Ptr → Type 0
SlotHolds m i none ps = (get_elem? m.pool i ≡ some null) × (ps ≡ [])
SlotHolds m i (some x) ps =
    (get_elem? m.pool i ≡ some x.dev)
    × (x.dev ≢ null)
    × (m.devices x.dev ≡ some x.device)
    × Queued m x.device.q_in ps

-- The entries of the pool hold `c`, and no two share a queue or a frame.
pub record Intake (m : Mem) (s : Slots) (c : Waiting) : Type 0 where
  pub held : (i : ℕ) → i < max_devices → SlotHolds m i (s i) (c i)
  pub own_queue :
      (i j : ℕ) (x y : Slot) → i ≢ j → s i ≡ some x → s j ≡ some y → x.device.q_in ≢ y.device.q_in
  pub own_frames : (i j : ℕ) (a : Ptr) → i ≢ j → has a (c i) ≡ true → has a (c j) ≡ false

Queued-Relinks :
    {m m' : Mem} {qp rp : Ptr} {ps qs : List Ptr}
    → Relinks qp qs m m'
    → rp ≢ qp
    → ((a : Ptr) → has a ps ≡ true → has a qs ≡ false)
    → Queued m rp ps
    → Queued m' rp ps
Queued-Relinks links ne apart (q, is) =
    (q, IsQueue-same is (links.other_queues _ ne) λ a i. links.elsewhere a (apart a i))

SlotHolds-Relinks :
    {m m' : Mem} {qp : Ptr} {qs : List Ptr} (i : ℕ) (o : Option Slot) (ps : List Ptr)
    → Relinks qp qs m m'
    → ((x : Slot) → o ≡ some x → x.device.q_in ≢ qp)
    → ((a : Ptr) → has a ps ≡ true → has a qs ≡ false)
    → SlotHolds m i o ps
    → SlotHolds m' i o ps
SlotHolds-Relinks i none ps links ne apart (e, idle) =
    (ap (λ (l : List Ptr). get_elem? l i) (Relinks-pool links) ∙ e, idle)
SlotHolds-Relinks i (some x) ps links ne apart (e, p, l, q) = (
  ap (λ (l : List Ptr). get_elem? l i) (Relinks-pool links) ∙ e,
  p,
  ap (λ (g : Ptr → Option Device). g x.dev) (Relinks-devices links) ∙ l,
  Queued-Relinks links (ne x refl) apart q,
)

own_frames-update :
    (c : Waiting) (i : ℕ) (new : List Ptr)
    → ((j k : ℕ) (a : Ptr) → j ≢ k → has a (c j) ≡ true → has a (c k) ≡ false)
    → ((j : ℕ) (a : Ptr) → j ≢ i → has a (c j) ≡ true → has a new ≡ false)
    → (j k : ℕ) (a : Ptr) → j ≢ k
    → has a (update c i new j) ≡ true
    → has a (update c i new k) ≡ false
own_frames-update c i new own apart j k a ne h = ground (arith, own j k a, apart j a, apart k a)

-- The same entry, once its own queue has changed.
SlotHolds-self :
    {m m' : Mem} {x : Slot} (i : ℕ) (ps qs : List Ptr) {rs : List Ptr}
    → Relinks x.device.q_in rs m m'
    → Queued m' x.device.q_in qs
    → SlotHolds m i (some x) ps
    → SlotHolds m' i (some x) qs
SlotHolds-self {x} i ps qs links q (e, p, l, _) = (
  ap (λ (l : List Ptr). get_elem? l i) (Relinks-pool links) ∙ e,
  p,
  ap (λ (g : Ptr → Option Device). g x.dev) (Relinks-devices links) ∙ l,
  q,
)

module _ {m m' : Mem} {s : Slots} {c : Waiting} (i : ℕ) {x : Slot} (intake : Intake m s c)
    (below : i < max_devices) (is : s i ≡ some x) where
  -- The queue of one entry has changed, to frames that no other queue has.
  pub Intake-change :
      (new touched : List Ptr)
      → Queued m' x.device.q_in new
      → Relinks x.device.q_in touched m m'
      → ((j : ℕ) (a : Ptr) → j ≢ i → has a (c j) ≡ true → has a touched ≡ false)
      → ((j : ℕ) (a : Ptr) → j ≢ i → has a (c j) ≡ true → has a new ≡ false)
      → Intake m' s (update c i new)
  Intake-change new touched q links spared apart = record {
    held = λ j b. elim (Bool-cases (j == i)) [
      | inl e ↦ rw e (
          subst (λ (j : ℕ). SlotHolds m' j (s j) new) (sym (eq_of_== j i e))
            (rw is (
              SlotHolds-self i (c i) new links q
                (subst (λ (o : Option Slot). SlotHolds m i o (c i)) is (intake.held i below)))))
      | inr ne ↦ rw ne (
          SlotHolds-Relinks j (s j) (c j) links
            (λ y at. intake.own_queue j i y x (ne_of_== j i ne) at is)
            (λ a h. spared j a (ne_of_== j i ne) h) (intake.held j b))
    ];
    own_queue = intake.own_queue;
    own_frames = own_frames-update c i new intake.own_frames apart;
  }

  pub Intake-step :
      (n : ℕ)
      → Queued m' x.device.q_in (drop n (c i))
      → Relinks x.device.q_in (take n (c i)) m m'
      → Intake m' s (update c i (drop n (c i)))
  Intake-step n q links =
      Intake-change (drop n (c i)) (take n (c i)) q links
        (λ j a ne h. not-has-take a n (c i) (intake.own_frames j i a ne h))
        (λ j a ne h. not-has-drop a n (c i) (intake.own_frames j i a ne h))
