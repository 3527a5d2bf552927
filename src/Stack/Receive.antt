-- ===== src/Stack/Receive.antt =====
-- xcan_stack_recv: a frame that a device received enters the stack.
use xcan_router.Memory.{Ptr, null, Frame, Queue, Device, Mem, Returns, IsFresh, Returns-bind, crash}
use xcan_router.Prelude.Int.{pos}
use xcan_router.Prelude.{
  ℕ, suc, ◌+◌, ◌^◌, ◌≤◌, ◌<◌, ◌≡◌, refl, sym, ap, subst, ◌∙◌, ◌≢◌, ◌⊎◌, false, Option, some, List,
  [], ◌∷◌, ◌++◌, arith, ==_ne, length, set, drop, replicate, length-append, length-replicate, has,
  get_elem?-append, drop-replicate, set-append_last,
}
use xcan_router.Frame.{frame_alloc, frame_discard}
use xcan_router.Frame.Lifetime.{Holds, discard-kept, SameElsewhere}
use xcan_router.Frame.Alloc.{new_frame}
use xcan_router.Queue.{enqueue}
use xcan_router.Queue.Chain.{Queued, Chain, IsQueue-same, IsQueue}
use xcan_router.Queue.Fifo.{after_enqueue, IsFull, enqueue-append, enqueue-full, unlinked}
use xcan_router.Stack.{stack_recv, received_frame}

-- The frame that enters the stack, apart from its link.
abbrev pub received : Ptr → ℕ → List ℕ → Ptr → Frame
received dev can_id payload block = record (new_frame (length payload) block) {
  dev = dev;
  id = can_id;
}

-- A live frame is no fresh address.
pub Chain-below :
    {m : Mem} {p : Ptr} {ps : List Ptr} (a : Ptr)
    → IsFresh m
    → m.brk ≤ a
    → Chain m.frames p ps
    → has a ps ≡ false
Chain-below a fr le Chain.nil = refl
Chain-below a fr le (Chain.link {p} x ne at e out c) =
    ground (arith, fr.no_frame p, Chain-below a fr le c)

abbrev pub filled : List ℕ → List ℕ
filled payload = payload ++ drop (length payload) (replicate (length payload + 1) 0)

-- Memory once the frame is built and before it is queued.
pub record Built (dev can_id : ℕ) (payload : List ℕ) (m : Mem) (f : Ptr) (m' : Mem) : Type 0 where
  pub at_brk : f ≡ m.brk
  pub frame : m'.frames m.brk ≡ some (received dev can_id payload (m.brk + 1))
  pub bytes : m'.buffers (m.brk + 1) ≡ some (filled payload)
  pub frames_same : (p : Ptr) → p ≢ m.brk → m'.frames p ≡ m.frames p
  pub queues_same : m'.queues ≡ m.queues
  pub devices_same : m'.devices ≡ m.devices
  pub pool_same : m'.pool ≡ m.pool

module _ (dev can_id : ℕ) (payload : List ℕ) {m : Mem} (fr : IsFresh m) where
  pub built :
      m.refuses m.brk ≡ false
      → m.refuses (m.brk + 1) ≡ false
      → Returns (Built dev can_id payload m) (received_frame 1 dev can_id payload m)
  unfolding received_frame frame_alloc
  built a b = grind (arith, length-replicate {0})

  -- With the calloc of blocks of no bytes that XCAN_ZALLOC asks for, no frame comes in: the caller is
  -- told so, or the first access to the frame is a crash.
  pub recv-elem_zero :
      (flags : ℕ)
      → Returns (λ r _. r ≡ pos 1) (stack_recv 0 dev can_id flags payload m)
        ⊎ (stack_recv 0 dev can_id flags payload m ≡ crash)
  unfolding stack_recv received_frame frame_alloc
  recv-elem_zero flags = ground arith

  -- The count that the code leaves behind the payload is 0.
  filled_eq : filled payload ≡ payload ++ 0 ∷ []
  filled_eq =
      ap (λ (n : ℕ). payload ++ drop (length payload) (replicate n 0)) {y = suc (length payload)}
        (omega arith)
      ∙ ap (λ (l : List ℕ). payload ++ l) (drop-replicate (length payload) 0)

  pub Built-Holds :
      {m' : Mem}
      → Built dev can_id payload m m.brk m'
      → Holds m' m.brk (received dev can_id payload (m.brk + 1)) (filled payload) 0
  Built-Holds b = ground (
    arith,
    fr.started,
    b.frame,
    b.bytes,
    filled_eq,
    get_elem?-append payload (0 ∷ []),
    length-append payload (0 ∷ []),
  )

  module _ (flags : ℕ) {d : Device} {q : Queue} {ps : List Ptr} (ne : dev ≢ null)
      (live : m.devices dev ≡ some d) (is : IsQueue m d.q_in q ps) (a : m.refuses m.brk ≡ false)
      (b : m.refuses (m.brk + 1) ≡ false) where
    Built-IsQueue : {f : Ptr} {m' : Mem} → Built dev can_id payload m f m' → IsQueue m' d.q_in q ps
    Built-IsQueue t =
        IsQueue-same is (ap (λ (g : Ptr → Option Queue). g d.q_in) t.queues_same)
          λ p i. t.frames_same p (ground (arith, Chain-below m.brk fr (omega arith) is.chain))

    -- With a calloc that is asked for whole blocks and gives them, a live device whose input queue
    -- is in order and has room or no limit gets a new frame at the end of that queue. It carries
    -- the identifier, the length and the bytes, its flags are 0 whatever the caller passes, and its
    -- usage count is 0.
    pub recv-queues :
        q.max_frames ≡ 0 ⊎ q.frames < q.max_frames
        → q.frames + 1 < 2 ^ 32
        → Returns
            (λ r m'.
              (r ≡ pos 0)
              × Queued m' d.q_in (ps ++ m.brk ∷ [])
              × (unlinked (m'.frames m.brk) ≡ some (received dev can_id payload (m.brk + 1)))
              × (m'.buffers (m.brk + 1) ≡ some (payload ++ 0 ∷ [])))
            (stack_recv 1 dev can_id flags payload m)
    unfolding stack_recv
    recv-queues room small =
        Returns-bind _ _ (received_frame 1 dev can_id payload m) (built a b) λ f m1 t.
          rw
            (
              ==_ne f null (ground (arith, fr.started, t.at_brk)),
              ==_ne dev null ne,
              ap (λ (g : Ptr → Option Device). g dev) t.devices_same ∙ live,
            )
            (Returns-bind _ _ (enqueue d.q_in f m1)
              (enqueue-append f (Built-IsQueue t) room (ground (arith, fr.started, t.at_brk))
                (ap m1.frames t.at_brk ∙ t.frame)
                (Chain-below f fr (omega (arith, t.at_brk)) is.chain) small)
              λ r m2 (e, is2, links). rw e (
                refl,
                subst (λ (p : Ptr). Queued m2 d.q_in (ps ++ p ∷ [])) t.at_brk
                    (after_enqueue q f, is2),
                links.contents m.brk ∙ ap unlinked t.frame,
                ap (λ (z : Mem). z.buffers (m.brk + 1)) links.untouched
                    ∙ t.bytes
                    ∙ ap some filled_eq,
              ))

    -- With a calloc that is asked for whole blocks and gives them, where the input queue is full
    -- the caller is told so, the queue is as it was, and the frame is never given back: its count
    -- goes from 0 to 255.
    pub recv-full :
        IsFull q
        → Returns
            (λ r m'.
              (r ≡ pos 1)
              × IsQueue m' d.q_in q ps
              × Holds m' m.brk (received dev can_id payload (m.brk + 1)) (payload ++ 255 ∷ []) 255)
            (stack_recv 1 dev can_id flags payload m)
    unfolding stack_recv
    recv-full full = Returns-bind _ _ (received_frame 1 dev can_id payload m) (built a b) λ f m1 t.
        rw
          (
            ==_ne f null (ground (arith, fr.started, t.at_brk)),
            ==_ne dev null ne,
            ap (λ (g : Ptr → Option Device). g dev) t.devices_same ∙ live,
            enqueue-full (Built-IsQueue t) f full,
          )
          (Returns-bind _ _ (frame_discard f m1)
            (subst
              (λ (p : Ptr).
                Returns
                  (λ _ m'.
                    Holds m' m.brk (received dev can_id payload (m.brk + 1))
                      (set (filled payload) (length payload) 255) 255
                    × SameElsewhere m.brk (m.brk + 1) m1 m')
                  (frame_discard p m1))
              (sym t.at_brk)
              (discard-kept
                (Built-Holds (subst (λ (p : Ptr). Built dev can_id payload m p m1) t.at_brk t))
                (omega arith) (omega arith)))
            λ _ m2 (h, same). (
              refl,
              IsQueue-same (Built-IsQueue t)
                  (ap (λ (g : Ptr → Option Queue). g d.q_in) same.queues_same)
                  (λ p i.
                    same.frames_same p
                      (ground (arith, Chain-below m.brk fr (omega arith) is.chain))),
              subst (λ (l : List ℕ). Holds m2 m.brk (received dev can_id payload (m.brk + 1)) l 255)
                  (ap (λ (l : List ℕ). set l (length payload) 255) filled_eq
                    ∙ set-append_last payload 0 255)
                  h,
            ))
