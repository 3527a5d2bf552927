-- ===== src/Queue/Fifo.antt =====
-- The queue operations refine a bounded first-in first-out list of frames.
use xcan_router.Prelude.{
  ◌+◌, ◌-◌, ◌%◌, ◌^◌, ◌≤◌, ◌<◌, ◌≡◌, refl, sym, ap, subst, ◌∙◌, ◌≢◌, ◌⊎◌, true, false, Option, none,
  some, List, [], ◌∷◌, ◌++◌, arith, ◌==◌, length-append, has,
}
use xcan_router.Prelude.Int.{pos, negsuc}
use xcan_router.Memory.{Ptr, null, Frame, Queue, Mem, write, Returns, Returns-mono, done}
use xcan_router.Queue.{enqueue, dequeue, queue_peek}
use xcan_router.Queue.Chain.{
  has-append, Chain, nil, link, IsQueue, last_or, appended, Chain-append, Chain-write, null_not_in,
  last-live, last-append, head_nil, head_cons, uncons, tail-uncons, has-last,
}

-- A frame with its `next` left out of account.
abbrev pub unlinked : Option Frame → Option Frame
unlinked none = none
unlinked (some x) = some (record x { next = null })

-- An operation on the queue at `qp` changes that queue, and `next` in the frames of the list.
pub record Relinks (qp : Ptr) (ps : List Ptr) (m m' : Mem) : Type 0 where
  pub untouched : m' ≡ record m { frames = m'.frames; queues = m'.queues }
  pub other_queues : (p : Ptr) → p ≢ qp → m'.queues p ≡ m.queues p
  pub elsewhere : (p : Ptr) → has p ps ≡ false → m'.frames p ≡ m.frames p
  pub contents : (p : Ptr) → unlinked (m'.frames p) ≡ unlinked (m.frames p)

abbrev pub IsFull : Queue → Type 0
IsFull q = (q.max_frames ≢ 0) × (q.max_frames ≤ q.frames)

module _ {m : Mem} {qp : Ptr} {q : Queue} {ps : List Ptr} (is : IsQueue m qp q ps) where
  pub enqueue-full : (f : Ptr) → IsFull q → enqueue qp f m ≡ done (negsuc 0) m
  unfolding enqueue
  enqueue-full f full = ground (arith, is.ne_null)

abbrev pub new_head : Ptr → Ptr → Ptr
new_head h f = elim (h == null) [ true ↦ f | false ↦ h ]

new_head-ne : (h f : Ptr) → h ≢ null → new_head h f ≡ h
new_head-ne h f ne = ground arith

abbrev pub after_enqueue : Queue → Ptr → Queue
after_enqueue q f = record q { head = new_head q.head f; tail = f; frames = q.frames + 1 }

module _ (m : Mem) {qp : Ptr} {q : Queue} {f : Ptr} {y : Frame} (ne : qp ≢ null)
    (live : m.queues qp ≡ some q) (room : q.max_frames ≡ 0 ⊎ q.frames < q.max_frames)
    (fne : f ≢ null) (at : m.frames f ≡ some y) where
  enqueue-first :
      q.head ≡ null
      → enqueue qp f m
        ≡ done (pos 0) (record m {
          frames = write m.frames f (some (record y { next = null }));
          queues =
              write
                (write m.queues qp (some (record q { head = f; tail = f; frames = 0 })))
                qp
                (some (record q { head = f; tail = f; frames = 1 }));
        })
  unfolding enqueue
  enqueue-first e = ground arith

  enqueue-next :
      {x : Frame}
      → q.head ≢ null
      → q.tail ≢ null
      → q.tail ≢ f
      → m.frames q.tail ≡ some x
      → enqueue qp f m
        ≡ done (pos 0) (record m {
          frames = appended m.frames f y q.tail x;
          queues =
              write
                (write m.queues qp (some (record q { tail = f })))
                qp
                (some (record q { tail = f; frames = (q.frames + 1) % 2 ^ 32 }));
        })
  unfolding enqueue
  enqueue-next e tne dis t = ground arith

enqueue-behind :
    {m : Mem} {qp : Ptr} {q : Queue} {p : Ptr} {ps : List Ptr} (f : Ptr) {y : Frame} (x : Frame)
    → IsQueue m qp q (p ∷ ps)
    → q.max_frames ≡ 0 ⊎ q.frames < q.max_frames
    → f ≢ null
    → m.frames f ≡ some y
    → has f (p ∷ ps) ≡ false
    → q.frames + 1 < 2 ^ 32
    → q.head ≢ null
    → m.frames (last_or null (p ∷ ps)) ≡ some x
    → Returns
        (λ r m'.
          (r ≡ pos 0)
          × IsQueue m' qp (after_enqueue q f) (p ∷ ps ++ f ∷ [])
          × Relinks qp (f ∷ p ∷ ps) m m')
        (enqueue qp f m)
enqueue-behind {m} {qp} {q} {p} {ps} f {y} x is room ne at out small hne t =
    rw
      (enqueue-next m is.ne_null is.live room ne at {x = x} hne
        (ground (arith, is.ends, has-last p ps, null_not_in is.chain))
        (ground (arith, is.ends, has-last p ps)) (ap m.frames is.ends ∙ t))
      (
        refl,
        record {
          ne_null = is.ne_null;
          live = ground arith;
          chain =
              subst (λ (h : Ptr). Chain (appended m.frames f y q.tail x) h (p ∷ ps ++ f ∷ []))
                (sym (new_head-ne q.head f hne))
                (rw is.ends (Chain-append f y ne x is.chain out hne t));
          ends = sym (last-append p f ps);
          counts = omega (arith, is.counts, length-append ps (f ∷ []));
        },
        record {
          untouched = refl;
          other_queues = ground arith;
          elsewhere = λ a o. ground (arith, is.ends, has-last p ps);
          contents = λ a. ground (arith, is.ends);
        },
      )

-- A live frame that is not in the queue goes behind the others, where the queue is in order, has
-- room or no limit, and counts less than 2 ^ 32 - 1 frames. Nothing but the links of these frames
-- and the queue changes.
pub enqueue-append :
    {m : Mem} {qp : Ptr} {q : Queue} {ps : List Ptr} (f : Ptr) {y : Frame}
    → IsQueue m qp q ps
    → q.max_frames ≡ 0 ⊎ q.frames < q.max_frames
    → f ≢ null
    → m.frames f ≡ some y
    → has f ps ≡ false
    → q.frames + 1 < 2 ^ 32
    → Returns
        (λ r m'.
          (r ≡ pos 0) × IsQueue m' qp (after_enqueue q f) (ps ++ f ∷ []) × Relinks qp (f ∷ ps) m m')
        (enqueue qp f m)
enqueue-append {m} {q} {ps = []} f {y} is room ne at out small =
    let e : q.head ≡ null = head_nil is.chain in
    rw (enqueue-first m is.ne_null is.live room ne at e) (
      refl,
      record {
        ne_null = is.ne_null;
        live = ground arith;
        chain = rw e (link (record y { next = null }) ne (ground arith) refl refl nil);
        ends = refl;
        counts = omega arith;
      },
      record {
        untouched = refl;
        other_queues = ground arith;
        elsewhere = ground arith;
        contents = ground arith;
      },
    )
enqueue-append {m} {qp} {q} {ps = p ∷ ps} f {y} is room ne at out small =
    let (e, pne, pout) = head_cons is.chain in
    let hne : q.head ≢ null = ground arith in
    let (x, t) = last-live is.chain hne in enqueue-behind f x is room ne at out small hne t

abbrev pub after_dequeue : Queue → Ptr → Queue
after_dequeue q next = record q {
  head = next;
  tail = elim (next == null) [ true ↦ null | false ↦ q.tail ];
  frames = q.frames - 1;
}

module _ (m : Mem) {qp : Ptr} {q : Queue} {x : Frame} (ne : qp ≢ null) (live : m.queues qp ≡ some q)
    (hne : q.head ≢ null) (some_left : 1 ≤ q.frames) (at : m.frames q.head ≡ some x) where
  dequeue_lem :
      Returns
        (λ f m'.
          (f ≡ q.head)
          × (m'.queues qp ≡ some (after_dequeue q x.next))
          × (m'.frames ≡ write m.frames q.head (some (record x { next = null })))
          × (m' ≡ record m { frames = m'.frames; queues = m'.queues })
          × ((p : Ptr) → p ≢ qp → m'.queues p ≡ m.queues p))
        (dequeue qp m)
  unfolding dequeue
  dequeue_lem = ground arith

-- The oldest frame of a queue that is in order comes out, and the others stay in their order.
-- Nothing but the links of that frame and the queue changes.
pub dequeue-cons :
    {m : Mem} {qp : Ptr} {q : Queue} {p : Ptr} {ps : List Ptr}
    → IsQueue m qp q (p ∷ ps)
    → Returns
        (λ f m'.
          (f ≡ p)
          × ((q' : Queue) × IsQueue m' qp q' ps × (q'.max_frames ≡ q.max_frames))
          × Relinks qp (p ∷ []) m m')
        (dequeue qp m)
dequeue-cons {m} {qp} {q} {p} {ps} is =
    let (e, pne, out) = head_cons is.chain in
    let (x, at, rest) = uncons is.chain in
    Returns-mono _ (dequeue qp m)
      (dequeue_lem m is.ne_null is.live (ground arith) (omega (arith, is.counts)) at)
      λ f m' (r, live, fs, same, others). (
        r ∙ e,
        (
          after_dequeue q x.next,
          record {
            ne_null = is.ne_null;
            live = live;
            chain =
                subst (λ g. Chain g x.next ps) (sym fs) (Chain-write q.head _ rest (ground arith));
            ends = tail-uncons p q.tail rest is.ends;
            counts = omega (arith, is.counts);
          },
          refl,
        ),
        record {
          untouched = same;
          other_queues = others;
          elsewhere = λ a o. ground (arith, fs, ap (λ (g : Ptr → Option Frame). g a) fs);
          contents = λ a. ground (arith, ap (λ (g : Ptr → Option Frame). g a) fs);
        },
      )

pub dequeue-nil : {m : Mem} {qp : Ptr} {q : Queue} → IsQueue m qp q [] → dequeue qp m ≡ done null m
unfolding dequeue
dequeue-nil is = ground (arith, is.ne_null, is.live, head_nil is.chain)

pub peek-nil : {m : Mem} {qp : Ptr} {q : Queue} → IsQueue m qp q [] → queue_peek qp m ≡ done null m
unfolding queue_peek
peek-nil is = ground (arith, is.ne_null, is.live, is.counts)

pub peek-cons :
    {m : Mem} {qp : Ptr} {q : Queue} {p : Ptr} {ps : List Ptr}
    → IsQueue m qp q (p ∷ ps)
    → queue_peek qp m ≡ done p m
unfolding queue_peek
peek-cons is = ground (arith, is.ne_null, is.live, is.counts, head_cons is.chain)

pub Relinks-refl : (qp : Ptr) (ps : List Ptr) (m : Mem) → Relinks qp ps m m
Relinks-refl qp ps m = record {
  untouched = refl;
  other_queues = λ p ne. refl;
  elsewhere = λ p out. refl;
  contents = λ p. refl;
}

pub Relinks-trans :
    {qp : Ptr} {ps qs : List Ptr} {m m' m'' : Mem}
    → Relinks qp ps m m'
    → Relinks qp qs m' m''
    → Relinks qp (ps ++ qs) m m''
Relinks-trans {ps} {qs} {m} {m'} {m''} a b = record {
  untouched =
      b.untouched
      ∙ ap (λ (z : Mem). record z { frames = m''.frames; queues = m''.queues }) a.untouched;
  other_queues = λ p ne. b.other_queues p ne ∙ a.other_queues p ne;
  elsewhere = λ p out. ground (arith, has-append p ps qs, a.elsewhere p, b.elsewhere p);
  contents = λ p. b.contents p ∙ a.contents p;
}

pub Relinks-devices :
    {qp : Ptr} {ps : List Ptr} {m m' : Mem} → Relinks qp ps m m' → m'.devices ≡ m.devices
Relinks-devices a = ap (λ (z : Mem). z.devices) a.untouched

pub Relinks-pool : {qp : Ptr} {ps : List Ptr} {m m' : Mem} → Relinks qp ps m m' → m'.pool ≡ m.pool
Relinks-pool a = ap (λ (z : Mem). z.pool) a.untouched
