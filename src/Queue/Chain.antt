-- ===== src/Queue/Chain.antt =====
-- Frames that are linked through `next`, and what a queue says of them.
use xcan_router.Prelude.{
  ◌≡◌, refl, sym, subst, ◌∙◌, ◌≢◌, true, false, ◌||◌, Option, some, List, [], ◌∷◌, ◌++◌, arith,
  ◌==◌, length, has,
}
use xcan_router.Memory.{Ptr, null, Frame, Queue, Mem, write}

-- From `p` the `next` pointers lead through the distinct frames of the list to NULL.
pub data Chain (frames : Ptr → Option Frame) : Ptr → List Ptr → Type 0 where
  nil : Chain frames null []
  link :
      {p q : Ptr} {ps : List Ptr} (x : Frame)
      → p ≢ null
      → frames p ≡ some x
      → x.next ≡ q
      → has p ps ≡ false
      → Chain frames q ps
      → Chain frames p (p ∷ ps)

abbrev pub last_or : Ptr → List Ptr → Ptr
last_or d [] = d
last_or d (p ∷ ps) = last_or p ps

-- The queue at `qp` holds the frames `ps`, the oldest first.
pub record IsQueue (m : Mem) (qp : Ptr) (q : Queue) (ps : List Ptr) : Type 0 where
  pub ne_null : qp ≢ null
  pub live : m.queues qp ≡ some q
  pub chain : Chain m.frames q.head ps
  pub ends : q.tail ≡ last_or null ps
  pub counts : q.frames ≡ length ps

pub has-last : (p : Ptr) (ps : List Ptr) → has (last_or p ps) (p ∷ ps) ≡ true
has-last p [] = ground arith
has-last p (r ∷ ps) = ground (arith, has-last r ps)

pub has-append : (a : Ptr) (ps qs : List Ptr) → has a (ps ++ qs) ≡ (has a ps || has a qs)
has-append a [] qs = refl
has-append a (p ∷ ps) qs = ground (arith, has-append a ps qs)

pub last-append : (d f : Ptr) (ps : List Ptr) → last_or d (ps ++ f ∷ []) ≡ f
last-append d f [] = refl
last-append d f (p ∷ ps) = last-append p f ps

-- The queue at `qp` holds `ps`, whatever its limits.
abbrev pub Queued : Mem → Ptr → List Ptr → Type 0
Queued m qp ps = (q : Queue) × IsQueue m qp q ps

module _ {frames frames' : Ptr → Option Frame} where
  -- A chain survives a change that spares its frames.
  pub Chain-frame :
      {p : Ptr} {ps : List Ptr}
      → Chain frames p ps
      → ((a : Ptr) → has a ps ≡ true → frames' a ≡ frames a)
      → Chain frames' p ps
  Chain-frame nil same = nil
  Chain-frame (link {p} {ps} x ne at e out c) same =
      link x ne (ground (arith, same p)) e out (Chain-frame c λ a i. same a (ground arith))

module _ {frames : Ptr → Option Frame} where
  pub Chain-write :
      {p : Ptr} {ps : List Ptr} (a : Ptr) (v : Option Frame)
      → Chain frames p ps
      → has a ps ≡ false
      → Chain (write frames a v) p ps
  Chain-write a v c out = Chain-frame c λ b i. ground arith

  pub null_not_in : {p : Ptr} {ps : List Ptr} → Chain frames p ps → has null ps ≡ false
  null_not_in nil = refl
  null_not_in (link {p} x ne at e out c) = ground (arith, null_not_in c)

-- What linking a frame behind a chain does: the last frame's `next` leads to the new one, whose
-- own `next` is NULL.
abbrev pub appended : (Ptr → Option Frame) → Ptr → Frame → Ptr → Frame → Ptr → Option Frame
appended frames f y t x =
    write (write frames f (some (record y { next = null }))) t (some (record x { next = f }))

module _ {frames : Ptr → Option Frame} (f : Ptr) (y : Frame) (ne : f ≢ null) where
  pub Chain-append :
      {p : Ptr} {ps : List Ptr} (x : Frame)
      → Chain frames p ps
      → has f ps ≡ false
      → p ≢ null
      → frames (last_or null ps) ≡ some x
      → Chain (appended frames f y (last_or null ps) x) p (ps ++ f ∷ [])
  Chain-append x nil out pne at = absurd (pne refl)
  Chain-append x (link {p} z ne' at' e out' nil) out pne at =
      link (record x { next = f }) ne' (ground arith) refl (ground arith)
        (link (record y { next = null }) ne (ground arith) refl refl nil)
  Chain-append x (link {p} {q} z ne' at' e out' (link {ps} w a b c d g)) out pne at =
      link z ne' (ground (arith, has-last q ps)) e (ground (arith, has-append p ps (f ∷ [])))
        (Chain-append x (link w a b c d g) (ground arith) a at)

-- The last frame of a chain that is not empty is live.
pub last-live :
    {frames : Ptr → Option Frame} {p : Ptr} {ps : List Ptr}
    → Chain frames p ps
    → p ≢ null
    → (x : Frame) × (frames (last_or null ps) ≡ some x)
last-live nil ne = absurd (ne refl)
last-live (link x ne at e out nil) _ = (x, at)
last-live (link z ne at e out (link w a b c d g)) _ = last-live (link w a b c d g) a

pub head_nil : {frames : Ptr → Option Frame} {p : Ptr} → Chain frames p [] → p ≡ null
head_nil nil = refl

pub head_cons :
    {frames : Ptr → Option Frame} {p a : Ptr} {ps : List Ptr}
    → Chain frames p (a ∷ ps)
    → (p ≡ a) × (a ≢ null) × (has a ps ≡ false)
head_cons (link x ne at e out c) = (refl, ne, out)

pub uncons :
    {frames : Ptr → Option Frame} {p a : Ptr} {ps : List Ptr}
    → Chain frames p (a ∷ ps)
    → (x : Frame) × (frames p ≡ some x) × Chain frames x.next ps
uncons {frames} {ps} (link x ne at e out c) =
    (x, at, subst (λ (q : Ptr). Chain frames q ps) (sym e) c)

-- The end of a shorter chain, as the code computes it.
pub tail-uncons :
    {frames : Ptr → Option Frame} {h : Ptr} {ps : List Ptr} (p t : Ptr)
    → Chain frames h ps
    → t ≡ last_or p ps
    → (elim (h == null) [ true ↦ null | false ↦ t ]) ≡ last_or null ps
tail-uncons p t nil e = refl
tail-uncons p t (link x ne at e' out c) e = ground arith

-- A queue is as it was after a change that spares it and its frames.
pub IsQueue-same :
    {m m' : Mem} {qp : Ptr} {q : Queue} {ps : List Ptr}
    → IsQueue m qp q ps
    → m'.queues qp ≡ m.queues qp
    → ((a : Ptr) → has a ps ≡ true → m'.frames a ≡ m.frames a)
    → IsQueue m' qp q ps
IsQueue-same is qs fs = record {
  ne_null = is.ne_null;
  live = qs ∙ is.live;
  chain = Chain-frame is.chain fs;
  ends = is.ends;
  counts = is.counts;
}
