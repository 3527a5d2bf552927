-- ===== src/Queue/Release.antt =====
-- Taking frames out of a queue and giving them back: xcan_queue_empty, and what devloop_out does
-- with a frame that was sent.
use xcan_router.Memory.{Ptr, null, Frame, Queue, Mem, ◌>>=◌, Returns, Returns-bind, Returns-mono}
use xcan_router.Prelude.{
  ℕ, ◌≡◌, refl, ap, subst, ◌∙◌, ◌≢◌, false, Option, none, some, List, [], ◌∷◌, arith, has,
}
use xcan_router.Frame.{frame_discard}
use xcan_router.Frame.Lifetime.{Holds, discard-last}
use xcan_router.Queue.{dequeue}
use xcan_router.Queue.Chain.{Queued, IsQueue-same, head_cons}
use xcan_router.Queue.Fifo.{Relinks, Relinks-devices, unlinked, dequeue-cons}

unlinked_same :
    (o : Option Frame) (x : Frame)
    → unlinked o ≡ unlinked (some x)
    → (y : Frame) × (o ≡ some y) × (record y { next = null } ≡ record x { next = null })
unlinked_same none x e = cc
unlinked_same (some y) x e = (y, refl, cc)

-- A frame that is held stays held by a descriptor that differs in `next` alone.
Holds-same :
    {m m' : Mem} {f : Ptr} {x : Frame} {b : List ℕ} {count : ℕ} (y : Frame)
    → Holds m f x b count
    → y.payload ≡ x.payload
    → y.usage_block ≡ x.usage_block
    → y.usage_offset ≡ x.usage_offset
    → m'.frames f ≡ some y
    → m'.buffers x.payload ≡ m.buffers x.payload
    → Holds m' f y b count
Holds-same y h a b c at bs = ground arith

Holds-unlinked :
    {m m' : Mem} {f : Ptr} {x : Frame} {b : List ℕ} {count : ℕ}
    → Holds m f x b count
    → unlinked (m'.frames f) ≡ unlinked (m.frames f)
    → m'.buffers x.payload ≡ m.buffers x.payload
    → (y : Frame) × (y.payload ≡ x.payload) × Holds m' f y b count
Holds-unlinked {m} {m'} {f} {x} {b} h e bs =
    let (y, at, same) = unlinked_same (m'.frames f) x (e ∙ ap unlinked h.live) in
    (
      y,
      ap (λ (z : Frame). z.payload) same,
      Holds-same y h (ap (λ (z : Frame). z.payload) same) (ap (λ (z : Frame). z.usage_block) same)
          (ap (λ (z : Frame). z.usage_offset) same) at bs,
    )

-- The frame at `p` and its payload at `c` are given back, and no other frame or payload changes,
-- apart from links.
pub record Released (p c : Ptr) (m m' : Mem) : Type 0 where
  pub frame_gone : m'.frames p ≡ none
  pub payload_gone : m'.buffers c ≡ none
  pub frames_same : (a : Ptr) → a ≢ p → m'.frames a ≡ m.frames a
  pub buffers_same : (a : Ptr) → a ≢ c → m'.buffers a ≡ m.buffers a
  pub devices_same : m'.devices ≡ m.devices

module _ {m : Mem} {qp p : Ptr} {ps : List Ptr} where
  discard-Queued :
      {f : Ptr} {y : Frame} {b : List ℕ} {m1 : Mem}
      → f ≡ p
      → has p ps ≡ false
      → Queued m1 qp ps
      → Relinks qp (p ∷ []) m m1
      → Holds m1 p y b 1
      → Returns (λ _ m'. Queued m' qp ps × Released p y.payload m m') (frame_discard f m1)
  discard-Queued {y} {m1} e out (q, is) links h = rw e (
      Returns-mono _ (frame_discard p m1) (discard-last h refl) λ _ m2 (gone, freed, same). (
        (
          q,
          IsQueue-same is (ap (λ (g : Ptr → Option Queue). g qp) same.queues_same)
              (λ a i. same.frames_same a (ground arith)),
        ),
        record {
          frame_gone = gone;
          payload_gone = freed;
          frames_same = λ a ne. same.frames_same a ne ∙ links.elsewhere a (ground arith);
          buffers_same =
              λ a ne. same.buffers_same a ne ∙ ap (λ (z : Mem). z.buffers a) links.untouched;
          devices_same = same.devices_same ∙ Relinks-devices links;
        },
      ))

  -- The oldest frame comes out and, being the only use of its payload, is given back.
  pub release-one :
      {x : Frame} {b : List ℕ}
      → Queued m qp (p ∷ ps)
      → Holds m p x b 1
      → Returns
          (λ _ m'. Queued m' qp ps × Released p x.payload m m')
          ((do f ← dequeue qp; frame_discard f) m)
  release-one {x} (q, is) h =
      Returns-bind _ frame_discard (dequeue qp m) (dequeue-cons is) λ f m1 (e, (q1, is1, _), links).
        let (y, pay, hy) =
          Holds-unlinked h (links.contents p)
            (ap (λ (z : Mem). z.buffers x.payload) links.untouched) in
        let (_, _, out) = head_cons is.chain in
        subst
          (λ (c : Ptr). Returns (λ _ m'. Queued m' qp ps × Released p c m m') (frame_discard f m1))
          pay (discard-Queued e out (q1, is1) links hy)
