-- ===== src/Device/Output.antt =====
-- devloop_out: the frames that wait to be sent by a device.
use xcan_router.Run.{Returns-both, IfDone-mono}
use xcan_router.Memory.{
  Outcome, IfDone, IfDone-bind, Ptr, null, Frame, Queue, Device, Packet, Mem, Cmd, ◌>>=◌, ◌>>◌,
  Returns, Returns-bind, Returns-mono, then_run_assoc, done,
}
use xcan_router.Prelude.Int.{ℤ, is_zero, pos}
use xcan_router.Prelude.{
  ap₂, sym, none, ◌++◌, ℕ, zero, suc, ◌-◌, ◌%◌, ◌^◌, ◌<◌, ◌≡◌, refl, ap, subst, ◌∙◌, ◌≢◌, false,
  Option, some, List, [], ◌∷◌, arith, ==_ne, length, take, drop, has, not-has-take,
}
use xcan_router.Frame.{frame_discard}
use xcan_router.Frame.Lifetime.{Holds}
use xcan_router.Queue.{dequeue}
use xcan_router.Queue.Chain.{Queued, IsQueue, head_cons}
use xcan_router.Queue.Fifo.{peek-cons}
use xcan_router.Queue.Release.{Released, release-one}
use xcan_router.Queue.Drain.{
  Loaded, Loaded-frame, Drained, Drained-nil, Drained-cons, Loaded-Released,
}
use xcan_router.Device.{Driver, call_send, devloop_out, devloop_out_rounds}

abbrev WireKept : {A : Type 0} → Mem → Outcome A → Type 0
WireKept m o = IfDone (λ _ m'. m'.wire ≡ m.wire) o

dequeue-wire : (qp : Ptr) (m : Mem) → WireKept m (dequeue qp m)
unfolding dequeue
dequeue-wire qp m = grind arith

discard-wire : (f : Ptr) (m : Mem) → WireKept m (frame_discard f m)
unfolding frame_discard
discard-wire f m = grind arith

give_back-wire : (qp : Ptr) (m : Mem) → WireKept m ((do f ← dequeue qp; frame_discard f) m)
give_back-wire qp m =
    IfDone-bind _ frame_discard (dequeue qp m) (dequeue-wire qp m)
      λ f m1 e. IfDone-mono _ (frame_discard f m1) (discard-wire f m1) λ _ m2 e'. e' ∙ e

-- The wire after some packets, the latest of which comes first.
abbrev pub wire_after : List Packet → List Packet → List Packet
wire_after [] wire = wire
wire_after (x ∷ xs) wire = wire_after xs (x ∷ wire)

-- What a driver writes for an identifier, flags, a length and the bytes of a payload.
abbrev pub Encoding : Type 0
Encoding = ℕ → ℕ → ℕ → List ℕ → Packet

abbrev pub packet_with : Encoding → Frame → Option (List ℕ) → List Packet
packet_with packet x none = []
packet_with packet x (some b) = packet x.id x.flags (x.len % 2 ^ 8) b ∷ []

abbrev pub packet_of : Encoding → Mem → Option Frame → List Packet
packet_of packet m none = []
packet_of packet m (some x) = packet_with packet x (m.buffers x.payload)

-- The packets for some frames, in their order.
abbrev pub packets : Encoding → Mem → List Ptr → List Packet
packets packet m [] = []
packets packet m (p ∷ ps) = packet_of packet m (m.frames p) ++ packets packet m ps

packet_same :
    (packet : Encoding) (m m' : Mem) (q : Ptr) {x : Frame}
    → m.frames q ≡ some x
    → m'.frames q ≡ m.frames q
    → m'.buffers x.payload ≡ m.buffers x.payload
    → packet_of packet m' (m'.frames q) ≡ packet_of packet m (m.frames q)
packet_same packet m m' q {x} live fs bs = rw (fs ∙ live, live) (ap (packet_with packet x) bs)

packets_same :
    (packet : Encoding) (n : ℕ) (ps cs : List Ptr) {m m' : Mem} {p c : Ptr}
    → Loaded m ps cs
    → has p ps ≡ false
    → has c cs ≡ false
    → Released p c m m'
    → packets packet m' (take n ps) ≡ packets packet m (take n ps)
packets_same packet zero ps cs l op oc r = refl
packets_same packet (suc n) [] cs l op oc r = refl
packets_same packet (suc n) (q ∷ ps) [] l op oc r = absurd l
packets_same packet (suc n) (q ∷ ps) (d ∷ cs) {m} {m'} {p} {c} ((x, b, e, hd), _, _, l) op oc r =
    ap₂ (λ (xs ys : List Packet). xs ++ ys)
      (packet_same packet m m' q hd.live (r.frames_same q (ground arith))
        (r.buffers_same x.payload (ground (arith, e))))
      (packets_same packet n ps cs l (ground arith) (ground arith) r)

module _ (driver : Driver) (dev : Ptr) where
  -- Sending the frame `x` that lies at the head of the output queue, by the driver.
  abbrev pub send_head : Frame → Cmd ℤ
  send_head x = driver.send dev x.id x.flags x.payload (x.len % 2 ^ 8)

  call_send-head :
      (m : Mem) {d : Device} {p : Ptr} {x : Frame}
      → dev ≢ null
      → m.devices dev ≡ some d
      → d.ops ≢ 0
      → p ≢ null
      → m.frames p ≡ some x
      → call_send driver dev p m ≡ send_head x m
  unfolding call_send
  call_send-head m ne live ops pne at = ground arith

  -- If the driver of a live device returns anything but 0 for the head of an output queue that is
  -- in order, the loop stops at once. The score is as before, and memory is what the driver left:
  -- the frame stays in the queue.
  pub devloop_out-refused :
      (n : ℕ) {m m' : Mem} {d : Device} {q : Queue} {p : Ptr} {ps : List Ptr} {x : Frame} (r : ℤ)
      → dev ≢ null
      → m.devices dev ≡ some d
      → d.ops ≢ 0
      → IsQueue m d.q_out q (p ∷ ps)
      → m.frames p ≡ some x
      → send_head x m ≡ done r m'
      → is_zero r ≡ false
      → devloop_out driver dev (pos (suc n)) m ≡ done (pos (suc n)) m'
  unfolding devloop_out devloop_out_rounds
  devloop_out-refused n {m} {d = d} {q = q} {p = p} r ne live ops is at sent bad =
      let (_, pne, _) = head_cons is.chain in
      rw
        (
          ==_ne dev null ne,
          ==_ne dev null ne,
          live,
          ==_ne d.q_out null is.ne_null,
          is.live,
          ==_ne q.frames 0 (ground (arith, is.counts)),
          peek-cons is,
          ==_ne p null pne,
          call_send-head m ne live ops pne at,
          sent,
          bad,
        )
        refl

  pub Queued-wire :
      {m : Mem} {qp : Ptr} {ps : List Ptr} (w : List Packet)
      → Queued m qp ps
      → Queued (record m { wire = w }) qp ps
  Queued-wire w (q, is) = (
    q,
    record {
      ne_null = is.ne_null;
      live = is.live;
      chain = is.chain;
      ends = is.ends;
      counts = is.counts;
    },
  )

  pub Holds-wire :
      {m : Mem} {f : Ptr} {x : Frame} {b : List ℕ} (w : List Packet)
      → Holds m f x b 1
      → Holds (record m { wire = w }) f x b 1
  Holds-wire w h = ground arith

  Loaded-wire :
      (ps cs : List Ptr) (m : Mem) (w : List Packet)
      → Loaded m ps cs
      → Loaded (record m { wire = w }) ps cs
  Loaded-wire ps cs m w = Loaded-frame ps cs m (record m { wire = w }) (λ a i. refl) (λ a i. refl)

  sent-Released :
      {m m' : Mem} {w : List Packet} {p c d : Ptr}
      → d ≡ c
      → Released p d (record m { wire = w }) m'
      → Released p c m m'
  sent-Released {m} {m'} {p = p} e r =
      subst (λ (c : Ptr). Released p c m m') e
        (record {
          frame_gone = r.frame_gone;
          payload_gone = r.payload_gone;
          frames_same = r.frames_same;
          buffers_same = r.buffers_same;
          devices_same = r.devices_same;
        })

  module _ (packet : Encoding) where
    -- A driver that takes every frame, and writes it to the wire.
    abbrev pub Accepts : Type 0
    Accepts =
        (id flags : ℕ) (payload : Ptr) (len : ℕ) (b : List ℕ) (m : Mem)
        → m.buffers payload ≡ some b
        → driver.send dev id flags payload len m
          ≡ done (pos 0) (record m { wire = packet id flags len b ∷ m.wire })

    abbrev Sends : Ptr → ℕ → Mem → List Packet → List Ptr → List Ptr → ℤ → Mem → Type 0
    Sends qp n m wire ps cs r m' =
        (r ≡ pos (n - length ps))
        × (m'.wire ≡ wire_after (packets packet m (take n ps)) wire)
        × Queued m' qp (drop n ps)
        × Loaded m' (drop n ps) (drop n cs)
        × Drained (take n ps) (take n cs) m m'

    -- What `k` rounds make of any score below `k`.
    abbrev RoundsSend : Device → ℕ → Type 0
    RoundsSend d k =
        (n : ℕ) (m : Mem) (ps cs : List Ptr)
        → m.devices dev ≡ some d
        → Queued m d.q_out ps
        → Loaded m ps cs
        → n < k
        → Returns (Sends d.q_out n m m.wire ps cs) (devloop_out_rounds driver k dev (pos n) m)

    -- The rest of a round whose frame was sent, and the rounds behind it.
    after_send :
        (k n : ℕ) {m : Mem} {d : Device} {p c : Ptr} {x : Frame} {b : List ℕ} (ps cs : List Ptr)
        → RoundsSend d k
        → m.devices dev ≡ some d
        → Queued m d.q_out (p ∷ ps)
        → x.payload ≡ c
        → Holds m p x b 1
        → has p ps ≡ false
        → has c cs ≡ false
        → Loaded m ps cs
        → n < k
        → let w = packet x.id x.flags (x.len % 2 ^ 8) b ∷ m.wire in
          Returns (Sends d.q_out (suc n) m m.wire (p ∷ ps) (c ∷ cs)) (
            (do f ← dequeue d.q_out; frame_discard f; devloop_out_rounds driver k dev (pos n))
              (record m { wire = w }))
    after_send k n {m} {d} {p} {c} {x} {b} ps cs ih live is e hd op oc l h =
        let w = packet x.id x.flags (x.len % 2 ^ 8) b ∷ m.wire in
        let mw : Mem = record m { wire = w } in
        let one =
          Returns-both _ _ ((do f ← dequeue d.q_out; frame_discard f) mw)
            (release-one (Queued-wire w is) (Holds-wire w hd)) (give_back-wire d.q_out mw) in
        subst (Returns (Sends d.q_out (suc n) m m.wire (p ∷ ps) (c ∷ cs)))
          (then_run_assoc (dequeue d.q_out mw) frame_discard
            (λ _. devloop_out_rounds driver k dev (pos n)))
          (Returns-bind _ (λ _. devloop_out_rounds driver k dev (pos n))
            ((do f ← dequeue d.q_out; frame_discard f) mw) one
            λ _ m2 ((is2, r), same_wire).
              let r' : Released p c m m2 = sent-Released e r in
              Returns-mono _ (devloop_out_rounds driver k dev (pos n) m2)
                (ih n m2 ps cs (ap (λ (g : Ptr → Option Device). g dev) r.devices_same ∙ live) is2
                  (Loaded-Released ps cs e op oc r (Loaded-wire ps cs m w l)) h)
                λ score m3 (at, wire, is3, l3, gone). (
                  at ∙ ap pos (omega arith),
                  wire
                      ∙ ap₂ wire_after (packets_same packet n ps cs l op oc r') same_wire
                      ∙ ap (λ xs. wire_after (xs ++ packets packet m (take n ps)) m.wire)
                          (sym (
                            ap (packet_of packet m) hd.live
                            ∙ ap (packet_with packet x) hd.payload_live)),
                  is3,
                  l3,
                  Drained-cons (not-has-take p n ps op) (not-has-take c n cs oc) r' gone,
                ))

    rounds-sends : (k : ℕ) {d : Device} → Accepts → dev ≢ null → d.ops ≢ 0 → RoundsSend d k
    unfolding devloop_out_rounds
    rounds-sends zero acc ne ops n m ps cs live is l h = absurd (omega arith)
    rounds-sends (suc k) acc ne ops zero m ps cs live is l h =
        (ground arith, refl, is, l, Drained-nil m)
    rounds-sends (suc k) {d} acc ne ops (suc n) m [] [] live (q, is) l h =
        rw (==_ne dev null ne, live, ==_ne d.q_out null is.ne_null, is.live, is.counts)
          (ground arith, refl, (q, is), l, Drained-nil m)
    rounds-sends (suc k) acc ne ops (suc n) m [] (c ∷ cs) live is l h = absurd l
    rounds-sends (suc k) acc ne ops (suc n) m (p ∷ ps) [] live is l h = absurd l
    rounds-sends (suc k) {d} acc ne ops (suc n) m (p ∷ ps) (c ∷ cs) live (q, is)
          ((x, b, e, hd), op, oc, l) h =
        rw
          (
            ==_ne dev null ne,
            live,
            ==_ne d.q_out null is.ne_null,
            is.live,
            ==_ne q.frames 0 (ground (arith, is.counts)),
            peek-cons is,
            ==_ne p null hd.ne_null,
            call_send-head m ne live ops hd.ne_null hd.live,
            acc x.id x.flags x.payload (x.len % 2 ^ 8) b m hd.payload_live,
          )
          (after_send k n ps cs (rounds-sends k acc ne ops) live (q, is) e hd op oc l (omega arith))

    -- With a driver that takes every frame and writes it to the wire, a live device with its
    -- function pointers set, whose output queue is in order and whose frames are the only uses of
    -- their payloads, sends as many frames as the score allows, and the score falls by their
    -- number. The packets on the wire are those of these frames, the oldest first, each with the
    -- identifier, the flags, the length modulo 256 and the bytes of its frame. Exactly these frames
    -- and their payloads are given back.
    pub devloop_out-sends :
        (n : ℕ) {m : Mem} {d : Device} (ps cs : List Ptr)
        → Accepts
        → dev ≢ null
        → m.devices dev ≡ some d
        → d.ops ≢ 0
        → Queued m d.q_out ps
        → Loaded m ps cs
        → Returns
            (λ r m'.
              (r ≡ pos (n - length ps))
              × (m'.wire ≡ wire_after (packets packet m (take n ps)) m.wire)
              × Queued m' d.q_out (drop n ps)
              × Loaded m' (drop n ps) (drop n cs)
              × Drained (take n ps) (take n cs) m m')
            (devloop_out driver dev (pos n) m)
    unfolding devloop_out
    devloop_out-sends n {m} ps cs acc ne live ops is l =
        rw (==_ne dev null ne) (rounds-sends (suc n) acc ne ops n m ps cs live is l (omega arith))
