-- ===== src/SocketCan/Send.antt =====
-- What the driver sends, and what devloop_out makes of its result.
use xcan_router.Memory.{Ptr, null, Frame, Queue, Device, Packet, Mem, done}
use xcan_router.Prelude.Int.{ℤ, pos}
use xcan_router.Prelude.{
  ℕ, suc, ◌%◌, ◌^◌, ◌≤◌, ◌<◌, ◌≡◌, refl, ap, ◌∙◌, ◌≢◌, Bool, some, List, ◌∷◌, arith, ltb,
  if◌then◌else◌, length, take,
}
use xcan_router.Queue.Chain.{IsQueue}
use xcan_router.Device.{devloop_out}
use xcan_router.Device.Output.{devloop_out-refused}
use xcan_router.SocketCan.{CanApi, prv_send, socketcan_driver}

module _ (api : CanApi) where
  -- The frame that goes to the socket.
  abbrev pub can_packet : ℕ → ℕ → ℕ → List ℕ → Packet
  can_packet id flags len b = record {
    can_id = id;
    flags = flags;
    len = len;
    content = take len b;
    nbytes = pos (if ltb 8 len then api.canfd_mtu else api.can_mtu);
  }

  -- The driver writes one packet with the frame's fields and bytes and returns what write() returns.
  -- It is a CAN-FD packet if there are more than 8 bytes.
  pub prv_send_lem :
      (self id flags payload len : ℕ) (m : Mem) {d : Device} {b : List ℕ}
      → self ≢ null
      → m.devices self ≡ some d
      → payload ≢ null
      → m.buffers payload ≡ some b
      → len ≤ length b
      → len ≤ api.max_data
      → prv_send api self id flags payload len m
        ≡ done
            (m.write_result (length m.wire))
            (record m { wire = can_packet id flags len b ∷ m.wire })
  unfolding prv_send
  prv_send_lem self id flags payload len m ne live pne at short room = ground arith

  -- A frame of up to 255 bytes that fit the packet, and that the socket took, stays at the head of
  -- the output queue and the score is as before: the driver returns a positive number of bytes,
  -- which devloop_out reads as a failure.
  pub sent_again :
      (debug : Bool) (dev n k : ℕ) {m : Mem} {d : Device} {q : Queue} {p : Ptr} {ps : List Ptr}
      {x : Frame} {b : List ℕ}
      → dev ≢ null
      → m.devices dev ≡ some d
      → d.ops ≢ 0
      → IsQueue m d.q_out q (p ∷ ps)
      → m.frames p ≡ some x
      → x.payload ≢ null
      → m.buffers x.payload ≡ some b
      → x.len ≤ length b
      → x.len ≤ api.max_data
      → x.len < 256
      → m.write_result (length m.wire) ≡ pos (suc k)
      → devloop_out (socketcan_driver api debug) dev (pos (suc n)) m
        ≡ done (pos (suc n)) (record m { wire = can_packet x.id x.flags x.len b ∷ m.wire })
  unfolding socketcan_driver
  sent_again debug dev n k {m} {x = x} {b = b} ne live ops is at pne bat short room byte took =
      devloop_out-refused (socketcan_driver api debug) dev n (pos (suc k)) ne live ops is at
        (sent (x.len % 2 ^ 8) (omega arith)) refl
    where
      sent :
          (len : ℕ)
          → len ≡ x.len
          → prv_send api dev x.id x.flags x.payload len m
            ≡ done (pos (suc k)) (record m { wire = can_packet x.id x.flags x.len b ∷ m.wire })
      sent len e = rw e (
          prv_send_lem dev x.id x.flags x.payload x.len m ne live pne bat short room
          ∙ ap (λ (r : ℤ). done r (record m { wire = can_packet x.id x.flags x.len b ∷ m.wire }))
              took)
