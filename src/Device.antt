-- ===== src/Device.antt =====
-- stack/xcan_device.c: the pool of devices, and the loops that move frames in and out of them.
mod Tests
pub mod Intake
pub mod Lookup
pub mod Output
pub mod Register
pub mod Rounds
pub mod Score
pub mod Slots
pub mod Ticks
use xcan_router.Prelude.{
  ℕ, zero, suc, ◌+◌, ◌-◌, ◌*◌, ◌/◌, ◌%◌, ◌^◌, ◌≤◌, ◌<◌, min, ◌≡◌, refl, sym, ap, ap₂, subst,
  fun_ext, ◌∙◌, ◌≢◌, ◌↔◌, ◌⊎◌, inl, inr, Bool, true, false, not, ◌&&◌, ◌||◌, Option, none, some,
  List, [], ◌∷◌, ◌++◌, map, arith, ltb, leb, ◌==◌, if◌then◌else◌, Bool-cases, Option-cases, ==_self,
  ==_ne, eq_of_==, ne_of_==, length, get_elem?, set, take, drop, replicate, length-append,
  length-replicate, length-set, get_elem?-set_self, get_elem?-replicate, has, length-take_of_le,
  length-drop, take-set-append, set-set, set-get_self, take-set_after,
}
use xcan_router.Prelude.Int.{ℤ, is_pos, is_zero, is_neg, pred_ℤ, pos_part, pos, negsuc}
use xcan_router.Memory.{
  Ptr, null, Frame, Queue, Device, Packet, Mem, Outcome, Cmd, pure, then_run, ◌>>=◌, ◌>>◌, write,
  deref, load_frame, load_queue, load_device, load_buffer, put_frame, put_queue, put_device,
  put_buffer, load_byte, store_byte, store_bytes, load_bytes, set_frame, set_queue, set_device,
  fresh_block, frame_size, queue_size, device_size, zero_frame, zero_queue, calloc_bytes,
  calloc_frame, calloc_queue, free_frame, free_buffer, free_queue, Returns, IsFresh, Returns-bind,
  Returns-mono, IfDone, IfDone-bind, IfDone-trivial, done, crash, spin,
}
use xcan_router.Frame.{frame_discard}
use xcan_router.Queue.{dequeue, queue_peek}
use xcan_router.Datalink.{datalink_receive}

abbrev pub max_devices : ℕ
max_devices = 4

abbrev pub max_device_name : ℕ
max_device_name = 16

-- The functions that a device's pointers lead to. `send` takes the device, the identifier, the
-- flags, the payload and its length.
pub record Driver : Type 0 where
  pub link_state : Ptr → Cmd ℤ
  pub send : Ptr → ℕ → ℕ → Ptr → ℕ → Cmd ℤ
  pub destroy : Ptr → Cmd (Unit {0})

-- `while (loop_score > 0)` of devloop_in, with a bound on its rounds.
unfoldable pub devloop_in_rounds : ℕ → Ptr → ℤ → Cmd ℤ
devloop_in_rounds zero dev score = λ _. spin
devloop_in_rounds (suc k) dev score =
    if is_pos score
    then (do
      d ← load_device dev
      q ← load_queue d.q_in
      if q.frames == 0 then pure score else do
        f ← dequeue d.q_in
        if f == null
            then devloop_in_rounds k dev score
            else do datalink_receive f; devloop_in_rounds k dev (pred_ℤ score))
    else pure score

-- A round either ends the loop or lowers the score, unless the queue counts frames that it lacks.
unfoldable pub devloop_in : Ptr → ℤ → Cmd ℤ
unfolding devloop_in_rounds
devloop_in dev score =
    if dev == null then pure score else devloop_in_rounds (suc (pos_part score)) dev score

module _ (driver : Driver) where
  -- `dev->send(dev, f->id, f->flags, f->data, f->len)`; the length is cut to a uint8_t.
  unfoldable pub call_send : Ptr → Ptr → Cmd ℤ
  call_send dev f = do
    d ← load_device dev
    x ← load_frame f
    if d.ops == 0 then (λ _. crash) else driver.send dev x.id x.flags x.payload (x.len % 2 ^ 8)

  unfoldable pub devloop_out_rounds : ℕ → Ptr → ℤ → Cmd ℤ
  devloop_out_rounds zero dev score = λ _. spin
  devloop_out_rounds (suc k) dev score =
      if is_pos score
      then (do
        d ← load_device dev
        q ← load_queue d.q_out
        if q.frames == 0 then pure score else do
          f ← queue_peek d.q_out
          if f == null then pure score else do
            r ← call_send dev f
            if is_zero r
                then (do
                  f ← dequeue d.q_out
                  frame_discard f
                  devloop_out_rounds k dev (pred_ℤ score))
                else pure score)
      else pure score

  unfoldable pub devloop_out : Ptr → ℤ → Cmd ℤ
  unfolding devloop_out_rounds
  devloop_out dev score =
      if dev == null then pure score else devloop_out_rounds (suc (pos_part score)) dev score

-- `devices[i]`
abbrev pub device_at : ℕ → Cmd Ptr
device_at i m = elim (get_elem? m.pool i) [ none ↦ crash | some p ↦ done p m ]

-- `devices[i] = dev`
abbrev pub set_device_at : ℕ → Ptr → Cmd (Unit {0})
set_device_at i dev m = elim (get_elem? m.pool i) [
  | none ↦ crash
  | some _ ↦ done tt (record m { pool = set m.pool i dev })
]

-- `for (int i = 0; i < XCAN_MAX_DEVICES; i++)` with a loop of one device as its body: `n` rounds
-- are left, and `i` is next.
unfoldable pub for_devices : (Ptr → ℤ → Cmd ℤ) → ℕ → ℕ → ℤ → Cmd ℤ
for_devices body zero i score = pure score
for_devices body (suc n) i score = do
  dev ← device_at i
  score ← body dev score
  for_devices body n (i + 1) score

module _ (driver : Driver) where
  -- The body of a round of devices_loop, up to its decrement.
  unfoldable pub devices_round : ℤ → ℕ → Cmd ℤ
  devices_round score direction =
      if direction == 0
      then for_devices devloop_in max_devices 0 score
      else if direction == 1
      then for_devices (devloop_out driver) max_devices 0 score
      else pure score

  unfoldable pub devices_loop_rounds : ℕ → ℤ → ℕ → Cmd ℤ
  devices_loop_rounds zero score direction = λ _. spin
  devices_loop_rounds (suc k) score direction =
      if is_pos score
      then (do
        score ← devices_round score direction
        devices_loop_rounds k (pred_ℤ score) direction)
      else pure score

  -- Each round lowers the score.
  unfoldable pub devices_loop : ℤ → ℕ → Cmd ℤ
  unfolding devices_loop_rounds
  devices_loop score direction = devices_loop_rounds (suc (pos_part score)) score direction

  unfoldable pub device_link_state : Ptr → Cmd ℤ
  device_link_state dev = do
    d ← load_device dev
    if d.ops == 0 then (λ _. crash) else driver.link_state dev

  -- The slot is cleared first, then the device's own destructor runs.
  unfoldable pub device_destroy : Ptr → Cmd (Unit {0})
  device_destroy dev = do
    d ← load_device dev
    set_device_at d.id null
    d ← load_device dev
    if d.ops == 0 then (λ _. crash) else driver.destroy dev

-- The rest of the loop of xcan_get_device, over the slots that are left. An empty slot is
-- dereferenced all the same.
unfoldable pub get_device_from : List Ptr → ℕ → Cmd Ptr
get_device_from [] id = pure null
get_device_from (p ∷ ps) id = do
  d ← load_device p
  if d.id == id then pure p else get_device_from ps id

unfoldable pub get_device : ℕ → Cmd Ptr
unfolding get_device_from
get_device id m = get_device_from (take max_devices m.pool) id m

-- `strncpy(dest, src, n)` over the bytes of `src` in front of its NUL: cut at `n`, or padded with
-- NULs to `n`.
abbrev pub strncpy : List ℕ → ℕ → List ℕ
strncpy src n = take n (src ++ replicate n 0)

module _ (elem : ℕ) where
  unfoldable pub device_init : Ptr → ℕ → List ℕ → Cmd ℤ
  device_init dev id name = if leb max_devices id then pure (negsuc 0) else do
    set_device dev (λ d. record d { id = id })
    set_device dev (λ d. record d { name = strncpy name max_device_name })
    q ← calloc_queue queue_size elem
    set_device dev (λ d. record d { q_in = q })
    d ← load_device dev
    if d.q_in == null then pure (negsuc 0) else do
      q ← calloc_queue queue_size elem
      set_device dev (λ d. record d { q_out = q })
      d ← load_device dev
      if d.q_out == null
          then (free_queue d.q_in >> pure (negsuc 0))
          else do set_device_at id dev; pure (pos 0)
