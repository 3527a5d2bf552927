-- ===== src/Stack.antt =====
-- stack/xcan_stack.c: reception of a frame from a device, and the tick that moves frames.
mod Tests
pub mod Receive
pub mod Tick
pub mod Fresh
pub mod Kept
pub mod Intake
pub mod Sequence
use xcan_router.Prelude.{
  ℕ, zero, suc, ◌+◌, ◌-◌, ◌*◌, ◌/◌, ◌%◌, ◌^◌, ◌≤◌, ◌<◌, min, ◌≡◌, refl, sym, ap, ap₂, subst,
  fun_ext, ◌∙◌, ◌≢◌, ◌↔◌, ◌⊎◌, inl, inr, Bool, true, false, not, ◌&&◌, ◌||◌, Option, none, some,
  List, [], ◌∷◌, ◌++◌, map, arith, ltb, leb, ◌==◌, if◌then◌else◌, Bool-cases, Option-cases, ==_self,
  ==_ne, eq_of_==, ne_of_==, length, get_elem?, set, take, drop, replicate, length-append,
  length-replicate, length-set, get_elem?-set_self, get_elem?-replicate, has, length-take_of_le,
  length-drop, take-set-append, set-set, set-get_self, take-set_after, has-drop, has-take,
  get_elem?_of_lt, not-has-take, not-has-drop, get_elem?-append, drop-replicate, set-append_last,
  take_all, take-append, drop-append, append_assoc, append_nil,
}
use xcan_router.Prelude.Int.{
  ℤ, is_pos, is_zero, is_neg, pred_ℤ, pos_part, is_minus_one, pos, negsuc,
}
use xcan_router.Memory.{
  Ptr, null, Frame, Queue, Device, Packet, Mem, Outcome, Cmd, write, deref, load_frame, load_queue,
  load_device, load_buffer, put_frame, put_queue, put_device, put_buffer, load_byte, store_byte,
  store_bytes, load_bytes, set_frame, set_queue, set_device, fresh_block, frame_size, queue_size,
  device_size, zero_frame, zero_queue, calloc_bytes, calloc_frame, calloc_queue, zero_device,
  calloc_device, free_frame, free_buffer, free_device, free_queue, IsFresh, Run, done, crash, spin,
  pure, then_run, ◌>>=◌, ◌>>◌, Returns, Returns-bind, Returns-mono, Returns-done, IfDone,
  IfDone-bind, IfDone-trivial, then_run_assoc,
}
use xcan_router.Frame.{frame_alloc, frame_discard}
use xcan_router.Router.{RoutingTable, router_init}
use xcan_router.Queue.{enqueue}
use xcan_router.Device.{Driver, devices_loop}

abbrev pub loop_dir_in : ℕ
loop_dir_in = 0

abbrev pub loop_dir_out : ℕ
loop_dir_out = 1

module _ (elem : ℕ) where
  -- What xcan_stack_recv does up to the queue: it allocates the frame and fills it in. `payload` is
  -- the first `len` bytes of the caller's array.
  unfoldable pub received_frame : Ptr → ℕ → List ℕ → Cmd Ptr
  received_frame dev can_id payload = do
    f ← frame_alloc elem (length payload)
    if f == null then pure null else do
      set_frame f (λ x. record x { dev = dev })
      set_frame f (λ x. record x { id = can_id })
      x ← load_frame f
      store_bytes x.payload payload
      pure f

  -- `flags` is not used.
  unfoldable pub stack_recv : Ptr → ℕ → ℕ → List ℕ → Cmd ℤ
  stack_recv dev can_id flags payload = do
    f ← received_frame dev can_id payload
    if f == null then pure (pos 1) else do
      d ← load_device dev
      r ← enqueue d.q_in f
      if is_zero r then pure (pos 0) else (frame_discard f >> pure (pos 1))

module _ (driver : Driver) where
  unfoldable pub stack_tick : Cmd (Unit {0})
  stack_tick = do
    score ← devices_loop driver (pos 20) loop_dir_in
    devices_loop driver score loop_dir_out
    pure tt

-- The table that is stored, and the result: 1 if the router's initialiser gives 0.
unfoldable pub stack_init : RoutingTable → ℤ → Option RoutingTable × ℤ
unfolding router_init
stack_init table result =
    let (stored, r) = router_init table result in (stored, if is_zero r then pos 1 else pos 0)
