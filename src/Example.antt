-- ===== src/Example.antt =====
-- examples/linux: the example program and its routing table.
mod Tests
pub mod Devices
pub mod Running
use xcan_router.Prelude.{
  ℕ, zero, suc, ◌+◌, ◌-◌, ◌*◌, ◌/◌, ◌%◌, ◌^◌, ◌≤◌, ◌<◌, min, ◌≡◌, refl, sym, ap, ap₂, subst,
  fun_ext, ◌∙◌, ◌≢◌, ◌↔◌, ◌⊎◌, inl, inr, Bool, true, false, not, ◌&&◌, ◌||◌, Option, none, some,
  List, [], ◌∷◌, ◌++◌, map, arith, ltb, leb, ◌==◌, if◌then◌else◌, Bool-cases, Option-cases, ==_self,
  ==_ne, eq_of_==, ne_of_==, length, get_elem?, set, take, drop, replicate, length-append,
  length-replicate, length-set, get_elem?-set_self, get_elem?-replicate, has, length-take_of_le,
  length-drop, take-set-append, set-set, set-get_self, take-set_after, has-drop, has-take,
  get_elem?_of_lt, not-has-take, not-has-drop, get_elem?-append, drop-replicate, set-append_last,
  take_all, take-append, drop-append, append_assoc, append_nil,
}
use xcan_router.Prelude.Int.{
  ℤ, is_pos, is_zero, is_neg, pred_ℤ, pos_part, is_minus_one, pos, negsuc,
}
use xcan_router.Memory.{
  Ptr, null, Frame, Queue, Device, Packet, Mem, Outcome, Cmd, write, deref, load_frame, load_queue,
  load_device, load_buffer, put_frame, put_queue, put_device, put_buffer, load_byte, store_byte,
  store_bytes, load_bytes, set_frame, set_queue, set_device, fresh_block, frame_size, queue_size,
  device_size, zero_frame, zero_queue, calloc_bytes, calloc_frame, calloc_queue, zero_device,
  calloc_device, free_frame, free_buffer, free_device, free_queue, IsFresh, Run, done, crash, spin,
  pure, then_run, ◌>>=◌, ◌>>◌, Returns, Returns-bind, Returns-mono, Returns-done, IfDone,
  IfDone-bind, IfDone-trivial, then_run_assoc,
}
use xcan_router.Router.{RoutingEntry, RoutingTable}
use xcan_router.Device.{Driver}
use xcan_router.Stack.{stack_tick, stack_init}
use xcan_router.SocketCan.{CanApi, socketcan_create, socketcan_driver}

-- `routing_table`
abbrev pub routing_table : RoutingTable
routing_table =
    record { can_id = 0; interfaces = 1 ∷ 2 ∷ [] }
    ∷ record { can_id = 1; interfaces = 0 ∷ 1 ∷ [] }
    ∷ record { can_id = 2; interfaces = 0 ∷ 2 ∷ [] }
    ∷ []

-- "vcan0" and "vcan1"
abbrev pub vcan : ℕ → List ℕ
vcan n = b'v' ∷ b'c' ∷ b'a' ∷ b'n' ∷ (b'0' + n) ∷ []

-- What socket() and bind() give for an interface.
pub record Socket : Type 0 where
  pub opened : ℤ
  pub bound : ℤ

module _ (api : CanApi) (debug : Bool) (elem : ℕ) where
  -- The first `rounds` rounds of the endless loop.
  unfoldable pub ticks : ℕ → Cmd (Unit {0})
  ticks zero = pure tt
  ticks (suc rounds) = stack_tick (socketcan_driver api debug) >> ticks rounds

  abbrev pub register : ℕ → Socket → Cmd Ptr
  register n socket = socketcan_create api debug elem socket.opened socket.bound n (vcan n)

  -- `main`, with its first `rounds` ticks and the table that it stores. Nothing reads that table, and
  -- the result of xcan_stack_init is not looked at.
  unfoldable pub example_main : ℕ → ℤ → Socket → Socket → Cmd (Option RoutingTable × ℤ)
  example_main rounds result socket0 socket1 = do
    let (table, _) = stack_init routing_table result
    dev0 ← register 0 socket0
    if dev0 == null then pure (table, negsuc 0) else do
      dev1 ← register 1 socket1
      if dev1 == null then pure (table, negsuc 0) else do ticks rounds; pure (table, pos 0)
