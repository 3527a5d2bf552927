-- ===== src/SocketCan.antt =====
-- modules/xcan_dev_socketcan.c: the device over a Linux CAN socket.
mod Tests
pub mod Create
pub mod Send
pub mod Polling
use xcan_router.Memory.{
  Ptr, null, Frame, Queue, Device, Packet, Mem, Outcome, Cmd, pure, then_run, ◌>>=◌, ◌>>◌, write,
  deref, load_frame, load_queue, load_device, load_buffer, put_frame, put_queue, put_device,
  put_buffer, load_byte, store_byte, store_bytes, load_bytes, set_frame, set_queue, set_device,
  fresh_block, frame_size, queue_size, device_size, zero_frame, zero_queue, calloc_bytes,
  calloc_frame, calloc_queue, zero_device, calloc_device, free_frame, free_buffer, free_device,
  free_queue, Returns, IsFresh, Returns-bind, Returns-mono, IfDone, IfDone-bind, IfDone-trivial,
  then_run_assoc, Returns-done, done, crash, spin,
}
use xcan_router.Prelude.Int.{
  ℤ, is_pos, is_zero, is_neg, pred_ℤ, pos_part, is_minus_one, pos, negsuc,
}
use xcan_router.Prelude.{
  ℕ, zero, suc, ◌+◌, ◌-◌, ◌*◌, ◌/◌, ◌%◌, ◌^◌, ◌≤◌, ◌<◌, min, ◌≡◌, refl, sym, ap, ap₂, subst,
  fun_ext, ◌∙◌, ◌≢◌, ◌↔◌, ◌⊎◌, inl, inr, Bool, true, false, not, ◌&&◌, ◌||◌, Option, none, some,
  List, [], ◌∷◌, ◌++◌, map, arith, ltb, leb, ◌==◌, if◌then◌else◌, Bool-cases, Option-cases, ==_self,
  ==_ne, eq_of_==, ne_of_==, length, get_elem?, set, take, drop, replicate, length-append,
  length-replicate, length-set, get_elem?-set_self, get_elem?-replicate, has, length-take_of_le,
  length-drop, take-set-append, set-set, set-get_self, take-set_after, has-drop, has-take,
  get_elem?_of_lt, not-has-take, get_elem?-append, drop-replicate, set-append_last,
}
use xcan_router.Device.{Driver, device_init}
use xcan_router.Stack.{stack_recv}

-- What linux/can.h and net/if.h fix: the sizes of `struct can_frame` and `struct canfd_frame`, the
-- room for data in the latter, and the room for the name of an interface.
pub record CanApi : Type 0 where
  pub can_mtu : ℕ
  pub canfd_mtu : ℕ
  pub max_data : ℕ
  pub ifname_size : ℕ

-- The value that the driver's four function pointers are known by.
abbrev pub socketcan_ops : ℕ
socketcan_ops = 1

-- `write(fd, &frame, n)`: the frame is noted, and the environment says what the call returns.
abbrev pub sys_write : Packet → Cmd ℤ
sys_write p m = done (m.write_result (length m.wire)) (record m { wire = p ∷ m.wire })

-- `read(fd, &f, n)`: what stands in the buffer afterwards, and what the call returns.
abbrev pub sys_read : Cmd Packet
sys_read m = done (m.read_result m.reads) (record m { reads = m.reads + 1 })

unfoldable pub prv_link_state : Ptr → Cmd ℤ
prv_link_state dev = pure (pos 1)

module _ (api : CanApi) where
  -- The frame is on the stack: more than `max_data` bytes do not fit.
  unfoldable pub prv_send : Ptr → ℕ → ℕ → Ptr → ℕ → Cmd ℤ
  prv_send self id flags payload len = do
    bytes ← load_bytes payload len
    if ltb api.max_data len then (λ _. crash) else do
      load_device self
      sys_write (record {
        can_id = id;
        flags = flags;
        len = len;
        content = bytes;
        nbytes = pos (if ltb 8 len then api.canfd_mtu else api.can_mtu);
      })

  -- The result of the read is only printed.
  unfoldable pub prv_poll : ℕ → Ptr → ℤ → Cmd ℤ
  prv_poll elem self loop_score = do
    load_device self
    f ← sys_read
    if ltb (length f.content) f.len
        then (λ _. crash)
        else do stack_recv elem self f.can_id f.flags (take f.len f.content); pure (pos 0)

-- `debug` says whether the build defines DEBUG: then the last line prints the name of the device.
unfoldable pub socketcan_destroy : Bool → Ptr → Cmd (Unit {0})
socketcan_destroy debug dev = do
  load_device dev
  free_device dev
  if debug then (load_device dev >> pure tt) else pure tt

module _ (api : CanApi) (debug : Bool) where
  unfoldable pub socketcan_driver : Driver
  unfolding prv_link_state prv_send socketcan_destroy
  socketcan_driver = record {
    link_state = prv_link_state;
    send = prv_send api;
    destroy = socketcan_destroy debug;
  }

  -- `opened` and `bound` are what socket() and bind() return, and `name` the bytes in front of its
  -- NUL, which strcpy writes behind them.
  unfoldable pub socketcan_create : ℕ → ℤ → ℤ → ℕ → List ℕ → Cmd Ptr
  socketcan_create elem opened bound id name = do
    sc ← calloc_device device_size elem
    if sc == null then pure null else do
      set_device sc (λ d. record d { fd = opened })
      if is_neg opened
          then pure null
          else if leb api.ifname_size (length name)
          then (λ _. crash)
          else if is_minus_one bound
          then pure null
          else do
            r ← device_init elem sc id name
            (if is_zero r
                then (set_device sc (λ d. record d { ops = socketcan_ops }) >> pure sc)
                else (socketcan_destroy debug sc >> pure null))
