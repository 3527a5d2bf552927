-- ===== src/Sample.antt =====
-- A small memory on which the theorems' examples run: two frames that each own their payload, a
-- device in the pool, the first frame in its input queue and the second in its output queue.
use xcan_router.Prelude.{
  true, ℕ, zero, suc, ◌<◌, refl, false, Option, none, some, List, [], ◌∷◌, arith, ◌==◌,
  if◌then◌else◌, replicate,
}
use xcan_router.Prelude.Int.{pos}
use xcan_router.Memory.{Ptr, null, Frame, Queue, Device, Mem, write, zero_frame, IsFresh}
use xcan_router.Queue.Chain.{nil, link, IsQueue}
use xcan_router.Queue.Drain.{Loaded}
use xcan_router.Frame.Lifetime.{Holds}
use xcan_router.Device.Slots.{Slots, SlotHolds, Waiting, Intake}
use xcan_router.Device.{max_devices}
use xcan_router.Stack.Kept.{Intake-Kept}
use xcan_router.Stack.Intake.{HasCount}
use xcan_router.Stack.Sequence.{InOrder}

abbrev pub first : Frame
first = record zero_frame { id = 0x123; len = 1; payload = 3; usage_block = 3; usage_offset = 1 }

abbrev pub second : Frame
second = record zero_frame { id = 0x456; len = 2; payload = 4; usage_block = 4; usage_offset = 2 }

abbrev pub first_payload : List ℕ
first_payload = 7 ∷ 1 ∷ []

abbrev pub second_payload : List ℕ
second_payload = 8 ∷ 9 ∷ 1 ∷ []

abbrev frames : Ptr → Option Frame
frames = write (write (λ _. none) 1 (some first)) 2 (some second)

abbrev pub holding_first : Queue
holding_first = record { frames = 1; max_frames = 2; head = 1; tail = 1 }

-- A queue with one place.
abbrev pub holding_second : Queue
holding_second = record { frames = 1; max_frames = 1; head = 2; tail = 2 }

abbrev pub device : Device
device = record { id = 0; name = replicate 16 0; q_in = 9; q_out = 8; ops = 1; fd = pos 3 }

abbrev pub memory : Mem
memory = record {
  brk = 10;
  refuses = λ _. false;
  frames = frames;
  buffers = write (write (λ _. none) 3 (some first_payload)) 4 (some second_payload);
  queues = write (write (λ _. none) 9 (some holding_first)) 8 (some holding_second);
  devices = write (λ _. none) 5 (some device);
  pool = 5 ∷ null ∷ null ∷ null ∷ [];
  wire = [];
  write_result = λ _. pos 16;
  read_result = λ _. record { can_id = 0; flags = 0; len = 0; content = []; nbytes = pos 16 };
  reads = 0;
}

pub memory-IsQueue : IsQueue memory 9 holding_first (1 ∷ [])
memory-IsQueue = record {
  ne_null = omega arith;
  live = refl;
  chain = link first (omega arith) refl refl refl nil;
  ends = refl;
  counts = refl;
}

pub output-IsQueue : IsQueue memory 8 holding_second (2 ∷ [])
output-IsQueue = record {
  ne_null = omega arith;
  live = refl;
  chain = link second (omega arith) refl refl refl nil;
  ends = refl;
  counts = refl;
}

pub memory-IsFresh : IsFresh memory
memory-IsFresh = record {
  started = omega arith;
  no_frame = λ p le. ground arith;
  no_buffer = λ p le. ground arith;
  no_queue = λ p le. ground arith;
  no_device = λ p le. ground arith;
}

pub first-Holds : Holds memory 1 first first_payload 1
first-Holds = record {
  ne_null = omega arith;
  payload_ne_null = omega arith;
  live = refl;
  counted_inside = refl;
  payload_live = refl;
  in_range = omega arith;
  counts = refl;
}

pub second-Holds : Holds memory 2 second second_payload 1
second-Holds = record {
  ne_null = omega arith;
  payload_ne_null = omega arith;
  live = refl;
  counted_inside = refl;
  payload_live = refl;
  in_range = omega arith;
  counts = refl;
}

pub first-Loaded : Loaded memory (1 ∷ []) (3 ∷ [])
first-Loaded = ((first, first_payload, refl, first-Holds), refl, refl, tt)

pub second-Loaded : Loaded memory (2 ∷ []) (4 ∷ [])
second-Loaded = ((second, second_payload, refl, second-Holds), refl, refl, tt)

abbrev pub slots : Slots
slots = λ i. if i == 0 then some (record { dev = 5; device = device }) else none

abbrev pub waiting : Waiting
waiting = λ i. if i == 0 then 1 ∷ [] else []

slots-held : (i : ℕ) → i < max_devices → SlotHolds memory i (slots i) (waiting i)
slots-held zero lt = (refl, omega arith, refl, (holding_first, memory-IsQueue))
slots-held (suc zero) lt = (refl, refl)
slots-held (suc (suc zero)) lt = (refl, refl)
slots-held (suc (suc (suc zero))) lt = (refl, refl)
slots-held (suc (suc (suc (suc i)))) lt = absurd (omega arith)

pub memory-Intake : Intake memory slots waiting
memory-Intake = record {
  held = slots-held;
  own_queue = λ i j x y ne at bt. ground arith;
  own_frames = λ i j a ne here. ground arith;
}

-- The same memory where no more blocks are given.
abbrev pub refusing : Mem
refusing = record memory { refuses = λ _. true }

refusing-Intake : Intake refusing slots waiting
refusing-Intake =
    Intake-Kept {a = 10}
      (record {
        frames_same = λ p ne. refl;
        queues_same = refl;
        devices_same = refl;
        pool_same = refl;
      })
      (λ j b. ground arith) memory-Intake

refusing-IsFresh : IsFresh refusing
refusing-IsFresh = record {
  started = omega arith;
  no_frame = memory-IsFresh.no_frame;
  no_buffer = memory-IsFresh.no_buffer;
  no_queue = memory-IsFresh.no_queue;
  no_device = memory-IsFresh.no_device;
}

pub refusing-InOrder : InOrder slots refusing
refusing-InOrder = ((waiting, refusing-Intake, λ j le. ground arith), refusing-IsFresh)

pub one_counted : HasCount refusing 9
one_counted q at = ground arith
