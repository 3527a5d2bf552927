-- ===== src/Lib.antt =====
-- The XCAN routing stack and the gateway framework that it replaces.
--
-- The program has two parts. The routing stack (stack/ and modules/) moves CAN frames between
-- devices and a router. A device driver (modules/xcan_dev_socketcan.c) hands what it received to
-- xcan_stack_recv, which puts a new frame at the end of the device's input queue. xcan_stack_tick
-- goes over the pool of devices, takes frames out of the input queues and hands them to the router
-- through the data link layer, and takes frames out of the output queues and calls the driver's
-- send function. The older gateway (_old/) runs on FreeRTOS: an interrupt handler makes PDUs of CAN
-- frames, PDU_Task sends them on to ECUs, to Gateway_Task or to the firmware update, Heartbeat_Task
-- asks the ECUs for their status, and the SD card keeps their data and their firmware.
--
-- Run        what C code comes to: a result and a state, undefined behaviour (crash), or a loop
--            that its bound on the rounds did not suffice for (spin)
-- Memory     the store of the routing stack: one map from addresses per struct, calloc and free,
--            the pool of devices, and what goes over the sockets
-- Frame      stack/xcan_frame.c: frame_alloc, frame_discard, frame_copy, frame_deepcopy
-- Queue      stack/include/xcan_queue.h: enqueue, dequeue, queue_peek, queue_empty
-- Router     stack/xcan_router.c: xcan_router_receive, xcan_router_init
-- Datalink   the data link layer of stack/xcan_stack.c
-- Device     stack/xcan_device.c: device_init, device_destroy, get_device, devloop_in, devloop_out,
--            devices_loop; a Driver stands for the function pointers of struct xcan_device
-- Stack      stack/xcan_stack.c: stack_init, stack_recv, stack_tick
-- SocketCan  modules/xcan_dev_socketcan.c: prv_send, prv_poll, socketcan_create, socketcan_destroy
-- Gateway    _old/: Ecu and Tables have the data of _old/Framework/ecu/ecu.h,
--            _old/Framework/pdu_router/pdu_router.h and _old/Sources/tables; Can is
--            _old/Framework/interfaces/can/can.c without the update, which is Update; Send is
--            _old/Framework/ecu/ecu.c, Routing _old/Framework/pdu_router/pdu_router.c, Control
--            _old/Framework/gateway/gateway.c and Card _old/Framework/interfaces/sdhc/sdhc.c;
--            State is what the tasks share, and Rtos what is relied on of the queues of FreeRTOS
-- Security   _old/Framework/security/hsm_she.c: Messages has what HSM_ComputeM1M2M3 and
--            HSM_ComputeM4M5 compute, Module the functions that change keys, Driver the calls of the
--            SDK, and Spec what the SHE specification says of them
-- Console    _old/Framework/dbg_console/dbg_console.c, the printing of frames in can.c and of PDUs
--            in pdu_router.c: Serial, Frames and Ecus on the buffers of Buffer and the formats of Text
-- Boot       _old/Sources/main.c and the initialisers of _old/Framework that it calls
-- Example    examples/linux: main, with the first rounds of its loop, and its routing table
-- Sample     a small memory for the examples in the modules called Tests
--
-- The children of these modules have the proofs, each named for what it is about: Queue.Chain has
-- the representation of a queue, Queue.Fifo the refinement of a list, Device.Slots and
-- Device.Rounds the input queues of all devices, Stack.Sequence receptions and ticks as steps of
-- one state machine, SocketCan.Polling the polls of the driver's devices, Gateway.Deliver what
-- reaches the buses, Gateway.Printed, Gateway.Routed and Gateway.Refusals the turn of PDU_Task
-- with what it prints, Gateway.Dialogue, Gateway.Answering and Gateway.Complete an update that
-- succeeds, Gateway.Protocol and Gateway.Firmware one that may stop, Gateway.Interleaving the
-- interrupt handler and the tasks as steps of one state machine, Gateway.Backup the SD card,
-- Security.Keys and Security.Start the keys that the security module has, Console.Printed and
-- Console.Overflow what fits a buffer, Console.Sends the frames that are sent and reported, and
-- Boot.Order and Boot.Ready the order of the calls and the state after the start.
--
-- How the state is modelled. A pointer is a number, 0 is NULL, and an access through NULL or to an
-- address where no object lives is a crash, as is an index out of range. A struct is a record; the
-- usage count of a frame is a pointer into the block of the payload. XCAN_ZALLOC(x) is calloc(x, 0)
-- in stack/include/xcan_config.h; the functions that allocate take the second argument as a
-- parameter `elem`, so that the behaviour of the source (0) and the one that it means (1) are both
-- stated. Whether an allocation is refused is part of the state. Numbers are natural, with the
-- wrap-around of their width where code relies on it; `int` scores are integers.
--
-- Bounds on rounds. Each `while` loop of the routing stack has a bound that the function computes
-- from the score or from the length of the queue, and the theorems on its result show that it is
-- enough. The loops of the SD card and of the update take theirs as an argument: one for each
-- version of the firmware, and one more than the file has bytes. The endless loops of the tasks
-- are modelled by one turn, and that of the example program by its first rounds.
--
-- What is outside. A driver of a device, the sizes in the headers of Linux, the queues of FreeRTOS
-- (Gateway.Rtos), FatFS (Gateway.Card), the encryption and the numbers of the SDK (Gateway.Update),
-- the calls of the security module (Security.Driver), the UART and the bytes in a new array
-- (Console.Serial), the creation of queues (Boot) and the compiler's layout of bit fields are
-- parameters. The laws of the security module (Security.Spec) are those of the memory update
-- protocol and of the debugger's authentication in the SHE specification. The other calls of the
-- SDK while the gateway starts are recorded in their order.
--
-- What is printed. config.h defines DEBUG_ENABLE, and then CAN_sendFrame reports each frame and
-- PDU_Task each PDU on the console, in buffers that can overflow. Console.Sends has the sending of
-- a frame with its report, and Gateway.Printing one turn of PDU_Task with all that it prints;
-- Gateway.ErasedTurn relates it to the turn without. The other functions of Gateway,
-- can_send_frame, pdu_task_turn and what is built on them, have the state of the gateway alone, as
-- in a build without DEBUG_ENABLE, and leave out the two texts for full queues. Waits in
-- vTaskDelay are left out, with what other tasks do in them; Gateway.Interleaving runs the turns
-- of the tasks and the interrupt handler in any order. An address is handed out by malloc only
-- once.
--
-- What is not modelled: route_frame and xcan_router_loop, which do not compile; _old/gateway.h,
-- which declares what nothing implements; the Ethernet and LIN interfaces apart from
-- LIN_sendFrame, which are empty or not called; the commands of the debug console, which are
-- commented out. What xcan_router_init returns, which it does not say, is an input of stack_init;
-- the table that it stores is read by nothing.
pub mod Prelude
pub mod Run
pub mod Memory
pub mod Frame
pub mod Queue
pub mod Router
pub mod Datalink
pub mod Device
pub mod Stack
pub mod SocketCan
pub mod Gateway
pub mod Security
pub mod Console
pub mod Boot
pub mod Example
pub mod Sample
