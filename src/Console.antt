-- ===== src/Console.antt =====
-- The debug console of the gateway: _old/Framework/dbg_console/dbg_console.c, and the printing of
-- frames in _old/Framework/interfaces/can/can.c and of PDUs in
-- _old/Framework/pdu_router/pdu_router.c.
mod Tests
pub mod Text
pub mod Buffer
pub mod Serial
pub mod Frames
pub mod Digits
pub mod Lines
pub mod Sizes
pub mod Labels
pub mod Printed
pub mod Overflow
pub mod Sends
pub mod Rows
pub mod Ecus
