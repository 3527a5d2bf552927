-- ===== src/Gateway.antt =====
-- The older gateway framework (_old/Framework and _old/Sources/tables): frames from the CAN buses
-- become PDUs, which a router task sends to ECUs, to the gateway task or to the firmware update.
mod CardTests
mod Tests
mod UpdateTests
mod Sample
pub mod Ecu
pub mod Tables
pub mod Rtos
pub mod State
pub mod Can
pub mod Send
pub mod Routing
pub mod Control
pub mod Update
pub mod Deliver
pub mod Untouched
pub mod Ownership
pub mod Schedule
pub mod Interleaving
pub mod Dialogue
pub mod Protocol
pub mod Answering
pub mod Complete
pub mod Firmware
pub mod Card
pub mod Backup
pub mod Intake
pub mod Forward
pub mod Status
pub mod Printing
pub mod Printed
pub mod Routed
pub mod Refusals
pub mod Erased
pub mod ErasedTurn
