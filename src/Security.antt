-- ===== src/Security.antt =====
-- _old/Framework/security/hsm_she.c and the keys of _old/Framework/config.h: the keys of the
-- security module, changed with the messages M1 to M5 of the SHE specification.
mod Tests
pub mod Driver
pub mod Messages
pub mod Module
pub mod Spec
pub mod Sent
pub mod Accept
pub mod Keys
pub mod Start
pub mod Erase
pub mod Proof
pub mod Refused
