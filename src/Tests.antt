-- ===== src/Tests.antt =====
-- Concrete runs, and every property at a concrete input.
pub mod Data
pub mod Sending
pub mod Receiving
pub mod Exchanges
pub mod Handshakes
pub mod Helpers
pub mod Tlv
pub mod Interaction
