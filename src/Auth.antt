-- ===== src/Auth.antt =====
-- auth_protocol.go: the authentication manager. Its children are the nonce bookkeeping against
-- replayed packets, the challenge cache and the ring of measured delays.
mod Tests
pub mod Dedup
pub mod Challenge
pub mod Delay
pub mod Data
