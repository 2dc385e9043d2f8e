-- ===== src/Network.antt =====
-- The network layer (sandpolis-instance/src/network): streams between instances, and the relay.
pub mod Message
pub mod Relay
pub mod Registry
pub mod Liveness
