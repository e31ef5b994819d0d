-- ===== src/Nats.antt =====
-- The whitelist's messages, src/nats_client.rs: how they are read, and what they do to the tracker.
pub mod Parse
pub mod Handle
pub mod Tracked
