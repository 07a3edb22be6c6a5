-- ===== src/Broadcast.antt =====
-- autoconnect/autoconnect-common/src/broadcast.rs: the broadcasts that the server knows, their
-- revisions, and the subscriptions of a client. A `BroadcastKey` is a `u32`.
pub mod Registry
pub mod Tracker
pub mod Revisions
pub mod Invariant
pub mod Delta
pub mod Load
