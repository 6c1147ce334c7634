-- ===== src/Events.antt =====
-- The ingestion of rotation events, from a queue's message to the reconciler's requests.
pub mod Router
pub mod Bridge
pub mod Listener
