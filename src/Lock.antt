-- ===== src/Lock.antt =====
-- The lock service: lock_server_cache.cc and lock_client_cache.cc, where clients keep their locks, and
-- lock_server.cc, whose clients wait in their calls.
pub mod Server
pub mod Plain
pub mod Client
