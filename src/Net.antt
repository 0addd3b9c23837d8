-- ===== src/Net.antt =====
-- termite/connection.go: how two ends of a connection prove that they know the secret, and how a
-- connection finds the call that waits for it.
pub mod Authenticate
pub mod Pending
