-- ===== src/Master.antt =====
-- The master: how results are replayed on its own file system, how a request is run, what it
-- shows of its files (termite/master.go), and the commands it runs itself (termite/masterrun.go).
pub mod Disk
pub mod Replay
pub mod Run
pub mod Expose
pub mod Fetching
pub mod Commands
