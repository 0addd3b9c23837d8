-- ===== src/Sched.antt =====
-- How jobs are spread: the master's connections to its workers (termite/mirrorconnection.go), the
-- jobs that a worker grants (termite/mirrors.go), and the file systems in which a worker runs them
-- (termite/mirror.go).
pub mod Jobs
pub mod Reserve
pub mod Fses
pub mod Coordinator
