-- ===== src/Worker.antt =====
-- The worker: the reply of a task (termite/task.go, termite/fuse.go) and the log (termite/worker.go).
pub mod Reply
pub mod Log
