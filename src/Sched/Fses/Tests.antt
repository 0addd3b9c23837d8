-- ===== src/Sched/Fses/Tests.antt =====
-- An example of a mirror: a task starts, ends, and its file system is reaped.
use termite.Base.{◌≡◌, refl, true, false, [], ◌∷◌, arith}
use termite.Sched.Fses.{
  Mirror, new_mirror, new_fs, started, place, running_count, count, add_task, prepare_fs,
  new_worker_fuse_fs, consider_reap, return_fs, shutdown,
}
use termite.Sched.Fses.Laws.{starts, ends, returns, shuts, Reach, here, next, Reach-IsSound}
use termite.Sched.Fses.Invariant.{IsSound}

abbrev running : Mirror
running = record {
  max_job_count = 2;
  reap_count = 1;
  next_fs_id = 1;
  active_fses = record { id = 0; reaping = false; tasks = 9 ∷ []; task_ids = 9 ∷ [] } ∷ [];
  accepting = true;
}

starts_9 : new_fs true 9 (new_mirror 2 1) ≡ started 0 running
unfolding new_fs new_mirror running_count count place add_task prepare_fs new_worker_fuse_fs
starts_9 = refl

abbrev reaped : Mirror
reaped = shutdown (return_fs 0 (consider_reap 0 9 running))

history : Reach (new_mirror 2 1) reaped
history = next (next (next (next here (starts true 9 0 starts_9)) (ends 0 9)) (returns 0)) shuts

Reach-IsSound_example : IsSound reaped
Reach-IsSound_example = Reach-IsSound 2 1 (omega arith) history
