-- ===== src/Master/Run/Tests.antt =====
-- A worker that refuses, and one that runs what it is given.
use termite.Base.{
  ℕ, zero, suc, ◌≡◌, ◌≤◌, refl, Bytes, codes, Bool, true, false, List, [], ◌∷◌, Option, none, some,
  if◌then◌else◌, ◌==◌, bytes_eq, bytes_beq, bytes_iff, Dict, lookup, insert, erase, has, arith, pos,
  ℤ, length,
}
use termite.Sched.Jobs.{Connection, Connections, max_jobs, available_jobs}
use termite.Sched.Jobs.Ready.{IsReady}
use termite.Master.Run.{Answers, Attempt, run_on_mirror, run_request, find_worker}
use termite.Master.Run.Retries.{run_request-IsReady}

abbrev bad : Bytes
bad = codes "w1"

abbrev good : Bytes
good = codes "w2"

abbrev world : ℕ → Attempt
world k = record {
  create = λ addr wanted. some 2;
  answers = λ addr. record {
    sent = true;
    dialled = true;
    called = if addr == good then true else false;
    waited = true;
  };
}

abbrev state : Connections
state = record {
  wanted_max_jobs = 4;
  workers = (bad, true) ∷ (good, true) ∷ [];
  mirrors = (bad, record { max_jobs = 2; available_jobs = pos 1 }) ∷ [];
}

state-IsReady : IsReady good ((bad, true) ∷ (good, true) ∷ []) state
unfolding has lookup bytes_beq
state-IsReady = record {
  is_known = refl;
  gives = (λ e. omega arith, tt);
  wants = omega arith;
  workers_named = λ a h. h;
  mirrors_named = λ a h. ground (arith, h);
}

run_request-IsReady_example : (run_request false [] false world 1 state).0 ≡ true
unfolding bytes_beq
run_request-IsReady_example =
    run_request-IsReady false good false world 1 ((bad, true) ∷ (good, true) ∷ []) state
      (λ i w p. (1, refl)) (λ i. (refl, refl, refl, refl)) state-IsReady (omega arith)

abbrev unsent : ℕ → Attempt
unsent k = record {
  create = λ addr wanted. none;
  answers = λ addr. record { sent = false; dialled = true; called = true; waited = true };
}

-- The job that was taken for a named worker is not given back where `Send` fails, and the worker stays.
run_request-unsent : run_request false bad false unsent 1 state ≡ (
  false,
  record state { mirrors = (bad, record { max_jobs = 2; available_jobs = pos 0 }) ∷ [] },
)
unfolding run_request termite.Base.is_empty find_worker termite.Master.Run.find_mirror
    termite.Master.Run.contains termite.Base.has_prefix run_on_mirror insert bytes_beq
    termite.Sched.Jobs.take_job termite.Base.◌-ℤ◌
run_request-unsent = refl
