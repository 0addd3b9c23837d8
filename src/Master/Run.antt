-- ===== src/Master/Run.antt =====
-- termite/master.go: `run`, `runOnce` and `runOnMirror`, over termite/mirrorconnection.go (`find`,
-- `maybeDropConnections`). What the calls to a worker answer is a parameter, for each attempt; the request
-- itself and the statistics are left out.
pub mod Retries
mod Tests
use termite.Base.{
  ℕ, zero, suc, Bytes, Bool, true, false, not, ◌&&◌, ◌||◌, List, [], ◌∷◌, Option, none, some, ltb,
  if◌then◌else◌, ◌==◌, nat_eq, bytes_eq, Dict, insert, is_empty, has_prefix,
}
use termite.Sched.Jobs.{
  Connection, Connections, available_jobs, max_jobs, take_job, try_connect, pick, drop, job_done,
}

-- Which calls succeed: `attributes.Send`, `DialTypedConnection`, `Mirror.Run`, and the wait for the files.
pub record Answers : Type 0 where
  pub sent : Bool
  pub dialled : Bool
  pub called : Bool
  pub waited : Bool

-- What happens in one attempt: what each worker grants to `createMirror`, and how it answers.
pub record Attempt : Type 0 where
  pub create : Bytes → ℕ → Option ℕ
  pub answers : Bytes → Answers

-- `runOnMirror`: no error, and the connections. `jobDone` is not deferred where `Send` fails.
pub run_on_mirror : Bool → Answers → Bytes → Connections → Bool × Connections
run_on_mirror stdin a addr c =
    if not a.sent
    then (false, c)
    else if stdin && not a.dialled
    then (false, job_done addr c)
    else if not a.called
    then (false, job_done addr c)
    else (a.waited, job_done addr c)

-- What `runOnce` does with the outcome.
pub finish_once : Bytes → Bool × Connections → Bool × Connections
finish_once addr (ok, c) = if ok then (true, c) else (false, drop addr c)

-- Where `pick` fails it has tried to connect.
pub run_once : Bool → Attempt → Connections → Bool × Connections
run_once stdin w c = elim (pick w.create c) [
  | none ↦ (false, try_connect w.create c)
  | some (addr, c') ↦ finish_once addr (run_on_mirror stdin (w.answers addr) addr c')
]

-- The first attempt, the `k`th, and the loop over the retries that are left.
pub run_tries : Bool → (ℕ → Attempt) → ℕ → ℕ → Connections → Bool × Connections
run_tries stdin world k zero c = run_once stdin (world k) c
run_tries stdin world k (suc retries) c =
    let (ok, c') = run_once stdin (world k) c in
    let later = run_tries stdin world (suc k) retries c' in if ok then (true, c') else later

-- `strings.Contains`
pub contains : Bytes → Bytes → Bool
contains [] p = is_empty p
contains (b ∷ s) p = let later = contains s p in has_prefix (b ∷ s) p || later

pub find_mirror : Bytes → Dict Bytes Connection → Option (Bytes × Connection)
find_mirror name [] = none
find_mirror name ((addr, v) ∷ mirrors) =
    let later = find_mirror name mirrors in if contains addr name then some (addr, v) else later

-- `find`
pub find_worker : Bytes → Connections → Option (Bytes × Connections)
find_worker name c = elim (find_mirror name c.mirrors) [
  | none ↦ none
  | some (addr, v) ↦ some (addr, record c { mirrors = insert addr (take_job v) c.mirrors })
]

-- `run`; `in_master` is what `MaybeRunInMaster` answers, `worker` the worker that the request names.
pub run_request : Bool → Bytes → Bool → (ℕ → Attempt) → ℕ → Connections → Bool × Connections
run_request in_master worker stdin world retry_count c =
    if in_master
    then (true, c)
    else if not (is_empty worker)
    then elim (find_worker worker c) [
      | none ↦ (false, c)
      | some (addr, c') ↦ run_on_mirror stdin ((world 0).answers addr) addr c'
    ]
    else run_tries stdin world 0 retry_count c

-- `maybeDropConnections`; `recent` is that the last action was less than `keepAlive` ago.
pub maybe_drop_connections : Bool → Connections → Connections
maybe_drop_connections recent c =
    if is_empty c.mirrors
    then c
    else if ltb (available_jobs c.mirrors) (max_jobs c.mirrors)
    then c
    else if recent
    then c
    else record c { mirrors = [] }
