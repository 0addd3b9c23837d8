-- ===== src/Sched/Jobs.antt =====
-- termite/mirrorconnection.go: `mirrorConnections`. A connection is its two counters; the lock is
-- held for each operation. `createMirror`, for which the lock is given up, is a parameter: what it
-- answers for an address, with nothing else running meanwhile. Closing connections, statistics and
-- times are left out. Where `range` or `rand` chooses, the order of the list does.
pub mod Pick
pub mod Connect
pub mod Ready
mod Tests
use termite.Base.{
  ℕ, zero, suc, ◌+◌, ◌-◌, ◌*◌, Bytes, Bool, true, false, ◌&&◌, List, [], ◌∷◌, Option, none, some,
  ltb, leb, ◌==◌, nat_eq, bytes_eq, if◌then◌else◌, is_empty, length, Dict, lookup, insert, erase,
  has, ℤ, pos, pos_part, neg_part, ◌+ℤ◌, ◌-ℤ◌, ltb_ℤ,
}

pub record Connection : Type 0 where
  pub max_jobs : ℕ
  pub available_jobs : ℤ

pub record Connections : Type 0 where
  pub wanted_max_jobs : ℕ
  pub workers : Dict Bytes Bool
  pub mirrors : Dict Bytes Connection

pub available_jobs : Dict Bytes Connection → ℕ
available_jobs [] = 0
available_jobs ((_, mc) ∷ rest) =
    (if ltb_ℤ (pos 0) mc.available_jobs then pos_part mc.available_jobs else 0)
    + available_jobs rest

pub max_jobs : Dict Bytes Connection → ℕ
max_jobs [] = 0
max_jobs ((_, mc) ∷ rest) = mc.max_jobs + max_jobs rest

-- `l > maxAvail` for the shares of free jobs, neither of which is positive here; a share is
-- `available / max`, compared exactly.
pub more_free : Connection → Connection → Bool
more_free v b =
    ltb (neg_part v.available_jobs * b.max_jobs) (neg_part b.available_jobs * v.max_jobs)

pub better : Bytes → Connection → Option (Bytes × Connection) → Option (Bytes × Connection)
better addr v none = some (addr, v)
better addr v (some (best, b)) = if more_free v b then some (addr, v) else some (best, b)

-- The loop of `pick`: the first mirror with a free job, or the one with the largest share.
pub choose : Dict Bytes Connection → Option (Bytes × Connection) → Option (Bytes × Connection)
choose [] best = best
choose ((addr, v) ∷ rest) best =
    let later = choose rest (better addr v best) in
    if ltb_ℤ (pos 0) v.available_jobs then some (addr, v) else later

unfoldable pub take_job : Connection → Connection
take_job mc = record mc { available_jobs = mc.available_jobs -ℤ pos 1 }

pub free_job : Connection → Connection
free_job mc = record mc { available_jobs = mc.available_jobs +ℤ pos 1 }

-- `idleWorkerAddress`, `none` for "".
pub idle_worker : Dict Bytes Bool → Dict Bytes Connection → Option Bytes
idle_worker [] mirrors = none
idle_worker ((addr, _) ∷ rest) mirrors =
    if has addr mirrors then idle_worker rest mirrors else some addr

-- `createMirror`: the jobs that the worker grants, or an error.
pub connect_one : Option ℕ → Bytes → Connections → Connections
connect_one none addr c = record c { workers = erase addr c.workers }
connect_one (some granted) addr c = record c {
  mirrors = insert addr (record { max_jobs = granted; available_jobs = pos granted }) c.mirrors;
}

pub connect_all : (Bytes → ℕ → Option ℕ) → ℕ → ℕ → Connections → Connections
connect_all create wanted zero c = c
connect_all create wanted (suc fuel) c = elim (idle_worker c.workers c.mirrors) [
  | none ↦ c
  | some addr ↦ connect_all create wanted fuel (connect_one (create addr wanted) addr c)
]

-- The fuel is the number of workers: each round connects to one, or removes it.
pub try_connect : (Bytes → ℕ → Option ℕ) → Connections → Connections
try_connect create c =
    let wanted = c.wanted_max_jobs - max_jobs c.mirrors in
    if wanted == 0 then c else connect_all create wanted (length c.workers) c

pub chosen : Connections → Option (Bytes × Connection) → Option (Bytes × Connections)
chosen c none = none
chosen c (some (addr, v)) = some (addr, record c { mirrors = insert addr (take_job v) c.mirrors })

-- `pick`; `none` is its error, "No workers found at all."
pub pick : (Bytes → ℕ → Option ℕ) → Connections → Option (Bytes × Connections)
pick create c =
    let c' = try_connect create c in
    if available_jobs c.mirrors == 0
    then (if max_jobs c'.mirrors == 0 then none else chosen c' (choose c'.mirrors none))
    else chosen c (choose c.mirrors none)

pub drop : Bytes → Connections → Connections
drop addr c = record c { mirrors = erase addr c.mirrors; workers = erase addr c.workers }

-- `jobDone`; a mirror that was dropped meanwhile is no longer in the map.
pub job_done : Bytes → Connections → Connections
job_done addr c = elim (lookup addr c.mirrors) [
  | none ↦ c
  | some mc ↦ record c { mirrors = insert addr (free_job mc) c.mirrors }
]
