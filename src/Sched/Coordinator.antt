-- ===== src/Sched/Coordinator.antt =====
-- termite/coordinator.go: the register of the workers. Each operation holds the mutex for its whole
-- effect; `check_reachable` reads the clock and the addresses first and takes the dead workers out
-- later, so it is two operations. The clock is an argument, `dial` says which addresses answer.
-- Connections, `Worker.Shutdown` calls and the HTTP interface are left out.
pub mod Changes
mod Tests
use termite.Base.{
  ℕ, Bytes, Bool, true, false, ◌&&◌, not, List, [], ◌∷◌, Option, none, some, ◌==◌, nat_eq, bytes_eq,
  ltb, if◌then◌else◌, Dict, lookup, insert, erase, is_empty,
}
use termite.Attr.FileSet.{str_lt}

pub record Registration : Type 0 where
  pub address : Bytes
  pub name : Bytes
  pub version : Bytes
  pub http_status_port : ℕ

pub record WorkerRegistration : Type 0 where
  pub registration : Registration
  pub last_reported : ℕ

pub record Coordinator : Type 0 where
  pub workers : Dict Bytes WorkerRegistration
  pub last_change : ℕ

pub new_coordinator : Coordinator
new_coordinator = record { workers = []; last_change = 0 }

-- `none` is the error that the address cannot be contacted.
pub register : (Bytes → Bool) → ℕ → Registration → Coordinator → Option Coordinator
register dial now req c =
    if dial req.address
    then some (record {
      workers = insert req.address (record { registration = req; last_reported = now }) c.workers;
      last_change = now;
    })
    else none

-- `sort.Strings` on the keys
pub insert_key : Bytes → List Bytes → List Bytes
insert_key k [] = k ∷ []
insert_key k (j ∷ keys) =
    let rest = insert_key k keys in if str_lt j k then j ∷ rest else k ∷ j ∷ keys

pub sorted_keys : Dict Bytes WorkerRegistration → List Bytes
sorted_keys [] = []
sorted_keys ((k, _) ∷ workers) = insert_key k (sorted_keys workers)

pub registrations : Dict Bytes WorkerRegistration → List Bytes → List Registration
registrations workers [] = []
registrations workers (k ∷ keys) = elim (lookup k workers) [
  | none ↦ registrations workers keys
  | some w ↦ w.registration ∷ registrations workers keys
]

-- `List`; `none` where it waits for a change.
pub list : ℕ → Coordinator → Option (List Registration × ℕ)
list latest c =
    if ltb latest c.last_change
    then some (registrations c.workers (sorted_keys c.workers), c.last_change)
    else none

pub worker_addresses : Coordinator → List Bytes
worker_addresses c = addresses c.workers
  where
    addresses : Dict Bytes WorkerRegistration → List Bytes
    addresses [] = []
    addresses ((k, _) ∷ workers) = k ∷ addresses workers

pub unreachable : (Bytes → Bool) → List Bytes → List Bytes
unreachable dial [] = []
unreachable dial (a ∷ addrs) =
    let rest = unreachable dial addrs in if dial a then rest else a ∷ rest

-- What is deleted, `now` read when the check began.
pub delete_old : ℕ → List Bytes → Dict Bytes WorkerRegistration → Dict Bytes WorkerRegistration
delete_old now [] workers = workers
delete_old now (a ∷ to_delete) workers = delete_old now to_delete (elim (lookup a workers) [
  | none ↦ workers
  | some w ↦ if ltb w.last_reported now then erase a workers else workers
])

-- `checkReachable` from where it takes the mutex; `later` is the clock then.
pub check_reachable : ℕ → ℕ → List Bytes → Coordinator → Coordinator
check_reachable now later to_delete c =
    if is_empty to_delete
    then c
    else record { workers = delete_old now to_delete c.workers; last_change = later }

pub get_worker : Bytes → Coordinator → Option WorkerRegistration
get_worker addr c = lookup addr c.workers
