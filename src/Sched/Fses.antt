-- ===== src/Sched/Fses.antt =====
-- termite/mirror.go: the file systems of one `Mirror`. `activeFses`, a set of pointers, is a list
-- without repeats; a file system is known by its `id`, the count `nextFsId` at its creation, and a
-- task by a number. Each operation holds `fsMutex` throughout; where `newFs` waits on the condition
-- it has no effect, and the caller tries again. The FUSE mounts themselves, and the calls that kill
-- tasks or stop a file system, are left out; `fs_ok` says whether `newWorkerFuseFs` succeeds.
pub mod Invariant
pub mod Laws
mod Tests
use termite.Base.{
  ℕ, suc, ◌+◌, Bool, true, false, ◌&&◌, not, List, [], ◌∷◌, ◌++◌, Option, none, some, ltb, ◌==◌,
  nat_eq, if◌then◌else◌, length,
}

pub record Fs : Type 0 where
  pub id : ℕ
  pub reaping : Bool
  pub tasks : List ℕ
  pub task_ids : List ℕ

pub record Mirror : Type 0 where
  pub max_job_count : ℕ
  pub reap_count : ℕ
  pub next_fs_id : ℕ
  pub active_fses : List Fs
  pub accepting : Bool

-- `NewMirror`; `getMirror` then sets the number of jobs.
pub new_mirror : ℕ → ℕ → Mirror
new_mirror jobs reap_count = record {
  max_job_count = jobs;
  reap_count = reap_count;
  next_fs_id = 0;
  active_fses = [];
  accepting = true;
}

pub data Started : Type 0 where
  waits : Started
  shutting_down : Started
  failed : Started
  started : ℕ → Mirror → Started

pub count : List Fs → ℕ
count [] = 0
count (f ∷ fs) = length f.tasks + count fs

pub running_count : Mirror → ℕ
running_count m = count m.active_fses

-- `delete(fs.tasks, task)`
pub without : ℕ → List ℕ → List ℕ
without t [] = []
without t (u ∷ us) = let rest = without t us in if t == u then rest else u ∷ rest

-- `addTask` (fuse.go); each task is new.
pub add_task : ℕ → Fs → Fs
add_task t f = record f { tasks = t ∷ f.tasks; task_ids = f.task_ids ++ t ∷ [] }

pub is_open : ℕ → Fs → Bool
is_open reap_count f = not f.reaping && ltb (length f.task_ids) reap_count

-- `for fs := range me.activeFses` of `newFs`
pub place : ℕ → ℕ → List Fs → Option (ℕ × List Fs)
place reap_count t [] = none
place reap_count t (f ∷ fs) =
    let later = place reap_count t fs in
    if is_open reap_count f
    then some (f.id, add_task t f ∷ fs)
    else elim later [ none ↦ none | some (i, rest) ↦ some (i, f ∷ rest) ]

pub prepare_fs : Fs → Fs
prepare_fs f = record f { reaping = false; task_ids = [] }

pub new_worker_fuse_fs : Mirror → Fs
new_worker_fuse_fs m = record { id = m.next_fs_id; reaping = false; tasks = []; task_ids = [] }

pub new_fs : Bool → ℕ → Mirror → Started
new_fs fs_ok t m =
    if not (ltb (running_count m) m.max_job_count)
    then waits
    else if not m.accepting
    then shutting_down
    else elim (place m.reap_count t m.active_fses) [
      | some (i, fs) ↦ started i (record m { active_fses = fs })
      | none ↦
          if fs_ok
          then started m.next_fs_id (record m {
            next_fs_id = suc m.next_fs_id;
            active_fses = add_task t (prepare_fs (new_worker_fuse_fs m)) ∷ m.active_fses;
          })
          else failed
    ]

pub end_task : ℕ → Fs → Fs
end_task t f =
    let tasks = without t f.tasks in
    record f { tasks = tasks; reaping = if length tasks == 0 then true else f.reaping }

-- What a step does to the file system that it is given.
pub change : (Fs → Fs) → ℕ → List Fs → List Fs
change step i [] = []
change step i (f ∷ fs) = let rest = change step i fs in (if f.id == i then step f else f) ∷ rest

pub consider_reap : ℕ → ℕ → Mirror → Mirror
consider_reap i t m = record m { active_fses = change (end_task t) i m.active_fses }

pub delete : ℕ → List Fs → List Fs
delete i [] = []
delete i (f ∷ fs) = let rest = delete i fs in if f.id == i then rest else f ∷ rest

pub renew : Fs → Fs
renew f = if f.reaping then prepare_fs f else f

pub return_fs : ℕ → Mirror → Mirror
return_fs i m =
    let fs = change renew i m.active_fses in
    record m { active_fses = if m.accepting then fs else delete i fs }

pub busy_only : List Fs → List Fs
busy_only [] = []
busy_only (f ∷ fs) = let rest = busy_only fs in if length f.tasks == 0 then rest else f ∷ rest

-- `Shutdown`, up to where it waits for the set of file systems to be empty.
pub shutdown : Mirror → Mirror
shutdown m = record m { accepting = false; active_fses = busy_only m.active_fses }
