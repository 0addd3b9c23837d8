-- ===== src/Sched/Reserve.antt =====
-- termite/mirrors.go: the jobs that a worker grants to its masters.
pub mod Laws
mod Tests
use termite.Base.{
  ℕ, ◌+◌, ◌-◌, Bytes, Bool, List, [], ◌∷◌, Option, none, some, ltb, ◌==◌, nat_eq, bytes_eq,
  if◌then◌else◌, Dict, insert, erase,
}

-- The maps' values: of a `Mirror` the jobs that it was granted.
pub used_jobs : Dict Bytes ℕ → ℕ
used_jobs [] = 0
used_jobs ((_, granted) ∷ rest) = granted + used_jobs rest

-- Asked for no jobs, or with none left, `getMirror` returns an error, `none`; the address of the
-- connection is the key. The counts of the code are never negative here.
pub get_mirror : ℕ → Bytes → ℕ → Dict Bytes ℕ → Option (ℕ × Dict Bytes ℕ)
get_mirror jobs key reserve_count mirrors =
    let remaining = jobs - used_jobs mirrors in
    let granted = if ltb remaining reserve_count then remaining else reserve_count in
    if reserve_count == 0
    then none
    else if remaining == 0
    then none
    else some (granted, insert key granted mirrors)

pub drop_mirror : Bytes → Dict Bytes ℕ → Dict Bytes ℕ
drop_mirror = erase
