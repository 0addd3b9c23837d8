-- ===== src/Sched/Reserve/Laws.antt =====
-- A worker never promises more jobs than it has.
use termite.Base.{
  ℕ, ◌+◌, ◌<◌, ◌≤◌, ◌≡◌, Bytes, [], ◌∷◌, none, some, nat_eq, bytes_eq, Dict, insert, erase, lookup,
  lookup-insert_self, arith, ◌↔◌, ◌⊎◌,
}
use termite.Sched.Reserve.{used_jobs, get_mirror, drop_mirror}

used_jobs-insert-le :
    (k : Bytes) (n : ℕ) (m : Dict Bytes ℕ) → used_jobs (insert k n m) ≤ n + used_jobs m
unfolding used_jobs insert
used_jobs-insert-le k n [] = omega arith
used_jobs-insert-le k n ((j, v) ∷ m) = ground (arith, used_jobs-insert-le k n m)

used_jobs-erase-le : (k : Bytes) (m : Dict Bytes ℕ) → used_jobs (erase k m) ≤ used_jobs m
unfolding used_jobs erase
used_jobs-erase-le k [] = omega arith
used_jobs-erase-le k ((j, v) ∷ m) = ground (arith, used_jobs-erase-le k m)

-- While the jobs that a worker granted are within its number of jobs, a request is refused exactly if
-- it asks for none or none is left.
pub get_mirror-none :
    (jobs : ℕ) (key : Bytes) (count : ℕ) (mirrors : Dict Bytes ℕ)
    → used_jobs mirrors ≤ jobs
    → (get_mirror jobs key count mirrors ≡ none) ↔ ((count ≡ 0) ⊎ (used_jobs mirrors ≡ jobs))
unfolding get_mirror
get_mirror-none jobs key count mirrors h = (λ e. ground arith, λ e. ground arith)

-- While the jobs that a worker granted are within its number of jobs, a request that is not refused
-- gets a grant that is positive, at most what was asked for, and recorded under its key, and the
-- grants stay within the number of jobs.
pub get_mirror-within :
    (jobs : ℕ) (key : Bytes) (count : ℕ) (mirrors : Dict Bytes ℕ) (granted : ℕ)
    (after : Dict Bytes ℕ)
    → used_jobs mirrors ≤ jobs
    → get_mirror jobs key count mirrors ≡ some (granted, after)
    → (0 < granted)
      × (granted ≤ count)
      × (lookup key after ≡ some granted)
      × (used_jobs after ≤ jobs)
unfolding get_mirror
get_mirror-within jobs key count mirrors granted after h e =
    ground (arith, used_jobs-insert-le key granted mirrors, lookup-insert_self key granted mirrors)

-- A dropped mirror keeps the grants within the number of jobs.
pub drop_mirror-le :
    (key : Bytes) (mirrors : Dict Bytes ℕ) → used_jobs (drop_mirror key mirrors) ≤ used_jobs mirrors
unfolding drop_mirror
drop_mirror-le key mirrors = used_jobs-erase-le key mirrors
