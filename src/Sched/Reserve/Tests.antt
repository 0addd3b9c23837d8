-- ===== src/Sched/Reserve/Tests.antt =====
-- Examples for the jobs of a worker.
use termite.Base.{
  ℕ, ◌≡◌, ◌<◌, ◌≤◌, refl, Bytes, codes, [], ◌∷◌, some, arith, lookup, insert, Dict, bytes_beq,
  bytes_eq,
}
use termite.Sched.Reserve.{used_jobs, get_mirror}
use termite.Sched.Reserve.Laws.{get_mirror-within}

abbrev granted : Dict Bytes ℕ
granted = (codes "m1", 3) ∷ []

abbrev both : Dict Bytes ℕ
both = (codes "m1", 3) ∷ (codes "m2", 1) ∷ []

get_mirror-within_example :
    (0 < 1) × (1 ≤ 2) × (lookup (codes "m2") both ≡ some 1) × (used_jobs both ≤ 4)
unfolding used_jobs get_mirror insert bytes_beq
get_mirror-within_example = get_mirror-within 4 (codes "m2") 2 granted 1 both (omega arith) refl
