-- ===== src/Sched/Coordinator/Tests.antt =====
-- Examples for the register: a worker registers again while a check is under way.
use termite.Base.{
  ℕ, ◌≡◌, ◌<◌, ◌⊎◌, refl, codes, true, List, [], ◌∷◌, some, arith, lookup, insert, erase, is_empty,
  bytes_beq, In,
}
use termite.Sched.Coordinator.{
  Registration, WorkerRegistration, Coordinator, new_coordinator, register, list, check_reachable,
  delete_old, get_worker,
}
use termite.Sched.Coordinator.Changes.{registers, checks, Reach, here, next, list-Reach}

abbrev w : Registration
w = record { address = codes "w:1"; name = codes "w"; version = codes "1"; http_status_port = 80 }

abbrev at : ℕ → WorkerRegistration
at now = record { registration = w; last_reported = now }

abbrev registered : Coordinator
registered = record { workers = (codes "w:1", at 5) ∷ []; last_change = 5 }

registered_at_5 : register (λ a. true) 5 w new_coordinator ≡ some registered
unfolding register new_coordinator insert
registered_at_5 = refl

checked : Reach new_coordinator (check_reachable 3 6 (codes "w:1" ∷ []) registered)
unfolding new_coordinator
checked =
    next (next here (registers (λ a. true) 5 w (omega arith) registered_at_5))
      (checks 3 6 (codes "w:1" ∷ []) (omega arith))

still_there :
    get_worker (codes "w:1") (check_reachable 3 6 (codes "w:1" ∷ []) registered) ≡ some (at 5)
unfolding get_worker check_reachable delete_old is_empty lookup erase bytes_beq
still_there = refl

list-Reach_example :
    (check_reachable 3 6 (codes "w:1" ∷ []) registered ≡ new_coordinator)
    ⊎ ((rs : List Registration) × (list new_coordinator.last_change
            (check_reachable 3 6 (codes "w:1" ∷ []) registered)
          ≡ some (rs, (check_reachable 3 6 (codes "w:1" ∷ []) registered).last_change))
        × (new_coordinator.last_change
            < (check_reachable 3 6 (codes "w:1" ∷ []) registered).last_change)
        × In w rs)
list-Reach_example = list-Reach (codes "w:1") (at 5) checked still_there
