-- ===== src/Sched/Jobs/Tests.antt =====
-- Examples for a master with two workers, one of them connected.
use termite.Base.{
  ℕ, ◌≡◌, ◌<◌, refl, Bytes, codes, true, [], ◌∷◌, Option, none, some, arith, lookup, insert, has,
  bytes_beq, pos, pos_part, bytes_eq, ◌-ℤ◌,
}
use termite.Sched.Jobs.{
  Connection, Connections, available_jobs, max_jobs, take_job, idle_worker, try_connect, pick,
  chosen, choose, better, connect_all, connect_one,
}
use termite.Sched.Jobs.Pick.{pick-free}

-- Each worker grants what is asked for, up to two jobs.
abbrev grants : Bytes → ℕ → Option ℕ
grants addr wanted = some 2

abbrev refuses : Bytes → ℕ → Option ℕ
refuses addr wanted = none

abbrev w1 : Bytes
w1 = codes "w1"

abbrev w2 : Bytes
w2 = codes "w2"

abbrev state : Connections
state = record {
  wanted_max_jobs = 4;
  workers = (w1, true) ∷ (w2, true) ∷ [];
  mirrors = (w1, record { max_jobs = 2; available_jobs = pos 1 }) ∷ [];
}

abbrev no_mirror : Connections
no_mirror = record state { mirrors = [] }

abbrev busier : Connections
busier = record state { mirrors = (w1, record { max_jobs = 2; available_jobs = pos 0 }) ∷ [] }

pick-free_example :
    (addr : Bytes) × (v : Connection) × (lookup addr state.mirrors ≡ some v)
    × (0 < pos_part v.available_jobs)
    × (pick grants state
        ≡ some (addr, record state { mirrors = insert addr (take_job v) state.mirrors }))
unfolding available_jobs lookup
pick-free_example = pick-free grants state (refl, tt) (λ e. ground arith)

picks : pick grants state ≡ some (w1, busier)
unfolding pick chosen choose better take_job available_jobs try_connect max_jobs connect_all
    connect_one idle_worker has lookup insert bytes_beq ◌-ℤ◌
picks = refl
