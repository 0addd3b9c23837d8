-- ===== src/Sched/Jobs/Connect.antt =====
-- `tryConnect` goes on until it has a mirror on each worker that does not refuse.
use termite.Base.{
  ℕ, zero, suc, ◌-◌, ◌<◌, ◌≤◌, ◌≡◌, refl, inl, inr, Bytes, Bool, [], ◌∷◌, Option, none, some,
  nat_eq, bytes_eq, bytes_iff, if◌then◌else◌, Dict, insert, erase, has, has-insert, length, arith,
  Option-cases, pos,
}
use termite.Sched.Jobs.{
  Connection, Connections, max_jobs, idle_worker, connect_one, connect_all, try_connect,
}

idle_count : Dict Bytes Bool → Dict Bytes Connection → ℕ
idle_count [] mirrors = 0
idle_count ((addr, b) ∷ rest) mirrors =
    let n = idle_count rest mirrors in if has addr mirrors then n else suc n

idle_count-le : (ws : Dict Bytes Bool) (ms : Dict Bytes Connection) → idle_count ws ms ≤ length ws
unfolding idle_count
idle_count-le [] ms = omega arith
idle_count-le ((a, b) ∷ ws) ms = ground (arith, idle_count-le ws ms)

idle_count-erase-le :
    (addr : Bytes) (ws : Dict Bytes Bool) (ms : Dict Bytes Connection)
    → idle_count (erase addr ws) ms ≤ idle_count ws ms
unfolding idle_count erase
idle_count-erase-le addr [] ms = omega arith
idle_count-erase-le addr ((a, b) ∷ ws) ms = ground (arith, idle_count-erase-le addr ws ms)

idle_count-erase :
    (addr : Bytes) (ws : Dict Bytes Bool) (ms : Dict Bytes Connection)
    → idle_worker ws ms ≡ some addr
    → idle_count (erase addr ws) ms < idle_count ws ms
unfolding idle_count erase idle_worker
idle_count-erase addr [] ms e = cc
idle_count-erase addr ((a, b) ∷ ws) ms e =
    ground (arith, idle_count-erase addr ws ms, idle_count-erase-le addr ws ms, bytes_iff addr a)

idle_count-insert-le :
    (addr : Bytes) (v : Connection) (ws : Dict Bytes Bool) (ms : Dict Bytes Connection)
    → idle_count ws (insert addr v ms) ≤ idle_count ws ms
unfolding idle_count
idle_count-insert-le addr v [] ms = omega arith
idle_count-insert-le addr v ((a, b) ∷ ws) ms =
    ground (arith, idle_count-insert-le addr v ws ms, has-insert a addr v ms)

idle_count-insert :
    (addr : Bytes) (v : Connection) (ws : Dict Bytes Bool) (ms : Dict Bytes Connection)
    → idle_worker ws ms ≡ some addr
    → idle_count ws (insert addr v ms) < idle_count ws ms
unfolding idle_count idle_worker
idle_count-insert addr v [] ms e = cc
idle_count-insert addr v ((a, b) ∷ ws) ms e = ground (
  arith,
  idle_count-insert addr v ws ms,
  idle_count-insert-le addr v ws ms,
  has-insert a addr v ms,
  bytes_iff a addr,
)

connect_one-count :
    (o : Option ℕ) (addr : Bytes) (c : Connections)
    → idle_worker c.workers c.mirrors ≡ some addr
    → idle_count (connect_one o addr c).workers (connect_one o addr c).mirrors
      < idle_count c.workers c.mirrors
unfolding connect_one
connect_one-count none addr c e = idle_count-erase addr c.workers c.mirrors e
connect_one-count (some g) addr c e =
    idle_count-insert addr (record { max_jobs = g; available_jobs = pos g }) c.workers c.mirrors e

idle_worker-none :
    (ws : Dict Bytes Bool) (ms : Dict Bytes Connection)
    → idle_count ws ms ≡ 0
    → idle_worker ws ms ≡ none
unfolding idle_worker idle_count
idle_worker-none [] ms e = refl
idle_worker-none ((a, b) ∷ ws) ms e = ground (arith, idle_worker-none ws ms)

connect_all-busy :
    (create : Bytes → ℕ → Option ℕ) (wanted fuel : ℕ) (c : Connections)
    → idle_count c.workers c.mirrors ≤ fuel
    → idle_worker
        (connect_all create wanted fuel c).workers
        (connect_all create wanted fuel c).mirrors
      ≡ none
unfolding connect_all
connect_all-busy create wanted zero c h = idle_worker-none c.workers c.mirrors (omega arith)
connect_all-busy create wanted (suc fuel) c h =
    elim (Option-cases (idle_worker c.workers c.mirrors)) [
      | inl n ↦ rw (n, connect_all) n
      | inr (addr, e) ↦
          rw (e, connect_all)
            (connect_all-busy create wanted fuel (connect_one (create addr wanted) addr c)
              (omega (arith, connect_one-count (create addr wanted) addr c e)))
    ]

-- No worker is idle behind it.
pub try_connect-idle_worker :
    (create : Bytes → ℕ → Option ℕ) (c : Connections)
    → max_jobs c.mirrors < c.wanted_max_jobs
    → idle_worker (try_connect create c).workers (try_connect create c).mirrors ≡ none
unfolding try_connect
try_connect-idle_worker create c h =
    let busy =
      connect_all-busy create (c.wanted_max_jobs - max_jobs c.mirrors) (length c.workers) c
        (idle_count-le c.workers c.mirrors) in
    ground (arith, busy)
