-- ===== src/Stats/Timers/Laws.antt =====
-- The sums that a sequence of `LogN` leaves.
use termite.Base.{
  ℕ, ◌+◌, ◌≡◌, refl, Bytes, List, [], ◌∷◌, ◌==◌, nat_eq, bytes_eq, bytes_iff, if◌then◌else◌, lookup,
  lookup-insert, arith,
}
use termite.Stats.Timers.{TimerStats, new_timer_stats, timing, log_n, timings}

-- Calls of `LogN`: a name, the number of calls, the duration.
pub log_all : List (Bytes × ℕ × ℕ) → TimerStats → TimerStats
log_all [] t = t
log_all ((name, n, dt) ∷ calls) t = log_all calls (log_n name n dt t)

-- What the calls with the given name add up to.
unfoldable pub total_n : Bytes → List (Bytes × ℕ × ℕ) → ℕ
total_n name [] = 0
total_n name ((k, n, dt) ∷ calls) = (if name == k then n else 0) + total_n name calls

unfoldable pub total_duration : Bytes → List (Bytes × ℕ × ℕ) → ℕ
total_duration name [] = 0
total_duration name ((k, n, dt) ∷ calls) = (if name == k then dt else 0) + total_duration name calls

timing-log_n :
    (name k : Bytes) (n dt : ℕ) (t : TimerStats)
    → timing name (log_n k n dt t) ≡ (
        if name == k
        then record { n = (timing k t).n + n; duration = (timing k t).duration + dt }
        else timing name t)
unfolding timing log_n
timing-log_n name k n dt t = ground (
  arith,
  lookup-insert name k (record { n = (timing k t).n + n; duration = (timing k t).duration + dt }) t,
  bytes_iff name k,
)

lookup-timings : (name : Bytes) (t : TimerStats) → lookup name (timings t) ≡ lookup name t
unfolding timings lookup
lookup-timings name [] = refl
lookup-timings name ((k, r) ∷ t) = ground (arith, lookup-timings name t)

timing-timings : (name : Bytes) (t : TimerStats) → timing name (timings t) ≡ timing name t
unfolding timing
timing-timings name t = rw (lookup-timings name t, timing) refl

sums :
    (name : Bytes) (calls : List (Bytes × ℕ × ℕ)) (t : TimerStats)
    → timing name (log_all calls t) ≡ record {
      n = (timing name t).n + total_n name calls;
      duration = (timing name t).duration + total_duration name calls;
    }
unfolding log_all total_n total_duration
sums name [] t = ground arith
sums name ((k, n, dt) ∷ calls) t =
    ground (arith, sums name calls (log_n k n dt t), timing-log_n name k n dt t, bytes_iff name k)

-- After any calls of `LogN`, what `Timings` returns has for each name the sums of the counts and of the
-- durations that were logged under it.
pub timings-log_all :
    (name : Bytes) (calls : List (Bytes × ℕ × ℕ))
    → timing name (timings (log_all calls new_timer_stats))
      ≡ record { n = total_n name calls; duration = total_duration name calls }
unfolding new_timer_stats timing lookup
timings-log_all name calls =
    ground (arith, timing-timings name (log_all calls []), sums name calls [])
