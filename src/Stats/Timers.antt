-- ===== src/Stats/Timers.antt =====
-- stats/timerpc.go: `TimerStats`. Each operation holds the mutex. Durations are counts of nanoseconds and
-- stay in range; the printing is left out but for the choice of the unit.
pub mod Laws
mod Tests
use termite.Base.{
  ℕ, ◌+◌, ◌/◌, ◌^◌, Bytes, codes, Bool, List, [], ◌∷◌, Option, none, some, ltb, ◌==◌, nat_eq,
  bytes_eq, if◌then◌else◌, Dict, lookup, insert,
}

pub record RpcTiming : Type 0 where
  pub n : ℕ
  pub duration : ℕ

abbrev pub TimerStats : Type 0
TimerStats = Dict Bytes RpcTiming

pub new_timer_stats : TimerStats
new_timer_stats = []

-- `timings[name]`, new if it is nil
pub timing : Bytes → TimerStats → RpcTiming
timing name t = elim (lookup name t) [ none ↦ record { n = 0; duration = 0 } | some r ↦ r ]

pub log_n : Bytes → ℕ → ℕ → TimerStats → TimerStats
log_n name n dt t =
    let r = timing name t in insert name (record { n = r.n + n; duration = r.duration + dt }) t

pub log : Bytes → ℕ → TimerStats → TimerStats
log name dt t = log_n name 1 dt t

-- The copy that `Timings` makes
pub timings : TimerStats → TimerStats
timings [] = []
timings ((name, r) ∷ t) = (name, record { n = r.n; duration = r.duration }) ∷ timings t

-- `String`: the calls, and time per call with its unit; `none` for "0 calls".
pub per_call : RpcTiming → Option (ℕ × ℕ × Bytes)
per_call r =
    if r.n == 0
    then none
    else let avg = r.duration / r.n in
      if ltb 1000000000 avg
      then some (r.n, avg / 1000000000, codes "s")
      else if ltb 1000000 avg
      then some (r.n, avg / 1000000, codes "ms")
      else if ltb 1000 avg
      then some (r.n, avg / 1000, codes "us")
      else some (r.n, avg, codes "ns")
