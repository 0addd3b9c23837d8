-- ===== src/Stats/Timers/Tests.antt =====
-- Examples for the timers.
use termite.Base.{ℕ, ◌≡◌, refl, Bytes, codes, List, [], ◌∷◌, some}
use termite.Stats.Timers.{per_call}

abbrev calls : List (Bytes × ℕ × ℕ)
calls = (codes "Fetch", 2, 10) ∷ (codes "Save", 1, 4) ∷ (codes "Fetch", 1, 5) ∷ []

two_milliseconds : per_call (record { n = 2; duration = 4000002 }) ≡ some (2, 2, codes "ms")
unfolding per_call
two_milliseconds = refl
