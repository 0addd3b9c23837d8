-- ===== src/Stats/Sampler/Tests.antt =====
-- Examples for the ring.
use termite.Base.{ℕ, ◌≡◌, List, [], ◌∷◌, arith}
use termite.Stats.Sampler.{new_periodic_sampler, values}
use termite.Stats.Sampler.Laws.{sample_all, history, older, values-sample_all}

abbrev four : List ℕ
four = 1 ∷ 2 ∷ 3 ∷ 4 ∷ []

-- Of four samples in a ring of three, two are returned, and the newest is not among them.
values-sample_all_example : values (sample_all four (new_periodic_sampler 3)) ≡ 2 ∷ 3 ∷ []
unfolding history older
values-sample_all_example = values-sample_all 3 four (omega arith)
