-- ===== src/Stats/Sampler.antt =====
-- stats/periodicsampler.go: `PeriodicSampler`. A slot of the ring is nil, `none`, until it is filled.
-- The measurement and the sleep between two of them are left out; a measurement of nil has no effect.
-- There is a slot at least.

pub mod Laws
mod Tests
use termite.Base.{
  ℕ, zero, suc, ◌+◌, ◌%◌, Bool, List, [], ◌∷◌, Option, none, some, ◌==◌, nat_eq, if◌then◌else◌,
  length, set, get_elem?, replicate,
}

pub record PeriodicSampler (S : Type 0) : Type 0 where
  pub curr : ℕ
  pub samples : List (Option S)

module _ {S : Type 0} where
  pub new_periodic_sampler : ℕ → PeriodicSampler S
  new_periodic_sampler samples = record { curr = 0; samples = replicate samples none }

  -- One round of `sample`.
  pub sample : Option S → PeriodicSampler S → PeriodicSampler S
  sample none me = me
  sample (some m) me =
      let curr = (me.curr + 1) % length me.samples in
      record { curr = curr; samples = set me.samples curr (some m) }

  pub slot : ℕ → List (Option S) → Option S
  slot i samples = elim (get_elem? samples i) [ none ↦ none | some s ↦ s ]

  -- The loop of `Values`, from `i` on; the fuel is the number of slots.
  pub collect : ℕ → ℕ → PeriodicSampler S → List S
  collect zero i me = []
  collect (suc fuel) i me =
      let rest = collect fuel ((i + 1) % length me.samples) me in
      if i == me.curr then [] else elim (slot i me.samples) [ none ↦ rest | some s ↦ s ∷ rest ]

  pub values : PeriodicSampler S → List S
  values me = let l = length me.samples in collect l ((me.curr + 1) % l) me

  -- `Diffs`; `minus s last` is `s.CopySample()` after `SubtractSample(last)`.
  pub diffs_from : (S → S → S) → Option S → List S → List S
  diffs_from minus last [] = []
  diffs_from minus none (v ∷ vals) = diffs_from minus (some v) vals
  diffs_from minus (some last) (v ∷ vals) = minus v last ∷ diffs_from minus (some v) vals

  pub diffs : (S → S → S) → PeriodicSampler S → List S
  diffs minus me = diffs_from minus none (values me)
