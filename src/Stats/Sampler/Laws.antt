-- ===== src/Stats/Sampler/Laws.antt =====
-- The ring against the samples that were taken.
use termite.Base.{
  ℕ, zero, suc, ◌+◌, ◌-◌, ◌%◌, ◌<◌, ◌≡◌, ◌≢◌, refl, sym, ◌∙◌, ap, subst, List, [], ◌∷◌, Option,
  none, some, ◌==◌, nat_eq, leb, if◌then◌else◌, length, set, get_elem?, length-set,
  length-replicate, get_elem?-replicate, get_elem?-set_self, get_elem?-set_ne, arith, Option-cases,
  Bool-cases, inl, inr,
}
use native.Mathlib.Nat.{mod-eq_of_lt, mod_self}
use termite.Stats.Sampler.{PeriodicSampler, new_periodic_sampler, sample, slot, collect, values}

next-mod : (i l : ℕ) → i < l → (i + 1) % l ≡ (if i + 1 == l then 0 else i + 1)
next-mod i l h = elim (Bool-cases (i + 1 == l)) [
  | inl e ↦ rw e (subst (λ x. x % l ≡ 0) (sym (ground arith)) (mod_self l))
  | inr e ↦ rw e (mod-eq_of_lt (ground arith))
]

-- Where the sample taken that many rounds before the newest one is.
abbrev back : ℕ → ℕ → ℕ → ℕ
back l curr k = if leb k curr then curr - k else curr + l - k

abbrev following : ℕ → ℕ → ℕ
following l i = if i + 1 == l then 0 else i + 1

following-back :
    (l curr k : ℕ) → curr < l → suc k < l → following l (back l curr (suc k)) ≡ back l curr k
following-back l curr k h j = ground arith

back-following :
    (l curr k : ℕ) → curr < l → suc k < l → back l (following l curr) (suc k) ≡ back l curr k
back-following l curr k h j = ground arith

back-ne : (l curr k : ℕ) → curr < l → suc k < l → back l curr (suc k) ≢ curr
back-ne l curr k h j e = ground arith

back-lt : (l curr k : ℕ) → curr < l → k < l → back l curr k < l
back-lt l curr k h j = ground arith

module _ {S : Type 0} where
  slot-set_self :
      (xs : List (Option S)) (i : ℕ) (o : Option S) → i < length xs → slot i (set xs i o) ≡ o
  unfolding slot
  slot-set_self xs i o h = rw (get_elem?-set_self xs i o h, slot) (refl)

  slot-set_ne :
      (xs : List (Option S)) (i j : ℕ) (o : Option S) → i ≢ j → slot j (set xs i o) ≡ slot j xs
  unfolding slot
  slot-set_ne xs i j o h = rw (get_elem?-set_ne xs i j o h, slot) refl

  -- The ring holds the newest samples of a history that has the newest one first.
  record IsRing (l : ℕ) (me : PeriodicSampler S) (h : List S) : Type 0 where
    size : length me.samples ≡ l
    inside : me.curr < l
    holds : (k : ℕ) → k < l → slot (back l me.curr k) me.samples ≡ get_elem? h k

  pub sample_all : List S → PeriodicSampler S → PeriodicSampler S
  sample_all [] me = me
  sample_all (m ∷ ms) me = sample_all ms (sample (some m) me)

  unfoldable pub history : List S → List S → List S
  history [] h = h
  history (m ∷ ms) h = history ms (m ∷ h)

  -- The samples that come after the newest one, so many of them, the oldest first.
  unfoldable pub older : ℕ → List S → List S
  older zero h = []
  older (suc k) h = elim (get_elem? h (suc k)) [ none ↦ older k h | some s ↦ s ∷ older k h ]

  new-IsRing : (l : ℕ) → 0 < l → IsRing l (new_periodic_sampler l) []
  unfolding new_periodic_sampler slot
  new-IsRing l h = record {
    size = length-replicate l none;
    inside = h;
    holds = λ k j.
        rw (get_elem?-replicate {A = Option S} l none (back l 0 k) (back-lt l 0 k h j), slot) refl;
  }

  moved-holds :
      (l : ℕ) (m : S) (me : PeriodicSampler S) (h : List S)
      → IsRing l me h
      → (k : ℕ) → k < l
      → slot (back l (following l me.curr) k) (set me.samples (following l me.curr) (some m))
        ≡ get_elem? (m ∷ h) k
  moved-holds l m me h r zero j =
      ap (λ i. slot i (set me.samples (following l me.curr) (some m))) (ground (arith, r.inside))
      ∙ slot-set_self me.samples (following l me.curr) (some m) (ground (arith, r.size, r.inside))
  moved-holds l m me h r (suc k) j =
      slot-set_ne me.samples (following l me.curr) (back l (following l me.curr) (suc k)) (some m)
        (λ e. back-ne l (following l me.curr) k (ground (arith, r.inside)) j (sym e))
      ∙ ap (λ i. slot i me.samples) (back-following l me.curr k r.inside j)
      ∙ r.holds k (omega arith)

  sample-IsRing :
      (l : ℕ) (m : S) (me : PeriodicSampler S) (h : List S)
      → IsRing l me h
      → IsRing l (sample (some m) me) (m ∷ h)
  unfolding sample
  sample-IsRing l m me h r =
      let e : (me.curr + 1) % length me.samples ≡ following l me.curr =
        ap (λ n. (me.curr + 1) % n) r.size ∙ next-mod me.curr l r.inside in
      rw (e, sample)
        (record {
          size = length-set me.samples (following l me.curr) (some m) ∙ r.size;
          inside = ground (arith, r.inside);
          holds = moved-holds l m me h r;
        })

  sample_all-IsRing :
      (l : ℕ) (ms : List S) (me : PeriodicSampler S) (h : List S)
      → IsRing l me h
      → IsRing l (sample_all ms me) (history ms h)
  unfolding sample_all history
  sample_all-IsRing l [] me h r = r
  sample_all-IsRing l (m ∷ ms) me h r =
      sample_all-IsRing l ms (sample (some m) me) (m ∷ h) (sample-IsRing l m me h r)

  collect-older :
      (l fuel k : ℕ) (me : PeriodicSampler S) (h : List S)
      → IsRing l me h
      → k < l
      → k < fuel
      → collect fuel (back l me.curr k) me ≡ older k h
  unfolding collect older
  collect-older l zero k me h r j f = elim f [ ]
  collect-older l (suc fuel) zero me h r j f = ground arith
  collect-older l (suc fuel) (suc k) me h r j f =
      let next : (back l me.curr (suc k) + 1) % length me.samples ≡ back l me.curr k =
        ap (λ n. (back l me.curr (suc k) + 1) % n) r.size
        ∙ next-mod (back l me.curr (suc k)) l (back-lt l me.curr (suc k) r.inside j)
        ∙ following-back l me.curr k r.inside j in
      let later = collect-older l fuel k me h r (omega arith) (omega arith) in
      elim (Bool-cases (back l me.curr (suc k) == me.curr)) [
        | inl e ↦ absurd (back-ne l me.curr k r.inside j (ground arith))
        | inr e ↦
            let rest : collect fuel ((back l me.curr (suc k) + 1) % length me.samples) me
                ≡ older k h =
              ap (λ i. collect fuel i me) next ∙ later in
            rw (e, r.holds (suc k) j)
              (elim (Option-cases (get_elem? h (suc k))) [
                | inl n ↦ rw (n, older) rest
                | inr (s, n) ↦ rw (n, older) (ap (λ x. s ∷ x) rest)
              ])
      ]

  -- `Values`, after any number of samples, with a ring of a positive size: the samples that still
  -- fit, the oldest one first, and the newest one not among them.
  pub values-sample_all :
      (l : ℕ) (ms : List S)
      → 0 < l
      → values (sample_all ms (new_periodic_sampler l)) ≡ older (l - 1) (history ms [])
  unfolding values
  values-sample_all l ms h =
      let me = sample_all ms (new_periodic_sampler l) in
      let r = sample_all-IsRing l ms (new_periodic_sampler l) [] (new-IsRing l h) in
      let first : (me.curr + 1) % length me.samples ≡ back l me.curr (l - 1) =
        ap (λ n. (me.curr + 1) % n) r.size
        ∙ next-mod me.curr l r.inside
        ∙ ground (arith, r.inside) in
      rw (first, r.size, values)
        (collect-older l l (l - 1) me (history ms []) r (omega arith) (omega arith))
