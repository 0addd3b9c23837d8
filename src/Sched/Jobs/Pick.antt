-- ===== src/Sched/Jobs/Pick.antt =====
-- Which worker `pick` takes, and that `jobDone` gives the job back.
use termite.Base.{
  ℕ, ◌<◌, ◌≡◌, ◌≢◌, refl, ◌⊎◌, inl, inr, Bytes, [], ◌∷◌, Option, none, some, ◌==◌, nat_eq, bytes_eq,
  bytes_iff, if◌then◌else◌, Dict, lookup, insert, lookup-insert, lookup-insert_self, NodupKeys,
  arith, Bool-cases, Option-cases, pos, pos_part, ltb_ℤ, sub-add_cancel, ℕ_discrete,
}
use termite.Sched.Jobs.{
  Connection, Connections, available_jobs, max_jobs, more_free, better, choose, take_job, free_job,
  chosen, try_connect, pick, job_done,
}

-- With a free job anywhere, `choose` takes a mirror that has one.
choose-free :
    (mirrors : Dict Bytes Connection) (best : Option (Bytes × Connection))
    → available_jobs mirrors ≢ 0
    → (addr : Bytes) × (v : Connection) × (choose mirrors best ≡ some (addr, v))
      × (0 < pos_part v.available_jobs)
unfolding choose available_jobs
choose-free [] best h = absurd (h refl)
choose-free ((addr, v) ∷ rest) best h = elim (Bool-cases (ltb_ℤ (pos 0) v.available_jobs)) [
  | inl free ↦ (addr, v, ground arith, ground arith)
  | inr full ↦
      let (a, w, e, p) = choose-free rest (better addr v best) (ground arith) in
      (a, w, ground arith, p)
]

-- What `better` gives is the new mirror or the old one.
better-cases :
    (a : Bytes) (w : Connection) (best : Option (Bytes × Connection)) (addr : Bytes)
    (v : Connection) (R : Option Connection)
    → better a w best ≡ some (addr, v)
    → ((if addr == a then some w else R) ≡ some v) ⊎ (best ≡ some (addr, v))
unfolding better
better-cases a w none addr v R e = inl (ground (arith, bytes_iff addr a))
better-cases a w (some (b, x)) addr v R e = ground (arith, bytes_iff addr a)

-- What is chosen stands in the map, or was given.
choose-lookup :
    (mirrors : Dict Bytes Connection) (best : Option (Bytes × Connection)) (addr : Bytes)
    (v : Connection)
    → NodupKeys mirrors
    → choose mirrors best ≡ some (addr, v)
    → (lookup addr mirrors ≡ some v) ⊎ (best ≡ some (addr, v))
unfolding choose lookup
choose-lookup [] best addr v u e = inr e
choose-lookup ((a, w) ∷ rest) best addr v u e = elim (Bool-cases (ltb_ℤ (pos 0) w.available_jobs)) [
  | inl free ↦ inl (ground (arith, bytes_iff addr a))
  | inr full ↦ elim (choose-lookup rest (better a w best) addr v u.1 (ground arith)) [
    | inl later ↦ inl (ground (arith, bytes_iff addr a))
    | inr given ↦ better-cases a w best addr v (lookup addr rest) given
  ]
]

choose-some :
    (mirrors : Dict Bytes Connection) (best : Bytes × Connection)
    → (r : Bytes × Connection) × (choose mirrors (some best) ≡ some r)
unfolding choose better
choose-some [] best = (best, refl)
choose-some ((a, w) ∷ rest) (b, x) = elim (Bool-cases (ltb_ℤ (pos 0) w.available_jobs)) [
  | inl free ↦ ((a, w), ground arith)
  | inr full ↦ elim (Bool-cases (more_free w x)) [
    | inl m ↦ let (r, e) = choose-some rest (a, w) in (r, ground arith)
    | inr m ↦ let (r, e) = choose-some rest (b, x) in (r, ground arith)
  ]
]

-- With no job free, `choose` still finds a mirror, if there is one.
choose-none : (mirrors : Dict Bytes Connection) → choose mirrors none ≡ none → max_jobs mirrors ≡ 0
unfolding choose max_jobs better
choose-none [] e = refl
choose-none ((a, w) ∷ rest) e = let (r, f) = choose-some rest (a, w) in ground arith

-- `pick` fails only where no job is free and, after it tried to connect, no mirror has a job to give.
pub pick-none :
    (create : Bytes → ℕ → Option ℕ) (c : Connections)
    → pick create c ≡ none
    → (available_jobs c.mirrors ≡ 0) × (max_jobs (try_connect create c).mirrors ≡ 0)
unfolding pick chosen
pick-none create c e = elim (ℕ_discrete (available_jobs c.mirrors) 0) [
  | yes dry ↦ (
    dry,
    elim (Option-cases (choose (try_connect create c).mirrors none)) [
      | inl n ↦ choose-none (try_connect create c).mirrors n
      | inr ((a, v), s) ↦ ground arith
    ],
  )
  | no free ↦ let (a, v, s, p) = choose-free c.mirrors none free in absurd (ground arith)
]

-- While some job is free, and no mirror is listed twice, `pick` makes no connection: it takes one
-- job, of a mirror that has a free one, and changes nothing else.
pub pick-free :
    (create : Bytes → ℕ → Option ℕ) (c : Connections)
    → NodupKeys c.mirrors
    → available_jobs c.mirrors ≢ 0
    → (addr : Bytes) × (v : Connection) × (lookup addr c.mirrors ≡ some v)
      × (0 < pos_part v.available_jobs)
      × (pick create c ≡ some (addr, record c { mirrors = insert addr (take_job v) c.mirrors }))
unfolding pick chosen
pick-free create c u h =
    let (addr, v, e, free) = choose-free c.mirrors none h in
    let there : lookup addr c.mirrors ≡ some v = elim (choose-lookup c.mirrors none addr v u e) [
      | inl l ↦ l
      | inr n ↦ absurd (cc)
    ] in
    (addr, v, there, free, ground arith)

-- While some job is free, and no mirror is listed twice, `jobDone` gives back what `pick` took:
-- every mirror has the counters that it had.
pub job_done-pick :
    (create : Bytes → ℕ → Option ℕ) (c c' : Connections) (addr k : Bytes)
    → NodupKeys c.mirrors
    → available_jobs c.mirrors ≢ 0
    → pick create c ≡ some (addr, c')
    → lookup k (job_done addr c').mirrors ≡ lookup k c.mirrors
unfolding job_done free_job take_job
job_done-pick create c c' addr k u h e =
    let (a, v, there, free, p) = pick-free create c u h in
    ground (
      arith,
      lookup-insert_self a (take_job v) c.mirrors,
      lookup-insert k a (take_job v) c.mirrors,
      lookup-insert k a v c'.mirrors,
      sub-add_cancel v.available_jobs (pos 1),
      bytes_iff k a,
    )
