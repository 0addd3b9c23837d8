-- ===== src/Master/Run/Retries.antt =====
-- A failed attempt drops its worker, so enough retries come to a worker that is good.
use termite.Base.{
  ℕ, zero, suc, ◌≡◌, ◌≤◌, ◌≢◌, ◌⊎◌, inl, inr, refl, sym, subst, Bytes, Bool, true, false, not, ◌&&◌,
  [], nat_eq, bytes_eq, Dict, erase, has, length, arith, Bool-cases, is_empty,
}
use termite.Sched.Jobs.{Connections, job_done}
use termite.Sched.Jobs.Ready.{
  Grants, IsReady, pick-IsReady, job_done-IsReady, drop-IsReady, length-erase, has-length,
}
use termite.Master.Run.{
  Answers, Attempt, run_on_mirror, finish_once, run_once, run_tries, run_request,
}

-- Every call to the worker succeeds.
abbrev pub Succeeds : Answers → Type 0
Succeeds a = (a.sent ≡ true) × (a.dialled ≡ true) × (a.called ≡ true) × (a.waited ≡ true)

module _ (stdin : Bool) (good : Bytes) where
  run_on_mirror-IsReady :
      (names : Dict Bytes Bool) (a : Answers) (addr : Bytes) (c : Connections)
      → IsReady good names c
      → IsReady good names (run_on_mirror stdin a addr c).1
  unfolding run_on_mirror
  run_on_mirror-IsReady names a addr c r = elim (Bool-cases (not a.sent)) [
    | inl e ↦ rw (e, run_on_mirror) r
    | inr e ↦ elim (Bool-cases (stdin && not a.dialled)) [
      | inl f ↦ rw (e, f, run_on_mirror) done
      | inr f ↦ elim (Bool-cases (not a.called)) [
        | inl g ↦ rw (e, f, g, run_on_mirror) done
        | inr g ↦ rw (e, f, g, run_on_mirror) done
      ]
    ]
  ]
    where
      done : IsReady good names (job_done addr c)
      done = job_done-IsReady good names addr c r

  run_on_mirror-Succeeds :
      (a : Answers) (addr : Bytes) (c : Connections)
      → Succeeds a
      → (run_on_mirror stdin a addr c).0 ≡ true
  unfolding run_on_mirror
  run_on_mirror-Succeeds a addr c (s, d, l, w) = ground (arith, s, d, l, w)

  -- An attempt succeeds, or leaves one name fewer.
  run_once-cases :
      (w : Attempt) (names : Dict Bytes Bool) (c : Connections)
      → Grants good w.create
      → Succeeds (w.answers good)
      → IsReady good names c
      → ((run_once stdin w c).0 ≡ true)
        ⊎ ((addr : Bytes) × (has addr names ≡ true)
            × IsReady good (erase addr names) (run_once stdin w c).1)
  unfolding run_once finish_once
  run_once-cases w names c g a r =
      let (addr, c', e, h, r') = pick-IsReady good names w.create g c r in
      elim (Bool-cases (run_on_mirror stdin (w.answers addr) addr c').0) [
        | inl o ↦ inl (rw (e, o, run_once, finish_once) refl)
        | inr o ↦
            let other : addr ≢ good = λ s.
              let fine : (run_on_mirror stdin (w.answers addr) addr c').0 ≡ true =
                run_on_mirror-Succeeds (w.answers addr) addr c'
                  (subst (λ x. Succeeds (w.answers x)) (sym s) a) in
              ground (arith, fine, o) in
            inr (
              addr,
              h,
              rw (e, o, run_once, finish_once)
                  (drop-IsReady good names addr (run_on_mirror stdin (w.answers addr) addr c').1
                    other (run_on_mirror-IsReady names (w.answers addr) addr c' r')),
            )
      ]

  run_tries-IsReady :
      (world : ℕ → Attempt) (retries k : ℕ) (names : Dict Bytes Bool) (c : Connections)
      → ((i : ℕ) → Grants good (world i).create)
      → ((i : ℕ) → Succeeds ((world i).answers good))
      → IsReady good names c
      → length names ≤ suc retries
      → (run_tries stdin world k retries c).0 ≡ true
  unfolding run_tries
  run_tries-IsReady world zero k names c g a r l =
      elim (run_once-cases (world k) names c (g k) (a k) r) [
        | inl o ↦ o
        | inr (addr, h, r') ↦ absurd (
            omega (
              arith,
              l,
              length-erase addr names h,
              has-length good (erase addr names) (r'.workers_named good r'.is_known),
            ))
      ]
  run_tries-IsReady world (suc retries) k names c g a r l =
      elim (run_once-cases (world k) names c (g k) (a k) r) [
        | inl o ↦ rw (o, run_tries) refl
        | inr (addr, h, r') ↦
            let rest =
              run_tries-IsReady world retries (suc k) (erase addr names)
                (run_once stdin (world k) c).1 g a r'
                (omega (arith, l, length-erase addr names h)) in
            ground (arith, rest)
      ]

  -- A request that names no worker is run, if one good worker is known: one that grants a job whenever it is
  -- asked and to which every call succeeds, whatever the other workers do. As many retries are enough as
  -- there are other workers, known or connected, in `names`; some job must be wanted, and a mirror of the
  -- good worker that is connected already must have one.
  pub run_request-IsReady :
      (in_master : Bool) (world : ℕ → Attempt) (retry_count : ℕ) (names : Dict Bytes Bool)
      (c : Connections)
      → ((i : ℕ) → Grants good (world i).create)
      → ((i : ℕ) → Succeeds ((world i).answers good))
      → IsReady good names c
      → length names ≤ suc retry_count
      → (run_request in_master [] stdin world retry_count c).0 ≡ true
  unfolding run_request is_empty
  run_request-IsReady true world retry_count names c g a r l = refl
  run_request-IsReady false world retry_count names c g a r l =
      run_tries-IsReady world retry_count 0 names c g a r l
