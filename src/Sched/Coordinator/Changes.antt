-- ===== src/Sched/Coordinator/Changes.antt =====
-- Which workers a check takes out, and that a caller of `List` misses no change.
use termite.Base.{
  ℕ, ◌<◌, ◌≡◌, ◌⊎◌, refl, sym, ap, subst, Bytes, Bool, false, ◌||◌, List, [], ◌∷◌, Option, none,
  some, ◌==◌, nat_eq, bytes_eq, bytes_iff, ltb, if◌then◌else◌, Dict, lookup, erase, is_empty, arith,
  Bool-cases, Option-cases, inl, inr, In,
}
use termite.Attr.FileSet.{str_lt}
use termite.Sched.Coordinator.{
  Registration, WorkerRegistration, Coordinator, register, insert_key, sorted_keys, registrations,
  list, check_reachable, get_worker,
}

unfoldable pub is_among : Bytes → List Bytes → Bool
is_among a [] = false
is_among a (b ∷ l) = a == b || is_among a l

-- Last heard of before the given time.
unfoldable pub is_old : ℕ → Option WorkerRegistration → Bool
is_old now none = false
is_old now (some w) = ltb w.last_reported now

abbrev one_less : ℕ → Bytes → Dict Bytes WorkerRegistration → Dict Bytes WorkerRegistration
one_less now a workers = elim (lookup a workers) [
  | none ↦ workers
  | some w ↦ if ltb w.last_reported now then erase a workers else workers
]

-- What changes the register, at times after the last change.
pub data Step (c : Coordinator) : Coordinator → Type 0 where
  registers :
      (dial : Bytes → Bool) (now : ℕ) (req : Registration) {d : Coordinator}
      → c.last_change < now
      → register dial now req c ≡ some d
      → Step c d
  checks :
      (now later : ℕ) (to_delete : List Bytes)
      → c.last_change < later
      → Step c (check_reachable now later to_delete c)

pub data Reach (s : Coordinator) : Coordinator → Type 0 where
  here : Reach s s
  next : {c d : Coordinator} → Reach s c → Step c d → Reach s d

abbrev Changed : Coordinator → Coordinator → Type 0
Changed c d = (d ≡ c) ⊎ (c.last_change < d.last_change)

Step-Changed : {c d : Coordinator} → Step c d → Changed c d
unfolding register check_reachable is_empty
Step-Changed {c} {d} (registers dial now req h e) = inr (ground arith)
Step-Changed {c} {d} (checks now later [] h) = inl refl
Step-Changed {c} {d} (checks now later (a ∷ ds) h) = inr h

Reach-Changed : {c d : Coordinator} → Reach c d → Changed c d
Reach-Changed here = inl refl
Reach-Changed {c} (next {c = d} {d = f} r s) = elim (Step-Changed s) [
  | inl e ↦ subst (Changed c) (sym e) (Reach-Changed r)
  | inr h ↦ elim (Reach-Changed r) [
    | inl e ↦ inr (subst (λ x. x.last_change < f.last_change) e h)
    | inr k ↦ inr (omega arith)
  ]
]

missing : {o : Option WorkerRegistration} {w : WorkerRegistration} → o ≡ some w → o ≡ none → ⊥
missing e n = cc

same : {o : Option WorkerRegistration} {w v : WorkerRegistration} → o ≡ some w → o ≡ some v → w ≡ v
same e n = cc

In-insert_key : (a k : Bytes) (keys : List Bytes) → (a ≡ k) ⊎ In a keys → In a (insert_key k keys)
unfolding insert_key
In-insert_key a k [] h = h
In-insert_key a k (j ∷ keys) h = elim (Bool-cases (str_lt j k)) [
  | inr e ↦ rw e h
  | inl e ↦ rw e (elim h [
    | inl q ↦ inr (In-insert_key a k keys (inl q))
    | inr (inl q) ↦ inl q
    | inr (inr i) ↦ inr (In-insert_key a k keys (inr i))
  ])
]

In-sorted_keys :
    (a : Bytes) (w : WorkerRegistration) (workers : Dict Bytes WorkerRegistration)
    → lookup a workers ≡ some w
    → In a (sorted_keys workers)
unfolding sorted_keys lookup
In-sorted_keys a w [] e = absurd (missing e refl)
In-sorted_keys a w ((k, v) ∷ workers) e = elim (Bool-cases (a == k)) [
  | inl q ↦ In-insert_key a k (sorted_keys workers) (inl ((bytes_iff a k).0 q))
  | inr q ↦
      In-insert_key a k (sorted_keys workers) (inr (In-sorted_keys a w workers (ground arith)))
]

In-registrations :
    (a : Bytes) (w : WorkerRegistration) (workers : Dict Bytes WorkerRegistration)
    (keys : List Bytes)
    → lookup a workers ≡ some w
    → In a keys
    → In w.registration (registrations workers keys)
unfolding registrations
In-registrations a w workers [] e i = i
In-registrations a w workers (k ∷ keys) e i = elim (Option-cases (lookup k workers)) [
  | inl n ↦
      rw (n, registrations)
        (elim i [
          | inl q ↦ absurd (missing (subst (λ x. lookup x workers ≡ some w) q e) n)
          | inr j ↦ In-registrations a w workers keys e j
        ])
  | inr (v, n) ↦
      rw (n, registrations)
        (elim i [
          | inl q ↦ inl (
              ap WorkerRegistration.registration
                (same (subst (λ x. lookup x workers ≡ some w) q e) n))
          | inr j ↦ inr (In-registrations a w workers keys e j)
        ])
]

-- The register is read, then changed by any registrations and checks at later times, and asked for
-- with the time of the first reading. Either nothing has changed, or `List` answers at once, with
-- a time that is later, and a worker that is registered by then is in its answer.
pub list-Reach :
    {c d : Coordinator} (a : Bytes) (w : WorkerRegistration)
    → Reach c d
    → get_worker a d ≡ some w
    → (d ≡ c)
      ⊎ ((rs : List Registration) × (list c.last_change d ≡ some (rs, d.last_change))
          × (c.last_change < d.last_change)
          × In w.registration rs)
unfolding list get_worker
list-Reach {c} {d} a w r e = elim (Reach-Changed r) [
  | inl q ↦ inl q
  | inr h ↦ inr (
    registrations d.workers (sorted_keys d.workers),
    ground arith,
    h,
    In-registrations a w d.workers (sorted_keys d.workers) e (In-sorted_keys a w d.workers e),
  )
]
