-- ===== src/Sched/Jobs/Ready.antt =====
-- While a good worker is known or connected, `pick` finds a worker, and `drop` of another one leaves fewer.
use termite.Base.{
  ℕ, zero, suc, ◌-◌, ◌≡◌, ◌≤◌, ◌<◌, ◌≢◌, ◌⊎◌, inl, inr, sym, ap, ◌∙◌, subst, Bytes, Bool, true,
  false, [], ◌∷◌, Option, none, some, ltb, if◌then◌else◌, ◌==◌, nat_eq, bytes_eq, bytes_iff, Dict,
  lookup, insert, erase, has, lookup-erase, has-insert, length, All, arith, Bool-cases,
  Option-cases, pos, ltb_ℤ,
}
use termite.Sched.Jobs.{
  Connection, Connections, available_jobs, max_jobs, better, choose, chosen, take_job, free_job,
  idle_worker, connect_one, connect_all, try_connect, pick, drop, job_done,
}
use termite.Sched.Jobs.Pick.{pick-none}
use termite.Sched.Jobs.Connect.{try_connect-idle_worker}

has-erase :
    {V : Type 0} (j k : Bytes) (m : Dict Bytes V)
    → has j (erase k m) ≡ (if j == k then false else has j m)
unfolding has
has-erase j k m = ground (arith, lookup-erase j k m)

length-erase-le : {V : Type 0} (k : Bytes) (m : Dict Bytes V) → length (erase k m) ≤ length m
unfolding erase
length-erase-le k [] = omega arith
length-erase-le k ((j, v) ∷ m) = ground (arith, length-erase-le k m)

pub length-erase :
    {V : Type 0} (k : Bytes) (m : Dict Bytes V) → has k m ≡ true → length (erase k m) < length m
unfolding erase has lookup
length-erase k [] h = absurd (ground arith)
length-erase k ((j, v) ∷ m) h = ground (arith, length-erase k m, length-erase-le k m)

pub has-length : {V : Type 0} (k : Bytes) (m : Dict Bytes V) → has k m ≡ true → 0 < length m
unfolding has lookup
has-length k [] h = absurd (ground arith)
has-length k ((j, v) ∷ m) h = omega arith

idle_worker-has :
    (ws : Dict Bytes Bool) (ms : Dict Bytes Connection) (addr : Bytes)
    → idle_worker ws ms ≡ some addr
    → has addr ws ≡ true
unfolding idle_worker has lookup
idle_worker-has [] ms addr e = absurd (ground arith)
idle_worker-has ((a, b) ∷ ws) ms addr e =
    ground (arith, idle_worker-has ws ms addr, bytes_iff addr a)

idle_worker-none-has :
    (ws : Dict Bytes Bool) (ms : Dict Bytes Connection) (addr : Bytes)
    → idle_worker ws ms ≡ none
    → has addr ws ≡ true
    → has addr ms ≡ true
unfolding idle_worker has lookup
idle_worker-none-has [] ms addr e h = absurd (ground arith)
idle_worker-none-has ((a, b) ∷ ws) ms addr e h =
    ground (arith, idle_worker-none-has ws ms addr, bytes_iff addr a)

-- What `better` gives is the new mirror or the old one.
better-given :
    (b : Bytes) (w : Connection) (best : Option (Bytes × Connection)) (addr : Bytes)
    (v : Connection)
    → better b w best ≡ some (addr, v)
    → ((b ≡ addr) × (w ≡ v)) ⊎ (best ≡ some (addr, v))
unfolding better
better-given b w none addr v e = inl (ground (arith, e))
better-given b w (some (a, x)) addr v e = ground (arith, e)

module _ (good : Bytes) where
  -- A mirror of the good worker has jobs to give.
  abbrev pub Gives : Bytes × Connection → Type 0
  Gives (addr, v) = addr ≡ good → 0 < v.max_jobs

  All-insert :
      (addr : Bytes) (v : Connection) (m : Dict Bytes Connection)
      → Gives (addr, v)
      → All Gives m
      → All Gives (insert addr v m)
  unfolding insert
  All-insert addr v [] g a = (g, tt)
  All-insert addr v ((b, w) ∷ m) g a = ground (arith, All-insert addr v m g a.1)

  All-erase : (addr : Bytes) (m : Dict Bytes Connection) → All Gives m → All Gives (erase addr m)
  unfolding erase
  All-erase addr [] a = tt
  All-erase addr ((b, w) ∷ m) a = ground (arith, All-erase addr m a.1)

  All-lookup :
      (addr : Bytes) (v : Connection) (m : Dict Bytes Connection)
      → All Gives m
      → lookup addr m ≡ some v
      → Gives (addr, v)
  unfolding lookup
  All-lookup addr v [] a e = absurd (ground arith)
  All-lookup addr v ((b, w) ∷ m) a e = ground (arith, All-lookup addr v m a.1, bytes_iff addr b)

  max_jobs-has : (m : Dict Bytes Connection) → All Gives m → has good m ≡ true → 0 < max_jobs m
  unfolding max_jobs has lookup
  max_jobs-has [] a h = absurd (ground arith)
  max_jobs-has ((b, w) ∷ m) a h = ground (arith, max_jobs-has m a.1, bytes_iff good b, a.0)

  -- What is chosen is in the map, or was given.
  choose-has :
      (m : Dict Bytes Connection) (best : Option (Bytes × Connection)) (addr : Bytes)
      (v : Connection)
      → All Gives m
      → choose m best ≡ some (addr, v)
      → ((has addr m ≡ true) × Gives (addr, v)) ⊎ (best ≡ some (addr, v))
  unfolding choose has lookup
  choose-has [] best addr v a e = inr e
  choose-has ((b, w) ∷ m) best addr v a e = elim (Bool-cases (ltb_ℤ (pos 0) w.available_jobs)) [
    | inl free ↦ inl (ground (arith, bytes_iff addr b, a.0))
    | inr full ↦ elim (choose-has m (better b w best) addr v a.1 (ground arith)) [
      | inl later ↦ inl (ground (arith, bytes_iff addr b, later))
      | inr given ↦ elim (better-given b w best addr v given) [
        | inl new ↦ inl (ground (arith, bytes_iff addr b, a.0, new))
        | inr old ↦ inr old
      ]
    ]
  ]

  -- The names that cover what is known and what is connected; the good worker is known.
  pub record IsReady (names : Dict Bytes Bool) (c : Connections) : Type 0 where
    pub is_known : has good c.workers ≡ true
    pub gives : All Gives c.mirrors
    pub wants : 0 < c.wanted_max_jobs
    pub workers_named : (a : Bytes) → has a c.workers ≡ true → has a names ≡ true
    pub mirrors_named : (a : Bytes) → has a c.mirrors ≡ true → has a names ≡ true

  -- The good worker always grants a job.
  abbrev pub Grants : (Bytes → ℕ → Option ℕ) → Type 0
  Grants create = (w : ℕ) → 0 < w → (g : ℕ) × (create good w ≡ some (suc g))

  module _ (names : Dict Bytes Bool) where
    connect_one-IsReady :
        (o : Option ℕ) (addr : Bytes) (c : Connections)
        → (addr ≡ good → (g : ℕ) × (o ≡ some (suc g)))
        → has addr c.workers ≡ true
        → IsReady names c
        → IsReady names (connect_one o addr c)
    unfolding connect_one
    connect_one-IsReady none addr c g h r = record {
      is_known = ground (arith, has-erase good addr c.workers, r.is_known, g, bytes_iff good addr);
      gives = r.gives;
      wants = r.wants;
      workers_named = λ a q. ground (arith, q, r.workers_named a, has-erase a addr c.workers);
      mirrors_named = r.mirrors_named;
    }
    connect_one-IsReady (some j) addr c g h r = record {
      is_known = r.is_known;
      gives = All-insert addr _ c.mirrors (λ e. ground (arith, g e)) r.gives;
      wants = r.wants;
      workers_named = r.workers_named;
      mirrors_named = λ a q. ground (
        arith,
        q,
        r.mirrors_named a,
        r.workers_named addr h,
        has-insert a addr (record { max_jobs = j; available_jobs = pos j }) c.mirrors,
        bytes_iff a addr,
      );
    }

    update-IsReady :
        (addr : Bytes) (v : Connection) (c : Connections)
        → has addr c.mirrors ≡ true
        → Gives (addr, v)
        → IsReady names c
        → IsReady names (record c { mirrors = insert addr v c.mirrors })
    update-IsReady addr v c h g r = record {
      is_known = r.is_known;
      gives = All-insert addr v c.mirrors g r.gives;
      wants = r.wants;
      workers_named = r.workers_named;
      mirrors_named = λ a q.
          ground (arith, q, h, r.mirrors_named a, has-insert a addr v c.mirrors, bytes_iff a addr);
    }

    module _ (create : Bytes → ℕ → Option ℕ) (grants : Grants create) where
      connect_all-IsReady :
          (w fuel : ℕ) (c : Connections)
          → 0 < w
          → IsReady names c
          → IsReady names (connect_all create w fuel c)
      unfolding connect_all
      connect_all-IsReady w zero c p r = r
      connect_all-IsReady w (suc fuel) c p r =
          elim (Option-cases (idle_worker c.workers c.mirrors)) [
            | inl n ↦ rw (n, connect_all) r
            | inr (addr, n) ↦
                rw (n, connect_all)
                  (connect_all-IsReady w fuel (connect_one (create addr w) addr c) p (
                    connect_one-IsReady (create addr w) addr c
                      (λ e. subst (λ a. (g : ℕ) × (create a w ≡ some (suc g))) (sym e) (grants w p))
                      (idle_worker-has c.workers c.mirrors addr n) r))
          ]

      pub try_connect-IsReady :
          (c : Connections) → IsReady names c → IsReady names (try_connect create c)
      unfolding try_connect
      try_connect-IsReady c r = elim (Bool-cases (c.wanted_max_jobs - max_jobs c.mirrors == 0)) [
        | inl z ↦ rw (z, try_connect) r
        | inr z ↦
            rw (z, try_connect)
              (connect_all-IsReady (c.wanted_max_jobs - max_jobs c.mirrors) (length c.workers) c
                (ground (arith, z)) r)
      ]

      try_connect-max_jobs :
          (c : Connections) → IsReady names c → 0 < max_jobs (try_connect create c).mirrors
      unfolding try_connect max_jobs
      try_connect-max_jobs c r = elim (Bool-cases (ltb (max_jobs c.mirrors) c.wanted_max_jobs)) [
        | inl l ↦
            let t = try_connect-IsReady c r in
            let idle = try_connect-idle_worker create c (ground (arith, l)) in
            max_jobs-has (try_connect create c).mirrors t.gives (
              idle_worker-none-has (try_connect create c).workers (try_connect create c).mirrors
                good idle t.is_known)
        | inr l ↦
            let z : (c.wanted_max_jobs - max_jobs c.mirrors == 0) ≡ true = ground (arith, l) in
            rw (z, try_connect) (ground (arith, l, r.wants))
      ]

      abbrev Picked : Option (Bytes × Connections) → Type 0
      Picked none = Unit {0}
      Picked (some (a, c)) = (has a names ≡ true) × IsReady names c

      choose-IsReady :
          (d : Connections) (addr : Bytes) (c' : Connections)
          → IsReady names d
          → chosen d (choose d.mirrors none) ≡ some (addr, c')
          → (has addr names ≡ true) × IsReady names c'
      unfolding chosen take_job
      choose-IsReady d addr c' r e = elim (Option-cases (choose d.mirrors none)) [
        | inl n ↦ absurd (ground (arith, n, e))
        | inr ((a, v), n) ↦ elim (choose-has d.mirrors none a v r.gives n) [
          | inl (h, g) ↦
              subst Picked (sym (ap (chosen d) n) ∙ e)
                (r.mirrors_named a h, update-IsReady a (take_job v) d h g r)
          | inr i ↦ absurd (ground (arith, i))
        ]
      ]

      -- `pick` finds a mirror whose name is covered.
      pub pick-IsReady :
          (c : Connections)
          → IsReady names c
          → (addr : Bytes) × (c' : Connections) × (pick create c ≡ some (addr, c'))
            × (has addr names ≡ true)
            × IsReady names c'
      unfolding pick
      pick-IsReady c r = elim (Option-cases (pick create c)) [
        | inl n ↦ absurd (omega (arith, try_connect-max_jobs c r, (pick-none create c n).1))
        | inr ((addr, c'), n) ↦ let (h, p) = picked addr c' n in (addr, c', n, h, p)
      ]
        where
          picked :
              (addr : Bytes) (c' : Connections)
              → pick create c ≡ some (addr, c')
              → (has addr names ≡ true) × IsReady names c'
          picked addr c' n = elim (Bool-cases (available_jobs c.mirrors == 0)) [
            | inl z ↦
                choose-IsReady (try_connect create c) addr c' (try_connect-IsReady c r)
                  (ground (arith, n, z))
            | inr z ↦ choose-IsReady c addr c' r (ground (arith, n, z))
          ]

  pub job_done-IsReady :
      (names : Dict Bytes Bool) (addr : Bytes) (c : Connections)
      → IsReady names c
      → IsReady names (job_done addr c)
  unfolding job_done free_job has
  job_done-IsReady names addr c r = elim (Option-cases (lookup addr c.mirrors)) [
    | inl n ↦ rw (n, job_done) r
    | inr (v, n) ↦
        rw (n, job_done)
          (update-IsReady names addr (free_job v) c (ground (arith, n))
            (All-lookup addr v c.mirrors r.gives n) r)
  ]

  -- Without a worker that is not the good one, fewer names cover what is left.
  pub drop-IsReady :
      (names : Dict Bytes Bool) (addr : Bytes) (c : Connections)
      → addr ≢ good
      → IsReady names c
      → IsReady (erase addr names) (drop addr c)
  unfolding drop
  drop-IsReady names addr c n r = record {
    is_known = ground (arith, has-erase good addr c.workers, r.is_known, n, bytes_iff good addr);
    gives = All-erase addr c.mirrors r.gives;
    wants = r.wants;
    workers_named = λ a q.
        ground (arith, q, r.workers_named a, has-erase a addr c.workers, has-erase a addr names);
    mirrors_named = λ a q.
        ground (arith, q, r.mirrors_named a, has-erase a addr c.mirrors, has-erase a addr names);
  }
