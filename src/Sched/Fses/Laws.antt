-- ===== src/Sched/Fses/Laws.antt =====
-- What a worker keeps to in running the tasks of one master, in every order of the operations.
use termite.Base.{
  ℕ, suc, ◌≤◌, ◌<◌, ◌≡◌, refl, sym, subst, Bool, true, false, ◌∷◌, ltb, arith, Option-cases,
  Bool-cases, inl, inr,
}
use termite.Sched.Fses.{
  Mirror, Started, new_mirror, count, running_count, add_task, place, prepare_fs,
  new_worker_fuse_fs, new_fs, waits, failed, shutting_down, started, end_task, consider_reap, renew,
  return_fs, shutdown,
}
use termite.Sched.Fses.Invariant.{
  IsSound, IsFit, Fit, Placed, place-Placed, change-Fit, delete-Fit, busy_only-Fit, end_task-IsFit,
  renew-IsFit, count-change, count-delete, count-busy_only, end_task-fewer, renew-fewer,
  end_task-id, renew-id, delete-change,
}

pub data Step (m : Mirror) : Mirror → Type 0 where
  starts : (fs_ok : Bool) (t i : ℕ) {m' : Mirror} → new_fs fs_ok t m ≡ started i m' → Step m m'
  ends : (i t : ℕ) → Step m (consider_reap i t m)
  returns : (i : ℕ) → Step m (return_fs i m)
  shuts : Step m (shutdown m)

pub data Reach (s : Mirror) : Mirror → Type 0 where
  here : Reach s s
  next : {m m' : Mirror} → Reach s m → Step m m' → Reach s m'

-- What `newFs` may answer: a sound mirror with one task more, never above `maxJobCount`.
abbrev Answers : Mirror → Started → Type 0
Answers m waits = m.max_job_count ≤ running_count m
Answers m shutting_down = m.accepting ≡ false
Answers m failed = running_count m < m.max_job_count
Answers m (started i m') = IsSound m' × (running_count m' ≡ suc (running_count m))

first-IsFit :
    (m : Mirror) (t : ℕ)
    → 0 < m.reap_count
    → IsFit m.reap_count true (add_task t (prepare_fs (new_worker_fuse_fs m)))
unfolding add_task prepare_fs new_worker_fuse_fs
first-IsFit m t h = record {
  few = omega arith;
  known = omega arith;
  quiet = λ q. absurd (cc);
  leaving = λ q. absurd (cc);
}

started-Answers :
    (fs_ok : Bool) (t : ℕ) (m : Mirror)
    → IsSound m
    → running_count m < m.max_job_count
    → m.accepting ≡ true
    → Answers m (new_fs fs_ok t m)
unfolding new_fs running_count count add_task prepare_fs new_worker_fuse_fs
started-Answers fs_ok t m o h q =
    let open_ : Fit m.reap_count true m.next_fs_id m.active_fses =
      subst (λ a. Fit m.reap_count a m.next_fs_id m.active_fses) q o.fit in
    let placed = place-Placed m.reap_count t m.next_fs_id m.active_fses open_ in
    let room : ltb (running_count m) m.max_job_count ≡ true = ground arith in
    elim (Option-cases (place m.reap_count t m.active_fses)) [
      | inr ((i, fs), e) ↦
          let got = subst (Placed m.reap_count m.next_fs_id m.active_fses) e placed in
          rw (room, q, e)
            (
              record {
                reaps = o.reaps;
                bounded = omega (arith, got.1);
                fit = subst (λ a. Fit m.reap_count a m.next_fs_id fs) (sym q) got.0;
              },
              got.1,
            )
      | inl e ↦ elim (Bool-cases fs_ok) [
        | inl ok ↦
            rw (room, q, e, ok)
              (
                record {
                  reaps = o.reaps;
                  bounded = omega arith;
                  fit =
                      subst
                        (λ a.
                          Fit m.reap_count a (suc m.next_fs_id)
                            (add_task t (prepare_fs (new_worker_fuse_fs m)) ∷ m.active_fses))
                        (sym q) (first-IsFit m t o.reaps, omega arith, open_);
                },
                omega arith,
              )
        | inr ok ↦ rw (room, q, e, ok) h
      ]
    ]

new_fs-Answers : (fs_ok : Bool) (t : ℕ) (m : Mirror) → IsSound m → Answers m (new_fs fs_ok t m)
unfolding new_fs running_count
new_fs-Answers fs_ok t m o = elim (Bool-cases (ltb (running_count m) m.max_job_count)) [
  | inr e ↦ rw e (ground arith)
  | inl e ↦ elim (Bool-cases m.accepting) [
    | inr q ↦ rw (e, q) refl
    | inl q ↦ started-Answers fs_ok t m o (ground arith) q
  ]
]

consider_reap-IsSound : (i t : ℕ) (m : Mirror) → IsSound m → IsSound (consider_reap i t m)
unfolding consider_reap running_count
consider_reap-IsSound i t m o = record {
  reaps = o.reaps;
  bounded = omega (arith, o.bounded, count-change (end_task t) (end_task-fewer t) i m.active_fses);
  fit =
      change-Fit m.reap_count m.accepting (end_task t) (end_task-id t)
        (end_task-IsFit m.reap_count t m.accepting) m.next_fs_id i m.active_fses o.fit;
}

shutdown-IsSound : (m : Mirror) → IsSound m → IsSound (shutdown m)
unfolding shutdown running_count
shutdown-IsSound m o = record {
  reaps = o.reaps;
  bounded = omega (arith, o.bounded, count-busy_only m.active_fses);
  fit = busy_only-Fit m.reap_count m.next_fs_id m.accepting m.active_fses o.fit;
}

return_fs-IsSound : (i : ℕ) (m : Mirror) → IsSound m → IsSound (return_fs i m)
unfolding return_fs running_count
return_fs-IsSound i m o =
    let fewer = count-change renew renew-fewer i m.active_fses in
    elim (Bool-cases m.accepting) [
      | inl e ↦ rw e (record {
        reaps = o.reaps;
        bounded = omega (arith, o.bounded, fewer);
        fit =
            change-Fit m.reap_count true renew renew-id (λ f. renew-IsFit m.reap_count true f refl)
              m.next_fs_id i m.active_fses
              (subst (λ a. Fit m.reap_count a m.next_fs_id m.active_fses) e o.fit);
      })
      | inr e ↦
          rw (e, delete-change renew renew-id i m.active_fses)
            (record {
              reaps = o.reaps;
              bounded = omega (arith, o.bounded, count-delete i m.active_fses);
              fit =
                  delete-Fit m.reap_count m.next_fs_id i false m.active_fses
                    (subst (λ a. Fit m.reap_count a m.next_fs_id m.active_fses) e o.fit);
            })
    ]

-- With a positive `ReapCount`, and from a new mirror on, whatever tasks start, end, are reaped and
-- are shut down, in any order: never more tasks run than the jobs that were granted; a file system
-- is given no more than `ReapCount` tasks between two reaps and runs none while it is reaped; and
-- once the mirror is shut down, each file system left has a task or is being reaped, so that its
-- removal is still to come.
pub Reach-IsSound :
    (jobs reap_count : ℕ) {m : Mirror}
    → 0 < reap_count
    → Reach (new_mirror jobs reap_count) m
    → IsSound m
unfolding new_mirror running_count count
Reach-IsSound jobs reap_count h here = record { reaps = h; bounded = omega arith; fit = tt }
Reach-IsSound jobs reap_count h (next {m} r (starts fs_ok t i e)) =
    (subst (Answers m) e (new_fs-Answers fs_ok t m (Reach-IsSound jobs reap_count h r))).0
Reach-IsSound jobs reap_count h (next {m} r (ends i t)) =
    consider_reap-IsSound i t m (Reach-IsSound jobs reap_count h r)
Reach-IsSound jobs reap_count h (next {m} r (returns i)) =
    return_fs-IsSound i m (Reach-IsSound jobs reap_count h r)
Reach-IsSound jobs reap_count h (next {m} r shuts) =
    shutdown-IsSound m (Reach-IsSound jobs reap_count h r)
