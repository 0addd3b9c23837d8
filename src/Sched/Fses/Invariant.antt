-- ===== src/Sched/Fses/Invariant.antt =====
-- What holds of the file systems of a `Mirror` whenever its lock is free, and that every operation keeps it.
use termite.Base.{
  ℕ, suc, ◌≤◌, ◌<◌, ◌≡◌, ◌≢◌, refl, sym, subst, Bool, true, false, List, [], ◌∷◌, Option, none,
  some, ◌==◌, nat_eq, length, length-append, arith, Option-cases, Bool-cases, inl, inr,
}
use termite.Sched.Fses.{
  Fs, Mirror, count, running_count, without, add_task, is_open, place, prepare_fs, end_task, change,
  delete, renew, busy_only,
}

-- One file system: its tasks are among the ones that it was given, which are no more than
-- `ReapCount`; while it is reaped it runs none; and with the mirror no longer accepting, one
-- without tasks is being reaped.
pub record IsFit (reap_count : ℕ) (accepting : Bool) (f : Fs) : Type 0 where
  pub few : length f.task_ids ≤ reap_count
  pub known : length f.tasks ≤ length f.task_ids
  pub quiet : f.reaping ≡ true → length f.tasks ≡ 0
  pub leaving : accepting ≡ false → length f.tasks ≡ 0 → f.reaping ≡ true

-- Each file system of the list is fit, and has an `id` below those before it.
abbrev pub Fit : ℕ → Bool → ℕ → List Fs → Type 0
Fit reap accepting bound [] = Unit {0}
Fit reap accepting bound (f ∷ fs) =
    IsFit reap accepting f × (f.id < bound) × Fit reap accepting f.id fs

pub record IsSound (m : Mirror) : Type 0 where
  pub reaps : 0 < m.reap_count
  pub bounded : running_count m ≤ m.max_job_count
  pub fit : Fit m.reap_count m.accepting m.next_fs_id m.active_fses

length-without : (t : ℕ) (us : List ℕ) → length (without t us) ≤ length us
unfolding without
length-without t [] = omega arith
length-without t (u ∷ us) = ground (arith, length-without t us)

Fit-mono : (r : ℕ) (a : Bool) (n k : ℕ) (fs : List Fs) → n ≤ k → Fit r a n fs → Fit r a k fs
Fit-mono r a n k [] h w = tt
Fit-mono r a n k (f ∷ fs) h (w, below, ws) = (w, omega arith, ws)

add_task-IsFit :
    (r t : ℕ) (f : Fs) → is_open r f ≡ true → IsFit r true f → IsFit r true (add_task t f)
unfolding add_task is_open
add_task-IsFit r t f e w = record {
  few = ground (arith, length-append f.task_ids (t ∷ []));
  known = ground (arith, length-append f.task_ids (t ∷ []), w.known);
  quiet = λ q. ground (arith);
  leaving = λ q. ground (arith);
}

-- What `place` answers: the same file systems, with one task more.
abbrev pub Placed : ℕ → ℕ → List Fs → Option (ℕ × List Fs) → Type 0
Placed r n fs none = Unit {0}
Placed r n fs (some (i, fs')) = Fit r true n fs' × (count fs' ≡ suc (count fs))

pub place-Placed : (r t n : ℕ) (fs : List Fs) → Fit r true n fs → Placed r n fs (place r t fs)
unfolding place count add_task
place-Placed r t n [] w = tt
place-Placed r t n (f ∷ fs) (w, below, ws) = elim (Bool-cases (is_open r f)) [
  | inl e ↦ rw e ((add_task-IsFit r t f e w, below, ws), omega arith)
  | inr e ↦
      let rest = place-Placed r t f.id fs ws in
      elim (Option-cases (place r t fs)) [
        | inl n ↦ rw (e, n) tt
        | inr ((j, fs'), n) ↦
            let got = subst (Placed r f.id fs) n rest in
            rw (e, n) ((w, below, got.0), omega (arith, got.1))
      ]
]

pub end_task-IsFit : (r t : ℕ) (a : Bool) (f : Fs) → IsFit r a f → IsFit r a (end_task t f)
unfolding end_task
end_task-IsFit r t a f w = record {
  few = w.few;
  known = omega (arith, length-without t f.tasks, w.known);
  quiet = ground (arith, length-without t f.tasks, w.quiet);
  leaving = ground (arith);
}

pub renew-IsFit : (r : ℕ) (a : Bool) (f : Fs) → a ≡ true → IsFit r a f → IsFit r a (renew f)
unfolding renew prepare_fs
renew-IsFit r a f e w = elim (Bool-cases f.reaping) [
  | inl q ↦ rw q (record {
    few = omega arith;
    known = omega (arith, w.quiet q);
    quiet = λ z. w.quiet q;
    leaving = ground arith;
  })
  | inr q ↦ simp q w
]

module _ (r : ℕ) (a : Bool) (step : Fs → Fs) (same : (f : Fs) → (step f).id ≡ f.id)
    (keeps : (f : Fs) → IsFit r a f → IsFit r a (step f)) where
  pub change-Fit : (n i : ℕ) (fs : List Fs) → Fit r a n fs → Fit r a n (change step i fs)
  unfolding change
  change-Fit n i [] w = tt
  change-Fit n i (f ∷ fs) (w, below, ws) = elim (Bool-cases (f.id == i)) [
    | inl e ↦ rw e (
      keeps f w,
      omega (arith, same f),
      subst (λ k. Fit r a k (change step i fs)) (sym (same f)) (change-Fit f.id i fs ws),
    )
    | inr e ↦ rw e (w, below, change-Fit f.id i fs ws)
  ]

pub delete-Fit : (r n i : ℕ) (a : Bool) (fs : List Fs) → Fit r a n fs → Fit r a n (delete i fs)
unfolding delete
delete-Fit r n i a [] w = tt
delete-Fit r n i a (f ∷ fs) (w, below, ws) = elim (Bool-cases (f.id == i)) [
  | inl e ↦ rw e (Fit-mono r a f.id n (delete i fs) (omega arith) (delete-Fit r f.id i a fs ws))
  | inr e ↦ rw e (w, below, delete-Fit r f.id i a fs ws)
]

busy-IsFit : (r : ℕ) (a : Bool) (f : Fs) → length f.tasks ≢ 0 → IsFit r a f → IsFit r false f
busy-IsFit r a f e w = record {
  few = w.few;
  known = w.known;
  quiet = w.quiet;
  leaving = λ q z. absurd (e z);
}

pub busy_only-Fit :
    (r n : ℕ) (a : Bool) (fs : List Fs) → Fit r a n fs → Fit r false n (busy_only fs)
unfolding busy_only
busy_only-Fit r n a [] w = tt
busy_only-Fit r n a (f ∷ fs) (w, below, ws) = elim (Bool-cases (length f.tasks == 0)) [
  | inl e ↦
      rw e (Fit-mono r false f.id n (busy_only fs) (omega arith) (busy_only-Fit r f.id a fs ws))
  | inr e ↦ rw e (busy-IsFit r a f (ground arith) w, below, busy_only-Fit r f.id a fs ws)
]

pub count-change :
    (step : Fs → Fs) (fewer : (f : Fs) → length (step f).tasks ≤ length f.tasks) (i : ℕ)
    (fs : List Fs)
    → count (change step i fs) ≤ count fs
unfolding count change
count-change step fewer i [] = omega arith
count-change step fewer i (f ∷ fs) = elim (Bool-cases (f.id == i)) [
  | inl e ↦ rw e (omega (arith, fewer f, count-change step fewer i fs))
  | inr e ↦ rw e (omega (arith, count-change step fewer i fs))
]

pub count-delete : (i : ℕ) (fs : List Fs) → count (delete i fs) ≤ count fs
unfolding count delete
count-delete i [] = omega arith
count-delete i (f ∷ fs) = ground (arith, count-delete i fs)

pub count-busy_only : (fs : List Fs) → count (busy_only fs) ≤ count fs
unfolding count busy_only
count-busy_only [] = omega arith
count-busy_only (f ∷ fs) = ground (arith, count-busy_only fs)

pub end_task-fewer : (t : ℕ) (f : Fs) → length (end_task t f).tasks ≤ length f.tasks
unfolding end_task
end_task-fewer t f = length-without t f.tasks

pub renew-fewer : (f : Fs) → length (renew f).tasks ≤ length f.tasks
unfolding renew prepare_fs
renew-fewer f = elim (Bool-cases f.reaping) [ inl e ↦ ground arith | inr e ↦ ground arith ]

pub end_task-id : (t : ℕ) (f : Fs) → (end_task t f).id ≡ f.id
unfolding end_task
end_task-id t f = refl

pub renew-id : (f : Fs) → (renew f).id ≡ f.id
unfolding renew prepare_fs
renew-id f = ground arith

pub delete-change :
    (step : Fs → Fs) (same : (f : Fs) → (step f).id ≡ f.id) (i : ℕ) (fs : List Fs)
    → delete i (change step i fs) ≡ delete i fs
unfolding delete change
delete-change step same i [] = refl
delete-change step same i (f ∷ fs) = elim (Bool-cases (f.id == i)) [
  | inl e ↦ simp (e, same f, delete-change step same i fs) refl
  | inr e ↦ simp (e, delete-change step same i fs) refl
]
