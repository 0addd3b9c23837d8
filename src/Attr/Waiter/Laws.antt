-- ===== src/Attr/Waiter/Laws.antt =====
-- Each task of a reaped file system is told what became of its files.
use termite.Base.{
  ℕ, ◌<◌, ◌≡◌, ◌≢◌, refl, ap, ◌∙◌, inl, inr, ◌⊎◌, Bool, true, false, List, [], ◌∷◌, Option, none,
  some, ◌==◌, nat_eq, length, get_elem?, set, if◌then◌else◌, lookup, erase, lookup-erase,
  lookup-erase_self, arith, get_elem?-set_self, get_elem?-set_ne, length-set, Option-cases,
  Bool-cases, In, ℕ_discrete,
}
use termite.Attr.Waiter.{
  Chan, signalled, closed, Waiter, find_channel, signal, flush, drop, release, wait_files, Waited,
  returned, unsent, receive, wait_channel,
}

-- Different ids have different channels, and those are in the heap.
pub record IsValid (w : Waiter) : Type 0 where
  pub ranged : (id p : ℕ) → lookup id w.channels ≡ some p → p < length w.heap
  pub apart :
      (id id' p : ℕ) → lookup id w.channels ≡ some p → lookup id' w.channels ≡ some p → id ≡ id'

-- What a task's `Wait` returns afterwards.
abbrev pub result_of : Bool → Waited
result_of failed = if failed then unsent else returned

chan_of : Bool → Chan
chan_of failed = if failed then closed else signalled

-- The body of the loop for an id other than the own: it settles the channel of the id, if it has one.
abbrev Settled : Bool → ℕ → Waiter → Waiter → Type 0
Settled failed id w w1 =
    ((lookup id w.channels ≡ none) × (w1 ≡ w))
    ⊎ ((p : ℕ) × (lookup id w.channels ≡ some p)
        × (w1 ≡ record { channels = erase id w.channels; heap = set w.heap p (chan_of failed) }))

settle-Settled :
    (failed : Bool) (id : ℕ) (w w1 : Waiter)
    → (if failed then flush id w else some (signal id w)) ≡ some w1
    → Settled failed id w w1
unfolding flush signal chan_of
settle-Settled true id w w1 e = elim (Option-cases (lookup id w.channels)) [
  | inl n ↦ absurd (ground arith)
  | inr (p, n) ↦ inr (p, n, ground arith)
]
settle-Settled false id w w1 e = elim (Option-cases (lookup id w.channels)) [
  | inl n ↦ inl (n, ground arith)
  | inr (p, n) ↦ inr (p, n, ground arith)
]

Unowned : ℕ → Waiter → Type 0
Unowned q w = (id : ℕ) → lookup id w.channels ≢ some q

module _ (failed : Bool) (id : ℕ) (w w1 : Waiter) (s : Settled failed id w w1) where
  Settled-IsValid : IsValid w → IsValid w1
  Settled-IsValid v = elim s [
    | inl (n, same) ↦ rw same v
    | inr (p, n, same) ↦ rw same (record {
      ranged = λ j q e.
          ground (
            arith,
            lookup-erase j id w.channels,
            v.ranged j q,
            length-set w.heap p (chan_of failed),
          );
      apart = λ j k q e e'.
          ground (arith, lookup-erase j id w.channels, lookup-erase k id w.channels, v.apart j k q);
    })
  ]

  Settled-Unowned :
      (q : ℕ) → Unowned q w → Unowned q w1 × (get_elem? w1.heap q ≡ get_elem? w.heap q)
  unfolding Unowned
  Settled-Unowned q u = elim s [
    | inl (n, same) ↦ rw same (u, refl)
    | inr (p, n, same) ↦ rw same (
      (λ j e. u j (ground (arith, lookup-erase j id w.channels))),
      get_elem?-set_ne w.heap p q (chan_of failed) (λ x. u id (rw (← x) n)),
    )
  ]

  Settled-other :
      (j p : ℕ)
      → IsValid w
      → j ≢ id
      → lookup j w.channels ≡ some p
      → (lookup j w1.channels ≡ some p) × (get_elem? w1.heap p ≡ get_elem? w.heap p)
  Settled-other j p v n e = elim s [
    | inl (none_there, same) ↦ rw same (e, refl)
    | inr (q, there, same) ↦ rw same (
      ground (arith, lookup-erase j id w.channels),
      get_elem?-set_ne w.heap q p (chan_of failed) (λ x. n (v.apart j id q (rw x e) there)),
    )
  ]

  Settled-self :
      (p : ℕ)
      → IsValid w
      → lookup id w.channels ≡ some p
      → Unowned p w1 × (get_elem? w1.heap p ≡ some (chan_of failed))
  unfolding Unowned
  Settled-self p v e = elim s [
    | inl (none_there, same) ↦ absurd (ground arith)
    | inr (q, there, same) ↦
        let q-p : q ≡ p = ground arith in
        rw (same, q-p)
          (
            (λ j f. ground (arith, lookup-erase j id w.channels, v.apart j id p)),
            get_elem?-set_self w.heap p (chan_of failed) (v.ranged id p e),
          )
  ]

  -- The id has no channel any more, and who had none has none.
  Settled-none : (j : ℕ) → (j ≡ id) ⊎ (lookup j w.channels ≡ none) → lookup j w1.channels ≡ none
  Settled-none j h = elim s [
    | inl (gone, same) ↦ elim h [
      | inl e ↦ ap (λ x. lookup j x.channels) same ∙ ap (λ x. lookup x w.channels) e ∙ gone
      | inr e ↦ ap (λ x. lookup j x.channels) same ∙ e
    ]
    | inr (p, there, same) ↦ rw same (elim h [
      | inl e ↦ rw e (lookup-erase_self id w.channels)
      | inr e ↦ ground (arith, lookup-erase j id w.channels)
    ])
  ]

receive-chan_of : (failed : Bool) → receive (some (chan_of failed)) ≡ result_of failed
unfolding receive chan_of
receive-chan_of true = refl
receive-chan_of false = refl

bind-some :
    (o : Option Waiter) (f : Waiter → Option Waiter) (w' : Waiter)
    → elim o as (λ x. Option Waiter) [ none ↦ none | some x ↦ f x ] ≡ some w'
    → (w1 : Waiter) × (o ≡ some w1) × (f w1 ≡ some w')
bind-some none f w' e = cc
bind-some (some w1) f w' e = (w1, refl, e)

-- The first round of the loop, taken apart.
release-cons :
    (failed : Bool) (id : ℕ) (ids : List ℕ) (wait_id : ℕ) (w w' : Waiter)
    → release failed (id ∷ ids) wait_id w ≡ some w'
    → ((id ≡ wait_id) × (release failed ids wait_id w ≡ some w'))
      ⊎ ((w1 : Waiter) × Settled failed id w w1 × (release failed ids wait_id w1 ≡ some w'))
unfolding release
release-cons failed id ids wait_id w w' e =
    let (w1, round, rest) =
      bind-some
        (if id == wait_id then some w else if failed then flush id w else some (signal id w))
        (release failed ids wait_id) w' e in
    elim (Bool-cases (id == wait_id)) [
      | inl own ↦ inl (ground arith, ground arith)
      | inr other ↦ inr (w1, settle-Settled failed id w w1 (ground arith), rest)
    ]

-- The loop, for the ids other than that of the task itself.
release-Unowned :
    (failed : Bool) (ids : List ℕ) (wait_id : ℕ) (w w' : Waiter) (q : ℕ)
    → release failed ids wait_id w ≡ some w'
    → Unowned q w
    → get_elem? w'.heap q ≡ get_elem? w.heap q
unfolding release
release-Unowned failed [] wait_id w w' q e u = ground arith
release-Unowned failed (id ∷ ids) wait_id w w' q e u =
    elim (release-cons failed id ids wait_id w w' e) [
      | inl (own, rest) ↦ release-Unowned failed ids wait_id w w' q rest u
      | inr (w1, s, rest) ↦
          let (u1, same) = Settled-Unowned failed id w w1 s q u in
          release-Unowned failed ids wait_id w1 w' q rest u1 ∙ same
    ]

release-In :
    (failed : Bool) (ids : List ℕ) (wait_id : ℕ) (w w' : Waiter) (id p : ℕ)
    → IsValid w
    → release failed ids wait_id w ≡ some w'
    → lookup id w.channels ≡ some p
    → id ≢ wait_id
    → In id ids
    → get_elem? w'.heap p ≡ some (chan_of failed)
unfolding release
release-In failed [] wait_id w w' id p v e c n i = absurd i
release-In failed (j ∷ ids) wait_id w w' id p v e c n i =
    elim (release-cons failed j ids wait_id w w' e) [
      | inl (own, rest) ↦ release-In failed ids wait_id w w' id p v rest c n (ground arith)
      | inr (w1, s, rest) ↦ elim (ℕ_discrete id j) [
        | yes first ↦
            let (u1, told) = Settled-self failed j w w1 s p v (rw (← first) c) in
            release-Unowned failed ids wait_id w1 w' p rest u1 ∙ told
        | no later ↦
            let (c1, same) = Settled-other failed j w w1 s id p v later c in
            release-In failed ids wait_id w1 w' id p (Settled-IsValid failed j w w1 s v) rest c1 n
              (ground arith)
      ]
    ]

release-none :
    (failed : Bool) (ids : List ℕ) (wait_id : ℕ) (w w' : Waiter) (id : ℕ)
    → release failed ids wait_id w ≡ some w'
    → id ≢ wait_id
    → In id ids ⊎ (lookup id w.channels ≡ none)
    → lookup id w'.channels ≡ none
unfolding release
release-none failed [] wait_id w w' id e n (inl i) = absurd i
release-none failed [] wait_id w w' id e n (inr h) = ground arith
release-none failed (j ∷ ids) wait_id w w' id e n h =
    elim (release-cons failed j ids wait_id w w' e) [
      | inl (own, rest) ↦
          release-none failed ids wait_id w w' id rest n
            (elim h [ inl (inl x) ↦ absurd (n (x ∙ own)) | inl (inr i) ↦ inl i | inr g ↦ inr g ])
      | inr (w1, s, rest) ↦ release-none failed ids wait_id w1 w' id rest n (elim h [
        | inl (inl x) ↦ inr (Settled-none failed j w w1 s id (inl x))
        | inl (inr i) ↦ inl i
        | inr g ↦ inr (Settled-none failed j w w1 s id (inr g))
      ])
    ]

release-other :
    (failed : Bool) (ids : List ℕ) (wait_id : ℕ) (w w' : Waiter) (id p : ℕ)
    → IsValid w
    → release failed ids wait_id w ≡ some w'
    → lookup id w.channels ≡ some p
    → ¬ In id ids
    → (lookup id w'.channels ≡ some p) × (get_elem? w'.heap p ≡ get_elem? w.heap p)
unfolding release
release-other failed [] wait_id w w' id p v e c n = (ground arith, ground arith)
release-other failed (j ∷ ids) wait_id w w' id p v e c n =
    elim (release-cons failed j ids wait_id w w' e) [
      | inl (own, rest) ↦ release-other failed ids wait_id w w' id p v rest c (λ i. n (inr i))
      | inr (w1, s, rest) ↦
          let (c1, same) = Settled-other failed j w w1 s id p v (λ x. n (inl x)) c in
          let (c2, same') =
            release-other failed ids wait_id w1 w' id p (Settled-IsValid failed j w w1 s v) rest c1
              (λ i. n (inr i)) in
          (c2, same' ∙ same)
    ]

-- `Wait` with a file set that does not panic, where different ids have different channels, for another
-- task in the list that has a channel: a `Wait` of that task that already holds the channel returns, with nil
-- if the files were processed and with an error if not; the task has no channel any more, so that a `Wait` of
-- it that begins later returns nil at once, even if the processing failed. And the own channel is dropped.
pub wait_files-release :
    (failed : Bool) (ids : List ℕ) (wait_id : ℕ) (w w' : Waiter) (id p : ℕ)
    → IsValid w
    → wait_files failed ids wait_id w ≡ some w'
    → find_channel id w ≡ some p
    → id ≢ wait_id
    → In id ids
    → (wait_channel (some p) w' ≡ result_of failed)
      × (find_channel id w' ≡ none)
      × (wait_channel (find_channel id w') w' ≡ returned)
      × (find_channel wait_id w' ≡ none)
unfolding wait_files find_channel drop wait_channel
wait_files-release failed ids wait_id w w' id p v e c n i =
    let (w1, loop, rest) =
      bind-some (release failed ids wait_id w) (λ x. some (drop wait_id x)) w' e in
    let gone : lookup id w'.channels ≡ none = ground (
      arith,
      lookup-erase id wait_id w1.channels,
      release-none failed ids wait_id w w1 id loop n (inl i),
    ) in
    (
      ground (arith, release-In failed ids wait_id w w1 id p v loop c n i, receive-chan_of failed),
      gone,
      rw gone refl,
      ground (arith, lookup-erase_self wait_id w1.channels),
    )

-- `Wait` with a file set that does not panic, where different ids have different channels: a task
-- with a channel that is neither in the list nor the own keeps it as it was.
pub wait_files-other :
    (failed : Bool) (ids : List ℕ) (wait_id : ℕ) (w w' : Waiter) (id p : ℕ)
    → IsValid w
    → wait_files failed ids wait_id w ≡ some w'
    → find_channel id w ≡ some p
    → id ≢ wait_id
    → ¬ In id ids
    → (find_channel id w' ≡ some p) × (wait_channel (some p) w' ≡ wait_channel (some p) w)
unfolding wait_files find_channel drop wait_channel
wait_files-other failed ids wait_id w w' id p v e c n i =
    let (w1, loop, rest) =
      bind-some (release failed ids wait_id w) (λ x. some (drop wait_id x)) w' e in
    let (c1, same) = release-other failed ids wait_id w w1 id p v loop c i in
    (ground (arith, lookup-erase id wait_id w1.channels), ground arith)
