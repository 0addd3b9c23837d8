-- ===== src/Cba/Once/Safe.antt =====
-- Over every interleaving of the callers, one of them at most fetches a file.
use termite.Base.{
  ℕ, ◌≡◌, ◌≢◌, refl, inl, inr, Bytes, true, false, Option, if◌then◌else◌, ◌==◌, nat_eq, nat_iff,
  bytes_eq, bytes_iff, lookup, insert, lookup-insert, lookup-erase, arith, Bool-cases,
}
use termite.Cba.Fetch.{
  Hash, Store, Request, Response, Outcome, failed, absent, corrupt, fetched, running, has_hash,
  fetch,
}
use termite.Cba.Fetch.Integrity.{IsAddressed, fetch-IsAddressed, fetch-open_hash}
use termite.Cba.Fetch.Kept.{fetch-has_hash, open_hash-has_hash}
use termite.Cba.Once.{
  Caller, idle, wants, fetches, told, Client, is_fetching, set_caller, look, is_fetched,
  finish_fetch, Step, begins, ends, looks, finishes, Reach, here, next, new_client,
}

module _ (h : Hash) where
  pub record IsOnce (c : Client) : Type 0 where
    pub addressed : IsAddressed h c.store
    -- One caller at most fetches a file.
    pub alone :
        (i j : ℕ) (want : Bytes) → c.callers i ≡ fetches want → c.callers j ≡ fetches want → i ≡ j
    -- What is marked is fetched, so that nobody waits in vain; and what is fetched is marked.
    pub fetched_by :
        (want : Bytes) → is_fetching want c ≡ true → (i : ℕ) × (c.callers i ≡ fetches want)
    pub marked : (i : ℕ) (want : Bytes) → c.callers i ≡ fetches want → is_fetching want c ≡ true
    -- What a caller was told is there is in the store.
    pub there : (i : ℕ) (want : Bytes) → c.callers i ≡ told want true → has_hash c.store want ≡ true

  caller-set :
      (i j : ℕ) (a : Caller) (c : Client)
      → (set_caller i a c).callers j ≡ (if j == i then a else c.callers j)
  unfolding set_caller
  caller-set i j a c = refl

  -- A caller that does not fetch becomes one that does not, and is told nothing false.
  set_caller-IsOnce :
      (i : ℕ) (a : Caller) (c : Client)
      → IsOnce c
      → ((want : Bytes) → c.callers i ≢ fetches want)
      → ((want : Bytes) → a ≢ fetches want)
      → ((want : Bytes) → a ≡ told want true → has_hash c.store want ≡ true)
      → IsOnce (set_caller i a c)
  unfolding set_caller is_fetching
  set_caller-IsOnce i a c o before after truth = record {
    addressed = o.addressed;
    alone = λ j k want e f. ground (arith, o.alone j k want, e, f, after want);
    fetched_by = λ want m.
        let (j, e) = o.fetched_by want m in (j, ground (arith, e, before want, nat_iff j i));
    marked = λ j want e. ground (arith, e, after want, o.marked j want);
    there = λ j want e. ground (arith, e, truth want, o.there j want);
  }

  abbrev started : ℕ → Bytes → Client → Client
  started i want c =
      set_caller i (fetches want) (record c { fetching = insert want true c.fetching })

  started-IsOnce :
      (i : ℕ) (want : Bytes) (c : Client)
      → IsOnce c
      → c.callers i ≡ wants want
      → is_fetching want c ≡ false
      → IsOnce (started i want c)
  unfolding set_caller is_fetching
  started-IsOnce i want c o e free = record {
    addressed = o.addressed;
    alone = λ j k want' f g. ground (
      arith,
      o.alone j k want',
      f,
      g,
      free,
      o.marked j want',
      o.marked k want',
      nat_iff j i,
      nat_iff k i,
    );
    fetched_by = λ want' m. elim (Bool-cases (want' == want)) [
      | inl same ↦ (i, ground (arith, bytes_iff want' want, same, nat_iff i i))
      | inr other ↦
          let (j, f) =
            o.fetched_by want'
              (ground (arith, m, lookup-insert want' want true c.fetching, other)) in
          (j, ground (arith, f, e, nat_iff j i))
    ];
    marked = λ j want' f. ground (
      arith,
      f,
      o.marked j want',
      lookup-insert want' want true c.fetching,
      bytes_iff want' want,
    );
    there = λ j want' f. ground (arith, f, o.there j want');
  }

  look-IsOnce :
      (i : ℕ) (want : Bytes) (c : Client)
      → IsOnce c
      → c.callers i ≡ wants want
      → IsOnce (look i want c)
  unfolding look
  look-IsOnce i want c o e = elim (Bool-cases (has_hash c.store want)) [
    | inl has ↦ rw has (
        set_caller-IsOnce i (told want true) c o (λ w f. ground (arith, e, f)) (λ w f. cc)
          (λ w f. ground (arith, f, has)))
    | inr missing ↦ elim (Bool-cases (is_fetching want c)) [
      | inl busy ↦ rw (missing, busy) o
      | inr free ↦ rw (missing, free) (started-IsOnce i want c o e free)
    ]
  ]

  is_fetched-eq : (o : Outcome) → is_fetched o ≡ true → o ≡ fetched
  unfolding is_fetched
  is_fetched-eq fetched e = refl
  is_fetched-eq failed e = cc
  is_fetched-eq absent e = cc
  is_fetched-eq corrupt e = cc
  is_fetched-eq running e = cc

  module _ (call : Request → Option Response) (fuel : ℕ) where
    fetched-has_hash :
        (st : Store) (want : Bytes)
        → IsAddressed h st
        → is_fetched (fetch call h st want fuel).1 ≡ true
        → has_hash (fetch call h st want fuel).0 want ≡ true
    fetched-has_hash st want a e =
        let (c, same, opens) =
          fetch-open_hash h call st want fuel a (is_fetched-eq (fetch call h st want fuel).1 e) in
        open_hash-has_hash (fetch call h st want fuel).0 want c opens

    finish_fetch-IsOnce :
        (i : ℕ) (want : Bytes) (c : Client)
        → IsOnce c
        → c.callers i ≡ fetches want
        → IsOnce (finish_fetch h call fuel i want c)
    unfolding finish_fetch set_caller is_fetching
    finish_fetch-IsOnce i want c o e = record {
      addressed = fetch-IsAddressed h call c.store want fuel o.addressed;
      alone = λ j k want' f g. ground (arith, o.alone j k want', f, g);
      fetched_by = λ want' m.
          let (j, f) = o.fetched_by want' (ground (arith, m, lookup-erase want' want c.fetching)) in
          (
            j,
            ground (
              arith,
              f,
              e,
              m,
              lookup-erase want' want c.fetching,
              nat_iff j i,
              bytes_iff want' want,
            ),
          );
      marked = λ j want' f. ground (
        arith,
        f,
        e,
        o.marked j want',
        o.alone j i want',
        lookup-erase want' want c.fetching,
        nat_iff j i,
        bytes_iff want' want,
      );
      there = λ j want' f. ground (
        arith,
        f,
        o.there j want',
        fetch-has_hash h call c.store want fuel want',
        fetched-has_hash c.store want o.addressed,
      );
    }

    Step-IsOnce : {c d : Client} → Step h call fuel c d → IsOnce c → IsOnce d
    Step-IsOnce {c} (begins i want e) o =
        set_caller-IsOnce i (wants want) c o (λ w f. ground (arith, e, f)) (λ w f. cc) (λ w f. cc)
    Step-IsOnce {c} (ends i want b e) o =
        set_caller-IsOnce i idle c o (λ w f. ground (arith, e, f)) (λ w f. cc) (λ w f. cc)
    Step-IsOnce (looks i want e) o = look-IsOnce i want _ o e
    Step-IsOnce (finishes i want e) o = finish_fetch-IsOnce i want _ o e

-- A client of a store in which each file stands at the path of its sum, whatever callers ask for, in any order,
-- and whatever the server answers: at most one caller fetches a file; a caller that was told that a file is
-- there finds it in the store; and a file is marked as being fetched exactly while some caller fetches it,
-- so that who waits for it waits for that caller.
pub Reach-IsOnce :
    (h : Hash) (call : Request → Option Response) (fuel : ℕ) (st : Store) {c : Client}
    → IsAddressed h st
    → Reach h call fuel (new_client st) c
    → IsOnce h c
unfolding new_client is_fetching lookup
Reach-IsOnce h call fuel st a here = record {
  addressed = a;
  alone = λ i j want e f. absurd (cc e);
  fetched_by = λ want m. absurd (cc m);
  marked = λ i want e. absurd (cc e);
  there = λ i want e. absurd (cc e);
}
Reach-IsOnce h call fuel st a (next r s) =
    Step-IsOnce h call fuel s (Reach-IsOnce h call fuel st a r)
