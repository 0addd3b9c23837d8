-- ===== src/Master/Replay/Changes.antt =====
-- What a step of `replayFileModifications` yields, if anything, and what the calls of package os leave of a disk.
use termite.Base.{
  ◌≡◌, ◌≢◌, inl, inr, refl, Bytes, Option, none, some, bytes_eq, bytes_iff, lookup, lookup-insert,
  lookup-erase, arith, Option-cases,
}
use termite.Master.Disk.{
  Node, directory, symlink, Disk, put_at, take_away, remove, mkdir, make_symlink,
}
use termite.Master.Replay.{Outcome, done, fatal, out_of_range, or_fatal, ◌>>=◌}

-- The predicate holds of what the step gives, if it gives anything.
abbrev pub Yields : {A : Type 0} → (A → Type 0) → Outcome A → Type 0
Yields P (done a) = P a
Yields P fatal = Unit {0}
Yields P out_of_range = Unit {0}

pub Yields->>= :
    {A B : Type 0} (P : A → Type 0) (Q : B → Type 0) (o : Outcome A) (f : A → Outcome B)
    → Yields P o
    → ((a : A) → P a → Yields Q (f a))
    → Yields Q (o >>= f)
Yields->>= P Q (done a) f h k = k a h
Yields->>= P Q fatal f h k = tt
Yields->>= P Q out_of_range f h k = tt

pub Yields-map :
    {A : Type 0} (P Q : A → Type 0) (o : Outcome A)
    → ((a : A) → P a → Q a)
    → Yields P o
    → Yields Q o
Yields-map P Q (done a) f h = f a h
Yields-map P Q fatal f h = tt
Yields-map P Q out_of_range f h = tt

pub or_fatal-Yields :
    {A : Type 0} (P : A → Type 0) (o : Option A)
    → ((a : A) → o ≡ some a → P a)
    → Yields P (or_fatal o)
or_fatal-Yields P none f = tt
or_fatal-Yields P (some a) f = f a refl

-- The name alone may change.
abbrev pub Elsewhere : Bytes → Disk → Disk → Type 0
Elsewhere name d d' = (m : Bytes) → m ≢ name → lookup m d' ≡ lookup m d

pub mkdir-Elsewhere : (name : Bytes) (d d' : Disk) → mkdir name d ≡ some d' → Elsewhere name d d'
unfolding mkdir
mkdir-Elsewhere name d d' e m n =
    ground (arith, e, n, lookup-insert m name directory d, bytes_iff m name)

pub remove-Elsewhere :
    (name : Bytes) (d d' : Disk)
    → remove name d ≡ some d'
    → (lookup name d' ≡ none) × Elsewhere name d d'
unfolding remove
remove-Elsewhere name d d' e = (
  ground (arith, e, lookup-erase name name d, bytes_iff name name),
  λ m n. ground (arith, e, n, lookup-erase m name d, bytes_iff m name),
)

pub make_symlink-Elsewhere :
    (link name : Bytes) (d d' : Disk) → make_symlink link name d ≡ some d' → Elsewhere name d d'
unfolding make_symlink
make_symlink-Elsewhere link name d d' e m n =
    ground (arith, e, n, lookup-insert m name (symlink link) d, bytes_iff m name)

pub take_away-Elsewhere :
    (name : Bytes) (d d' : Disk) (n : Node)
    → take_away name d ≡ some (n, d')
    → (lookup name d ≡ some n) × (lookup name d' ≡ none) × Elsewhere name d d'
unfolding take_away
take_away-Elsewhere name d d' n e = elim (Option-cases (lookup name d)) [
  | inl q ↦ absurd (ground (arith, e, q))
  | inr (n', q) ↦ (
    ground (arith, e, q),
    ground (arith, e, q, lookup-erase name name d, bytes_iff name name),
    λ m k. ground (arith, e, q, k, lookup-erase m name d, bytes_iff m name),
  )
]

pub put_at-Elsewhere :
    (n : Node) (name : Bytes) (d d' : Disk)
    → put_at n name d ≡ some d'
    → (lookup name d' ≡ some n) × Elsewhere name d d'
unfolding put_at
put_at-Elsewhere n name d d' e = (
  ground (arith, e, lookup-insert name name n d, bytes_iff name name),
  λ m k. ground (arith, e, k, lookup-insert m name n d, bytes_iff m name),
)
