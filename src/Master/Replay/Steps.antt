-- ===== src/Master/Replay/Steps.antt =====
-- What one round of `replayFileModifications` does to the number of temporary files.
use termite.Base.{
  ℕ, ◌+◌, ◌<◌, ◌≡◌, ◌⊎◌, inl, inr, refl, sym, ap, subst, Bytes, true, false, not, ◌&&◌, List, [],
  ◌∷◌, Option, none, some, if◌then◌else◌, ◌==◌, bytes_eq, bytes_iff, Dict, lookup, is_empty, length,
  arith, Bool-cases, Option-cases,
}
use termite.Attr.FileAttr.{FileAttr, deletion, is_dir, is_symlink}
use termite.Master.Disk.{Node, Disk, put_at, take_away, remove, mkdir, is_directory}
use termite.Master.Replay.{
  Outcome, done, fatal, out_of_range, or_fatal, ◌>>=◌, files_of, hash_of, Replaying, full_name,
  delete_file, make_dir, place_file, make_link, set_mode, on_disk, with_dir, with_file, with_link,
  with_mode, replay_one,
}
use termite.Master.Replay.Rounds.{files_of-insert, supply, supply-add_file}

-- A step that does not run out of temporary files; where it ends, the predicate holds.
abbrev pub Ensures : {A : Type 0} → (A → Type 0) → Outcome A → Type 0
Ensures P (done a) = P a
Ensures P fatal = Unit {0}
Ensures P out_of_range = ⊥

pub Ensures->>= :
    {A B : Type 0} (P : A → Type 0) (Q : B → Type 0) (o : Outcome A) (f : A → Outcome B)
    → Ensures P o
    → ((a : A) → P a → Ensures Q (f a))
    → Ensures Q (o >>= f)
Ensures->>= P Q (done a) f h k = k a h
Ensures->>= P Q fatal f h k = tt
Ensures->>= P Q out_of_range f h k = h

or_fatal-Ensures : {A : Type 0} (o : Option A) → Ensures {A = A} (λ a. Unit {0}) (or_fatal o)
or_fatal-Ensures none = tt
or_fatal-Ensures (some a) = tt

-- The temporary files are left alone.
abbrev Same : Dict Bytes (List Node) → Replaying → Type 0
Same m r = r.new_files ≡ m

on_disk-Ensures :
    (r : Replaying) (o : Outcome Disk)
    → Ensures (λ d. Unit {0}) o
    → Ensures (Same r.new_files) (on_disk r o)
unfolding on_disk
on_disk-Ensures r (done d) h = refl
on_disk-Ensures r fatal h = tt
on_disk-Ensures r out_of_range h = h

make_dir-Ensures : (info : FileAttr) (d : Disk) → Ensures (λ e. Unit {0}) (make_dir info d)
unfolding make_dir
make_dir-Ensures info d = elim (Option-cases (mkdir (full_name info) d)) [
  | inr (e, n) ↦ rw (n, make_dir) tt
  | inl n ↦ elim (Bool-cases (is_directory (lookup (full_name info) d))) [
    | inl q ↦ rw (n, q, make_dir) tt
    | inr q ↦ rw (n, q, make_dir) tt
  ]
]

make_link-Ensures : (info : FileAttr) (d : Disk) → Ensures (λ e. Unit {0}) (make_link info d)
unfolding make_link
make_link-Ensures info d = or_fatal-Ensures _

set_mode-Ensures : (info : FileAttr) (d : Disk) → Ensures (λ e. Unit {0}) (set_mode info d)
unfolding set_mode
set_mode-Ensures info d = elim (Option-cases (lookup (full_name info) d)) [
  | inr (e, n) ↦ rw (n, set_mode) tt
  | inl n ↦ rw (n, set_mode) tt
]

with_dir-Ensures : (info : FileAttr) (r : Replaying) → Ensures (Same r.new_files) (with_dir info r)
unfolding with_dir
with_dir-Ensures info r = elim (Bool-cases (is_dir info)) [
  | inl e ↦ rw e (on_disk-Ensures r (make_dir info r.disk) (make_dir-Ensures info r.disk))
  | inr e ↦ rw e refl
]

with_link-Ensures :
    (info : FileAttr) (r : Replaying) → Ensures (Same r.new_files) (with_link info r)
unfolding with_link
with_link-Ensures info r = elim (Bool-cases (is_empty info.link)) [
  | inr e ↦ rw e (on_disk-Ensures r (make_link info r.disk) (make_link-Ensures info r.disk))
  | inl e ↦ rw e refl
]

with_mode-Ensures :
    (info : FileAttr) (r : Replaying) → Ensures (Same r.new_files) (with_mode info r)
unfolding with_mode
with_mode-Ensures info r = elim (Bool-cases (is_empty info.hash && not (is_symlink info))) [
  | inl e ↦ rw e (on_disk-Ensures r (set_mode info r.disk) (set_mode-Ensures info r.disk))
  | inr e ↦ rw e refl
]

-- What placing a file uses up.
abbrev pub uses : Bytes → FileAttr → ℕ
uses h info = if is_empty info.hash then 0 else if h == info.hash then 1 else 0

pub List-cases : (l : List Node) → (l ≡ []) ⊎ ((n : Node) × (rest : List Node) × (l ≡ n ∷ rest))
List-cases [] = inl refl
List-cases (n ∷ rest) = inr (n, rest, refl)

place_file-Ensures :
    (info : FileAttr) (r : Replaying)
    → is_empty info.hash ≡ false
    → 0 < supply info.hash r.new_files
    → Ensures
        (λ s. (h : Bytes) → supply h s.new_files + uses h info ≡ supply h r.new_files)
        (place_file info r)
unfolding place_file
place_file-Ensures info r e have = elim (List-cases (files_of info.hash r.new_files)) [
  | inl n ↦ absurd (omega (arith, ap length n))
  | inr (n, rest, q) ↦ elim (Option-cases (put_at n (full_name info) r.disk)) [
    | inl z ↦ rw (q, z, place_file) tt
    | inr (d, z) ↦
        rw (q, z, place_file)
          (λ h.
            ground
              (arith, files_of-insert h info.hash rest r.new_files, bytes_iff h info.hash, e, q))
  ]
]

Ensures-map :
    {A : Type 0} (P Q : A → Type 0) (o : Outcome A)
    → ((a : A) → P a → Q a)
    → Ensures P o
    → Ensures Q o
Ensures-map P Q (done a) f h = f a h
Ensures-map P Q fatal f h = tt
Ensures-map P Q out_of_range f h = h

-- The temporary files after a file has been placed.
abbrev Placed : FileAttr → Dict Bytes (List Node) → Replaying → Type 0
Placed info m s = (h : Bytes) → supply h s.new_files + uses h info ≡ supply h m

unfoldable pub Ready : FileAttr → Dict Bytes (List Node) → Type 0
Ready info m = (is_empty info.hash ≡ true) ⊎ (0 < supply info.hash m)

with_file-Ensures :
    (info : FileAttr) (r : Replaying)
    → Ready info r.new_files
    → Ensures (Placed info r.new_files) (with_file info r)
unfolding with_file Ready
with_file-Ensures info r have = elim (Bool-cases (is_empty info.hash)) [
  | inl e ↦ rw e (λ h. ground arith)
  | inr e ↦
      let same : with_file info r ≡ place_file info r = rw (e, with_file) refl in
      subst (Ensures (Placed info r.new_files)) (sym same)
        (place_file-Ensures info r e (ground arith))
]

-- What a deletion frees.
abbrev pub frees : Bytes → Dict Bytes Bytes → FileAttr → ℕ
frees h del info =
    if is_empty (hash_of info.path del) then 0 else if h == hash_of info.path del then 1 else 0

delete_file-Ensures :
    (del : Dict Bytes Bytes) (info : FileAttr) (r : Replaying)
    → Ensures
        (λ s. (h : Bytes) → supply h s.new_files ≡ supply h r.new_files + frees h del info)
        (delete_file del info r)
unfolding delete_file
delete_file-Ensures del info r = elim (Bool-cases (is_empty (hash_of info.path del))) [
  | inl e ↦ elim (Option-cases (remove (full_name info) r.disk)) [
    | inl z ↦ rw (e, z, delete_file) tt
    | inr (d, z) ↦ rw (e, z, delete_file) (λ h. ground (arith, e))
  ]
  | inr e ↦ elim (Option-cases (take_away (full_name info) r.disk)) [
    | inl z ↦ rw (e, z, delete_file) tt
    | inr ((n, d), z) ↦
        rw (e, z, delete_file)
          (λ h. ground (
            arith,
            e,
            supply-add_file h (hash_of info.path del) n r.new_files,
            bytes_iff h (hash_of info.path del),
          ))
  ]
]

file-Ensures :
    (info : FileAttr) (r : Replaying)
    → Ready info r.new_files
    → Ensures
        (Placed info r.new_files)
        (with_dir info r >>= with_file info >>= with_link info >>= with_mode info)
file-Ensures info r have =
    Ensures->>= _ _ (with_dir info r >>= with_file info >>= with_link info) (with_mode info)
      (Ensures->>= _ _ (with_dir info r >>= with_file info) (with_link info)
        (Ensures->>= (Same r.new_files) (Placed info r.new_files) (with_dir info r) (with_file info)
          (with_dir-Ensures info r)
          (λ s p.
            Ensures-map (Placed info s.new_files) (Placed info r.new_files) (with_file info s)
              (λ t q h. omega (arith, q h, ap (supply h) p))
              (with_file-Ensures info s (subst (Ready info) (sym p) have))))
        (λ s p. Ensures-map _ (Placed info r.new_files) _ (kept s p) (with_link-Ensures info s)))
      (λ s p. Ensures-map _ (Placed info r.new_files) _ (kept s p) (with_mode-Ensures info s))
  where
    kept :
        (s : Replaying)
        → Placed info r.new_files s
        → (t : Replaying) → Same s.new_files t
        → Placed info r.new_files t
    kept s p t q h = omega (arith, p h, ap (supply h) q)

pub replay_one-Ensures :
    (del : Dict Bytes Bytes) (info : FileAttr) (r : Replaying)
    → (deletion info ≡ false → Ready info r.new_files)
    → Ensures
        (λ s.
          (h : Bytes)
          → supply h s.new_files + (if deletion info then 0 else uses h info)
            ≡ supply h r.new_files + (if deletion info then frees h del info else 0))
        (replay_one del info r)
unfolding replay_one
replay_one-Ensures del info r have = elim (Bool-cases (deletion info)) [
  | inl e ↦ rw e (
      Ensures-map _ _ (delete_file del info r) (λ s p h. omega (arith, p h))
        (delete_file-Ensures del info r))
  | inr e ↦ rw e (
      Ensures-map _ _ (with_dir info r >>= with_file info >>= with_link info >>= with_mode info)
        (λ s p h. omega (arith, p h)) (file-Ensures info r (have e)))
]
