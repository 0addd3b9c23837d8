-- ===== src/Master/Replay/Twice.antt =====
-- A path that is deleted twice, with only its directory between.
use termite.Base.{
  ◌≡◌, ◌≢◌, inl, inr, refl, ap, ◌∙◌, ◌&&◌, Bytes, not, List, ◌∷◌, Option, none, bytes_eq, Dict,
  lookup, has, is_empty, arith, Bool-cases, Option-cases,
}
use termite.Attr.FileAttr.{Attr, FileAttr, deleted, deletion, is_symlink}
use termite.Cba.Fetch.{Store}
use termite.Master.Disk.{Node, Disk, remove, take_away, mkdir}
use termite.Master.Replay.{
  Outcome, done, fatal, out_of_range, or_fatal, ◌>>=◌, prepare, nothing_prepared, Replaying,
  full_name, hash_of, delete_file, make_dir, on_disk, with_dir, with_file, with_link, with_mode,
  set_mode, replay_one, replay_files, replay,
}
use termite.Master.Replay.Changes.{
  Yields, Yields->>=, Yields-map, or_fatal-Yields, Elsewhere, mkdir-Elsewhere, remove-Elsewhere,
  take_away-Elsewhere,
}
use termite.Master.Replay.Directories.{IsPlain, is_dir-deletion}

-- `Chtimes` and `Chmod` leave what is on the disk.
with_mode-same :
    (info : FileAttr) (r : Replaying) → Yields (λ s. s.disk ≡ r.disk) (with_mode info r)
unfolding with_mode on_disk set_mode
with_mode-same info r = elim (Bool-cases (is_empty info.hash && not (is_symlink info))) [
  | inr e ↦ rw e refl
  | inl e ↦ elim (Option-cases (lookup (full_name info) r.disk)) [
    | inl q ↦ rw (e, q, set_mode) tt
    | inr (n, q) ↦ rw (e, q, set_mode) refl
  ]
]

module _ (del : Dict Bytes Bytes) (p : Bytes) where
  -- Nothing is at the path.
  abbrev IsGone : Replaying → Type 0
  IsGone r = lookup (full_name (deleted p)) r.disk ≡ none

  done-IsGone :
      (r : Replaying) (o : Outcome Disk)
      → Yields (λ d. lookup (full_name (deleted p)) d ≡ none) o
      → Yields IsGone (o >>= λ d. done (record r { disk = d }))
  done-IsGone r o h =
      Yields->>= (λ d. lookup (full_name (deleted p)) d ≡ none) IsGone o _ h (λ d e. e)

  deleted-IsGone : (r : Replaying) → Yields IsGone (replay_one del (deleted p) r)
  unfolding replay_one deleted deletion delete_file
  deleted-IsGone r = elim (Bool-cases (is_empty (hash_of p del))) [
    | inl e ↦ rw e (
        done-IsGone r (or_fatal (remove (full_name (deleted p)) r.disk))
          (or_fatal-Yields _ _ (λ d q. (remove-Elsewhere (full_name (deleted p)) r.disk d q).0)))
    | inr e ↦ rw e (
        Yields->>= (λ z. lookup (full_name (deleted p)) z.1 ≡ none) IsGone _ _
          (or_fatal-Yields _ (take_away (full_name (deleted p)) r.disk)
            (λ z q. (take_away-Elsewhere (full_name (deleted p)) r.disk z.1 z.0 q).1))
          (λ z q. q))
  ]

  deleted-twice : (r : Replaying) → IsGone r → replay_one del (deleted p) r ≡ fatal
  unfolding replay_one deleted deletion delete_file remove take_away has
  deleted-twice r gone = ground (arith, gone)

  make_dir-Elsewhere :
      (info : FileAttr) (d d' : Disk) → make_dir info d ≡ done d' → Elsewhere (full_name info) d d'
  unfolding make_dir
  make_dir-Elsewhere info d d' e m n = elim (Option-cases (mkdir (full_name info) d)) [
    | inl q ↦ ground (arith, e, q)
    | inr (d'', q) ↦ ground (arith, e, q, mkdir-Elsewhere (full_name info) d d'' q m n)
  ]

  module _ (parent : FileAttr) (r : Replaying) (plain : IsPlain parent)
      (other : full_name (deleted p) ≢ full_name parent) (gone : IsGone r) where
    directory_after :
        (o : Outcome Disk) → make_dir parent r.disk ≡ o → Yields IsGone (replay_one del parent r)
    unfolding replay_one with_dir with_file with_link with_mode on_disk set_mode
    directory_after fatal e = rw (is_dir-deletion parent plain.dir, plain.dir, e) tt
    directory_after out_of_range e = rw (is_dir-deletion parent plain.dir, plain.dir, e) tt
    directory_after (done d) e =
        rw (is_dir-deletion parent plain.dir, plain.dir, e, plain.no_hash, plain.no_link)
          (Yields-map _ IsGone (with_mode parent (record r { disk = d }))
            (λ s same.
              ap (lookup (full_name (deleted p))) same
              ∙ make_dir-Elsewhere parent r.disk d e (full_name (deleted p)) other
              ∙ gone)
            (with_mode-same parent (record r { disk = d })))

module _ (to_attr : Option Node → Option Attr) (del : Dict Bytes Bytes) where
  -- `replayFileModifications` does not come to an end.
  abbrev Fails : List FileAttr → Replaying → Type 0
  Fails files r = Yields (λ _. ⊥) (replay_files to_attr del files r)

  Fails-cons :
      (P : Replaying → Type 0) (info : FileAttr) (files : List FileAttr) (r : Replaying)
      → Yields P (replay_one del info r)
      → ((s : Replaying) → P s → Fails files s)
      → Fails (info ∷ files) r
  unfolding replay_files
  Fails-cons P info files r h k =
      Yields->>= P (λ _. ⊥) (replay_one del info r) _ h
        (λ s q.
          Yields->>= (λ _. ⊥) (λ _. ⊥) (replay_files to_attr del files s) _ (k s q) (λ _ b. b))

  Fails-deleted :
      (p : Bytes) (files : List FileAttr) (s : Replaying)
      → IsGone del p s
      → Fails (deleted p ∷ files) s
  unfolding replay_files
  Fails-deleted p files s gone = rw (deleted-twice del p s gone) tt

  anything : (info : FileAttr) (r : Replaying) → Yields (λ _. Unit {0}) (replay_one del info r)
  anything info r = go (replay_one del info r)
    where
      go : (o : Outcome Replaying) → Yields (λ _. Unit {0}) o
      go (done s) = tt
      go fatal = tt
      go out_of_range = tt

-- Whatever is on the disk: a path that is deleted twice, with its directory before each time, ends the
-- program.
pub replay-twice :
    (get : Bytes → FileAttr) (st : Store) (to_attr : Option Node → Option Attr)
    (parent parent' : FileAttr) (p : Bytes) (files : List FileAttr) (d : Disk)
    → IsPlain parent'
    → full_name (deleted p) ≢ full_name parent'
    → Yields (λ _. ⊥) (replay get st to_attr (parent ∷ deleted p ∷ parent' ∷ deleted p ∷ files) d)
unfolding replay
replay-twice get st to_attr parent parent' p files d plain other =
    let all = parent ∷ deleted p ∷ parent' ∷ deleted p ∷ files in
    elim (Option-cases (prepare get st all nothing_prepared)) [
      | inl e ↦ rw (e, replay) tt
      | inr (t, e) ↦
          let del = t.del_file_hashes in
          rw (e, replay)
            (Fails-cons to_attr del (λ _. Unit {0}) parent _ _ (anything to_attr del parent _)
              (λ s _.
                Fails-cons to_attr del (IsGone del p) (deleted p) _ s (deleted-IsGone del p s)
                  (λ s g.
                    Fails-cons to_attr del (IsGone del p) parent' _ s
                      (directory_after del p parent' s plain other g (make_dir parent' s.disk) refl)
                      (λ s g. Fails-deleted to_attr del p files s g))))
    ]
