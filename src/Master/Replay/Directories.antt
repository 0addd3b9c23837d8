-- ===== src/Master/Replay/Directories.antt =====
-- `replay` of a directory that is made, with its parent, and of a path that is deleted twice.
use termite.Base.{
  ◌≡◌, ◌≢◌, inl, inr, refl, Bytes, true, false, not, List, [], ◌∷◌, ◌++◌, Option, none, some, ◌==◌,
  if◌then◌else◌, bytes_eq, lookup, insert, lookup-insert_self, has, is_empty, slash, arith,
  Bool-cases, Option-cases,
}
use termite.Attr.FileAttr.{Attr, FileAttr, deletion, is_dir, is_symlink, has_type}
use termite.Cba.Fetch.{Store}
use termite.Master.Disk.{Node, directory, Disk, is_directory, has_parent, mkdir}
use termite.Master.Replay.{
  done, ◌>>=◌, prepare, prepare_one, nothing_prepared, Replaying, full_name, make_dir, set_mode,
  on_disk, with_dir, with_file, with_link, with_mode, replay_one, replay_files, reread, replay,
}

-- A directory as `replay` gets it: without a hash and without a link.
pub record IsPlain (info : FileAttr) : Type 0 where
  pub dir : is_dir info ≡ true
  pub no_hash : is_empty info.hash ≡ true
  pub no_link : is_empty info.link ≡ true

is_dir-is_symlink : (info : FileAttr) → is_dir info ≡ true → is_symlink info ≡ false
unfolding is_dir is_symlink has_type
is_dir-is_symlink info e = ground arith

pub is_dir-deletion : (info : FileAttr) → is_dir info ≡ true → deletion info ≡ false
unfolding is_dir has_type deletion
is_dir-deletion info e = ground arith

prepare_one-IsPlain :
    (get : Bytes → FileAttr) (st : Store) (info : FileAttr) (s : termite.Master.Replay.Prepared)
    → IsPlain info
    → prepare_one get st info s ≡ some s
unfolding prepare_one
prepare_one-IsPlain get st info s p = rw (is_dir-deletion info p.dir, p.no_hash) refl

-- The directory stands under the path, whether it was made or there before.
replay_one-IsPlain :
    (del : termite.Base.Dict Bytes Bytes) (info : FileAttr) (r : Replaying) (d : Disk)
    → IsPlain info
    → make_dir info r.disk ≡ done d
    → has (full_name info) d ≡ true
    → replay_one del info r ≡ done (record r { disk = d })
unfolding replay_one with_dir with_file with_link with_mode on_disk set_mode has
replay_one-IsPlain del info r d p made there = elim (Option-cases (lookup (full_name info) d)) [
  | inl e ↦ absurd (ground (arith, e, there))
  | inr (n, e) ↦
      rw
        (
          is_dir-deletion info p.dir,
          p.dir,
          made,
          p.no_hash,
          p.no_link,
          is_dir-is_symlink info p.dir,
          p.no_hash,
          e,
          set_mode,
        )
        refl
]

has-lookup : (name : Bytes) (n : Node) (d : Disk) → lookup name d ≡ some n → has name d ≡ true
unfolding has
has-lookup name n d e = ground (arith, e)

make_dir-there :
    (info : FileAttr) (d : Disk)
    → lookup (full_name info) d ≡ some directory
    → make_dir info d ≡ done d
unfolding make_dir mkdir is_directory
make_dir-there info d e = ground (arith, e, has-lookup (full_name info) directory d e)

make_dir-new :
    (info : FileAttr) (d : Disk)
    → has (full_name info) d ≡ false
    → has_parent (full_name info) d ≡ true
    → make_dir info d ≡ done (insert (full_name info) directory d)
unfolding make_dir mkdir
make_dir-new info d new above = ground (arith, new, above)

module _ (get : Bytes → FileAttr) (st : Store) (to_attr : Option Node → Option Attr) where
  -- A directory that is there, and one that is made below another: no more happens than `Mkdir`.
  pub replay-directories :
      (parent entry : FileAttr) (d : Disk)
      → IsPlain parent
      → IsPlain entry
      → lookup (full_name parent) d ≡ some directory
      → has (full_name entry) d ≡ false
      → has_parent (full_name entry) d ≡ true
      → (r : Replaying) × (infos : List FileAttr) × (replay get st to_attr (parent ∷ entry ∷ []) d
          ≡ done (r, infos))
        × (r.disk ≡ insert (full_name entry) directory d)
  unfolding replay prepare replay_files nothing_prepared
  replay-directories parent entry d p e known new above =
      let s : Replaying = record { disk = d; new_files = [] } in
      let d' = insert (full_name entry) directory d in
      let prepared : prepare get st (parent ∷ entry ∷ []) nothing_prepared ≡ some nothing_prepared =
        rw
          (
            prepare,
            prepare_one-IsPlain get st parent nothing_prepared p,
            prepare,
            prepare_one-IsPlain get st entry nothing_prepared e,
            prepare,
          )
          refl in
      let first =
        replay_one-IsPlain [] parent s d p (make_dir-there parent d known)
          (has-lookup (full_name parent) directory d known) in
      let second = replay_one-IsPlain [] entry s d' e (make_dir-new entry d new above) (
        has-lookup (full_name entry) directory d'
          (lookup-insert_self (full_name entry) directory d)) in
      (
        record { disk = d'; new_files = [] },
        reread to_attr parent d ∷ reread to_attr entry d' ∷ [],
        rw (prepared, replay, first, replay_files, second, replay_files) refl,
        refl,
      )
