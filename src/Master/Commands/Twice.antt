-- ===== src/Master/Commands/Twice.antt =====
-- `rm` of a file that is named twice.
use termite.Base.{
  ℕ, ◌≡◌, ◌≢◌, refl, ap, ◌∙◌, Bytes, Bool, true, false, List, [], ◌∷◌, ◌++◌, Option, bytes_eq,
  lookup, has, slash, arith,
}
use termite.Paths.{split_path}
use termite.Attr.FileAttr.{Attr, FileAttr, deleted, copy}
use termite.Cba.Fetch.{Store}
use termite.Master.Disk.{Node, Disk, is_directory}
use termite.Master.Replay.{Outcome, done, fatal, out_of_range, full_name, Replaying}
use termite.Master.Replay as Replay
use termite.Master.Replay.Changes.{Yields}
use termite.Master.Replay.Twice.{replay-twice}
use termite.Master.Commands.{
  Ran, ran, ended, ◌>>=◌, Removal, rm_file, rm_all, replay_set, nothing_removed, rm_replay,
}
use termite.Master.Commands.Parents.{Agrees, set_times-IsPlain, get-IsPlain, get-dirs, get-named}

full_name-path :
    (p : Bytes) (info : FileAttr) → full_name (deleted p) ≡ full_name info → p ≡ info.path
unfolding full_name deleted
full_name-path p info e = cc

module _ (view : Disk → Bytes → FileAttr) (st : Store) (to_attr : Option Node → Option Attr)
    (now : ℕ) (agrees : Agrees view) (force : Bool) (d : Disk) (p : Bytes) where
  abbrev parent_of : FileAttr
  parent_of = copy (view d (split_path p).0) false

  replay_set-ended :
      (files : List FileAttr)
      → Yields (λ _. ⊥) (Replay.replay (λ q. copy (view d q) false) st to_attr files d)
      → replay_set view st to_attr files d ≡ ended
  unfolding replay_set
  replay_set-ended files h = go (Replay.replay (λ q. copy (view d q) false) st to_attr files d) h
    where
      go :
          (o : Outcome (Replaying × List FileAttr))
          → Yields (λ _. ⊥) o
          → ◌≡◌ {A = Ran Disk}
              (elim o [ done (r, _) ↦ ran r.disk | fatal ↦ ended | out_of_range ↦ ended ])
              ended
      go (done z) b = absurd b
      go fatal b = refl
      go out_of_range b = refl

  -- A file, not a directory, that is on the disk and that `rm` is given twice: the master ends, since
  -- both are to be deleted from the disk, and the second is not there any more. Its directory is there, and
  -- the cache agrees with the disk.
  pub rm_all-twice :
      has (slash ∷ p) d ≡ true
      → is_directory (lookup (slash ∷ p) d) ≡ false
      → is_directory (lookup (slash ∷ (split_path p).0) d) ≡ true
      → (rm_all (rm_file (view d) now force) (p ∷ p ∷ []) nothing_removed >>= λ r.
          rm_replay view st to_attr r d)
        ≡ ended
  unfolding rm_all nothing_removed rm_replay rm_file
  rm_all-twice there file above =
      let plain =
        get-IsPlain view agrees d (split_path p).0
          (get-dirs view agrees d (split_path p).0 ∙ above) in
      let (parent, e, plain', named) = set_times-IsPlain now parent_of plain in
      let one : (r : Removal)
          → rm_file (view d) now force p r
            ≡ ran (record r { files = r.files ++ (parent ∷ deleted p ∷ []) }) =
        λ r. rw (rm_file, agrees.there d p, there, agrees.dirs d p, file, e) refl in
      let differ : p ≢ (split_path p).0 =
        λ same. ground (arith, file, above, ap (λ q. is_directory (lookup (slash ∷ q) d)) same) in
      let other : full_name (deleted p) ≢ full_name parent = λ same.
        differ (full_name-path p parent same ∙ named ∙ get-named view agrees d (split_path p).0) in
      rw (one nothing_removed, one (record nothing_removed { files = parent ∷ deleted p ∷ [] }))
        (rw
          (replay_set-ended (parent ∷ deleted p ∷ parent ∷ deleted p ∷ []) (
            replay-twice (λ q. copy (view d q) false) st to_attr parent parent p [] d plain' other))
          refl)
