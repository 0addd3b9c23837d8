-- ===== src/Master/Replay/Tests.antt =====
-- A file that was moved: its old name is deleted, its new one has the same hash.
use termite.Base.{
  ℕ, ◌≡◌, ◌≢◌, refl, Bytes, codes, Bool, true, false, List, [], ◌∷◌, Option, none, some,
  if◌then◌else◌, ◌==◌, bytes_eq, Dict, lookup, insert,
}
use termite.Base.{length, arith, inl, inr, Option-cases, All}
use termite.Cba.HashPath.{hash_path}
use termite.Cba.Fetch.{open_hash}
use termite.Master.Replay.{full_name, is_kept}
use termite.Master.Replay.Yields.{IsReplayed}
use termite.Master.Replay.Contents.{IsSummed, IsCached, replay-IsReplayed}
use termite.Attr.FileAttr.{Attr, FileAttr, deleted}
use termite.Cba.Fetch.{Store}
use termite.Master.Disk.{Node, file, directory, Disk}
use termite.Master.Replay.{
  Outcome, done, out_of_range, Replaying, replay, prepare, prepare_one, nothing_prepared,
}
use termite.Master.Replay.Supply.{replay-safe}

abbrev content : Bytes
content = codes "text"

abbrev regular : Attr
regular = record {
  ino = 1;
  size = 4;
  mtime = 0;
  mtimensec = 0;
  mode = 0o100644;
  nlink = 1;
  uid = 0;
  gid = 0;
}

abbrev moved_to : FileAttr
moved_to = record { path = codes "b"; attr = some regular; hash = 4 ∷ []; link = []; names = none }

abbrev cached : Bytes → FileAttr
cached path = if path == codes "a" then record moved_to { path = path } else deleted path

abbrev empty_store : Store
empty_store = record { dir = codes "/cas"; files = [] }

abbrev disk : Disk
disk = (codes "/a", file content) ∷ []

abbrev attr_of : Option Node → Option Attr
attr_of none = none
attr_of (some n) = some regular

abbrev move : List FileAttr
move = deleted (codes "a") ∷ moved_to ∷ []

replay-safe_example : replay cached empty_store attr_of move disk ≢ out_of_range
replay-safe_example = replay-safe cached empty_store attr_of move disk

-- The content is moved on the disk; the content store does not need to have it.
replay-move :
    replay cached empty_store attr_of move disk
    ≡ done (record { disk = (codes "/b", file content) ∷ []; new_files = (4 ∷ [], []) ∷ [] }, move)
unfolding replay prepare prepare_one termite.Attr.FileAttr.deletion deleted termite.Base.is_empty
    termite.Master.Replay.count_of lookup termite.Master.Replay.note_deletion
    termite.Master.Replay.is_kept termite.Base.bytes_beq insert nothing_prepared
    termite.Master.Replay.replay_files termite.Master.Replay.replay_one
    termite.Master.Replay.delete_file termite.Master.Replay.hash_of termite.Master.Disk.take_away
    termite.Attr.FileAttr.file_type termite.Attr.FileAttr.has_type termite.Attr.FileAttr.is_dir
    termite.Attr.FileAttr.is_symlink termite.Base.erase termite.Base.has termite.Base.file_split
    termite.Base.trim_right termite.Master.Disk.has_parent termite.Master.Disk.is_directory
    termite.Master.Disk.put_at termite.Master.Replay.add_file termite.Master.Replay.files_of
    termite.Master.Replay.full_name termite.Master.Replay.place_file termite.Master.Replay.reread
    termite.Master.Replay.with_dir termite.Master.Replay.with_file termite.Master.Replay.with_link
    termite.Master.Replay.with_mode termite.Paths.split_path
replay-move = refl

-- Not a real hash: one byte, the length of the content.
abbrev length_sum : Bytes → Bytes
length_sum c = length c ∷ []

empty_store-IsSummed : IsSummed length_sum cached empty_store
unfolding open_hash lookup
empty_store-IsSummed h c e = elim (Option-cases (hash_path (codes "/cas") h)) [
  | inl n ↦ absurd (ground (arith, n, e))
  | inr (p, n) ↦ absurd (ground (arith, n, e))
]

disk-IsCached : IsCached length_sum cached empty_store disk
unfolding lookup is_kept termite.Base.bytes_beq deleted termite.Attr.FileAttr.deletion
    termite.Base.is_empty
disk-IsCached p k n l = (content, ground (arith, l), ground (arith, k))

replay-IsReplayed_example :
    ((m : Bytes)
      → All (λ j. m ≢ full_name j) move
      → lookup m ((codes "/b", file content) ∷ []) ≡ lookup m disk)
    × All (λ j. IsReplayed length_sum j ((codes "/b", file content) ∷ [])) move
unfolding deleted
replay-IsReplayed_example =
    replay-IsReplayed length_sum cached empty_store attr_of move move disk
      (record { disk = (codes "/b", file content) ∷ []; new_files = (4 ∷ [], []) ∷ [] })
      empty_store-IsSummed disk-IsCached ((λ e. ground (arith, e), tt), (tt, tt)) replay-move
