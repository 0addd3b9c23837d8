-- ===== src/Master/Commands/Tests.antt =====
-- A disk with the directory "/d" and the file "/d/f".
use termite.Base.{
  ℕ, ◌≡◌, ◌≢◌, ◌⊎◌, refl, Bytes, codes, Bool, true, false, not, List, [], ◌∷◌, Option, none, some,
  ◌==◌, arith, nat_eq, bytes_eq, if◌then◌else◌, lookup, has, slash, join_slash, Option-cases, inl,
  inr, is_empty,
}
use termite.Paths.{split_path}
use termite.Attr.FileAttr.{Attr, FileAttr, deleted, deletion, is_dir}
use termite.Cba.Fetch.{Store}
use termite.Master.Disk.{Node, file, directory, symlink, Disk, is_directory}
use termite.Master.Replay.Directories.{IsPlain}
use termite.Master.Commands.{
  ended, ◌>>=◌, WorkResponse, rm_file, rm_all, nothing_removed, rm_replay,
}
use termite.Master.Commands.Parents.{Agrees}
use termite.Master.Commands.Twice.{rm_all-twice}

abbrev attr_of : ℕ → Attr
attr_of mode = record {
  ino = 1;
  size = 0;
  mtime = 0;
  mtimensec = 0;
  mode = mode;
  nlink = 1;
  uid = 0;
  gid = 0;
}

abbrev node_attr : Bytes → Option Node → FileAttr
node_attr p none = deleted p
node_attr p (some directory) = record (deleted p) { attr = some (attr_of 0o040755) }
node_attr p (some (file c)) = record (deleted p) { attr = some (attr_of 0o100644); hash = 1 ∷ [] }
node_attr p (some (symlink l)) = record (deleted p) { attr = some (attr_of 0o120777); link = l }

abbrev shown : Disk → Bytes → FileAttr
shown d p = node_attr p (lookup (slash ∷ p) d)

node_attr-dirs : (p : Bytes) (o : Option Node) → is_dir (node_attr p o) ≡ is_directory o
unfolding is_dir is_directory deleted termite.Attr.FileAttr.has_type termite.Attr.FileAttr.file_type
node_attr-dirs p none = refl
node_attr-dirs p (some directory) = refl
node_attr-dirs p (some (file c)) = refl
node_attr-dirs p (some (symlink l)) = refl

node_attr-path : (p : Bytes) (o : Option Node) → (node_attr p o).path ≡ p
unfolding deleted
node_attr-path p none = refl
node_attr-path p (some directory) = refl
node_attr-path p (some (file c)) = refl
node_attr-path p (some (symlink l)) = refl

node_attr-IsPlain :
    (p : Bytes) (o : Option Node) → is_dir (node_attr p o) ≡ true → IsPlain (node_attr p o)
unfolding is_dir deleted termite.Attr.FileAttr.has_type termite.Attr.FileAttr.file_type is_empty
node_attr-IsPlain p none e = cc
node_attr-IsPlain p (some directory) e = record { dir = refl; no_hash = refl; no_link = refl }
node_attr-IsPlain p (some (file c)) e = cc
node_attr-IsPlain p (some (symlink l)) e = cc

shown-there : (d : Disk) (p : Bytes) → deletion (shown d p) ≡ not (has (slash ∷ p) d)
unfolding has deletion deleted
shown-there d p = elim (Option-cases (lookup (slash ∷ p) d)) [
  | inl e ↦ rw (e, has) refl
  | inr (n, e) ↦ rw (e, has) (there n)
]
  where
    there : (n : Node) → deletion (node_attr p (some n)) ≡ false
    there directory = refl
    there (file c) = refl
    there (symlink l) = refl

shown-Agrees : Agrees shown
shown-Agrees = record {
  named = λ d p. node_attr-path p (lookup (slash ∷ p) d);
  there = shown-there;
  dirs = λ d p. node_attr-dirs p (lookup (slash ∷ p) d);
  plain = λ d p. node_attr-IsPlain p (lookup (slash ∷ p) d);
}

abbrev disk : Disk
disk = (codes "/", directory) ∷ (codes "/d", directory) ∷ (codes "/d/f", file (codes "text")) ∷ []

abbrev no_files : Store
no_files = record { dir = codes "/cas"; files = [] }

abbrev to_attr : Option Node → Option Attr
to_attr none = none
to_attr (some n) = some (attr_of 0o100644)

abbrev response : WorkResponse
response = record { stderr = []; exit = 0 }

rm_all-twice_example :
    (rm_all (rm_file (shown disk) 7 false) (codes "d/f" ∷ codes "d/f" ∷ []) nothing_removed >>= λ r.
    rm_replay shown no_files to_attr r disk)
    ≡ ended
unfolding has lookup is_directory termite.Base.bytes_beq split_path termite.Base.file_split
    termite.Base.trim_right is_empty
rm_all-twice_example =
    rm_all-twice shown no_files to_attr 7 shown-Agrees false disk (codes "d/f") refl refl refl
