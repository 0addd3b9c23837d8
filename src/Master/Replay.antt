-- ===== src/Master/Replay.antt =====
-- termite/master.go: `replay` and `replayFileModifications`, which bring the files that a worker sent
-- to the master's own disk. A temporary file is known by what is in it: its name is new, and nothing
-- else uses it. `get` is what `attributes.Get` answers, `to_attr` is `fuse.ToAttr` of an `Lstat`, and
-- `xattr`, times and modes are left out. Between the two parts, `Queue` tells the clients.
pub mod Rounds
pub mod Steps
pub mod Supply
pub mod Changes
pub mod Yields
pub mod Stores
pub mod Contents
pub mod Directories
pub mod Twice
mod Tests
use termite.Base.{
  ℕ, suc, ◌-◌, Bytes, Bool, true, false, not, ◌&&◌, List, [], ◌∷◌, ◌++◌, Option, none, some, ltb,
  if◌then◌else◌, ◌==◌, nat_eq, bytes_eq, Dict, lookup, insert, is_empty, slash,
}
use termite.Attr.FileAttr.{Attr, FileAttr, deletion, is_dir, is_symlink}
use termite.Cba.Fetch.{Store, open_hash}
use termite.Master.Disk.{
  Node, file, Disk, is_directory, mkdir, remove, make_symlink, take_away, put_at,
}

-- `log.Fatal` where a call of package os fails; an index out of range.
pub data Outcome (A : Type 0) : Type 0 where
  done : A → Outcome A
  fatal : Outcome A
  out_of_range : Outcome A

infixl 5 ◌>>=◌
abbrev pub ◌>>=◌ : {A B : Type 0} → Outcome A → (A → Outcome B) → Outcome B
done a >>= f = f a
fatal >>= f = fatal
out_of_range >>= f = out_of_range

abbrev pub or_fatal : {A : Type 0} → Option A → Outcome A
or_fatal none = fatal
or_fatal (some a) = done a

-- `replayRequest` without its files, and `haveHashes`.
pub record Prepared : Type 0 where
  pub new_files : Dict Bytes (List Node)
  pub del_file_hashes : Dict Bytes Bytes
  pub have_hashes : Dict Bytes ℕ

pub files_of : Bytes → Dict Bytes (List Node) → List Node
files_of h m = elim (lookup h m) [ none ↦ [] | some l ↦ l ]

pub count_of : Bytes → Dict Bytes ℕ → ℕ
count_of h m = elim (lookup h m) [ none ↦ 0 | some n ↦ n ]

pub hash_of : Bytes → Dict Bytes Bytes → Bytes
hash_of path m = elim (lookup path m) [ none ↦ [] | some h ↦ h ]

-- `!a.Deletion() && a.Hash != ""`
pub is_kept : FileAttr → Bool
is_kept a = not (deletion a) && not (is_empty a.hash)

pub note_deletion : Bytes → FileAttr → Prepared → Prepared
note_deletion path a s =
    if is_kept a
    then record s {
      del_file_hashes = insert path a.hash s.del_file_hashes;
      have_hashes = insert a.hash (suc (count_of a.hash s.have_hashes)) s.have_hashes;
    }
    else s

pub add_file : Bytes → Node → Dict Bytes (List Node) → Dict Bytes (List Node)
add_file h n m = insert h (n ∷ files_of h m) m

-- The copy of the contents that the store has; `none` is the panic if it does not.
pub copy_contents : Store → Bytes → Prepared → Option Prepared
copy_contents st h s = elim (open_hash st h) [
  | none ↦ none
  | some c ↦ some (record s { new_files = add_file h (file c) s.new_files })
]

-- One round of the loop of `replay`.
pub prepare_one : (Bytes → FileAttr) → Store → FileAttr → Prepared → Option Prepared
prepare_one get st info s =
    if deletion info
    then some (note_deletion info.path (get info.path) s)
    else if is_empty info.hash
    then some s
    else if ltb 0 (count_of info.hash s.have_hashes)
    then some (record s {
      have_hashes = insert info.hash (count_of info.hash s.have_hashes - 1) s.have_hashes;
    })
    else copy_contents st info.hash s

pub prepare : (Bytes → FileAttr) → Store → List FileAttr → Prepared → Option Prepared
prepare get st [] s = some s
prepare get st (info ∷ files) s = elim (prepare_one get st info s) [
  | none ↦ none
  | some s' ↦ prepare get st files s'
]

pub nothing_prepared : Prepared
nothing_prepared = record { new_files = []; del_file_hashes = []; have_hashes = [] }

-- The disk, and the temporary files that are left.
pub record Replaying : Type 0 where
  pub disk : Disk
  pub new_files : Dict Bytes (List Node)

unfoldable pub full_name : FileAttr → Bytes
full_name info = slash ∷ info.path

pub delete_file : Dict Bytes Bytes → FileAttr → Replaying → Outcome Replaying
delete_file del info r =
    let h = hash_of info.path del in
    if is_empty h
    then (or_fatal (remove (full_name info) r.disk) >>= λ d. done (record r { disk = d }))
    else (or_fatal (take_away (full_name info) r.disk) >>= λ (n, d).
        done (record { disk = d; new_files = add_file h n r.new_files }))

-- Some other process may have made the directory.
pub make_dir : FileAttr → Disk → Outcome Disk
make_dir info d = elim (mkdir (full_name info) d) [
  | some d' ↦ done d'
  | none ↦ if is_directory (lookup (full_name info) d) then done d else fatal
]

-- `fs[len(fs)-1]`, and the rename; the last file stands first here.
pub place_file : FileAttr → Replaying → Outcome Replaying
place_file info r = elim (files_of info.hash r.new_files) [
  | [] ↦ out_of_range
  | n ∷ rest ↦ or_fatal (put_at n (full_name info) r.disk) >>= λ d.
      done (record { disk = d; new_files = insert info.hash rest r.new_files })
]

pub make_link : FileAttr → Disk → Outcome Disk
make_link info d =
    let d' : Disk = elim (remove (full_name info) d) [ none ↦ d | some e ↦ e ] in
    or_fatal (make_symlink info.link (full_name info) d')

-- `Chtimes` and `Chmod`
pub set_mode : FileAttr → Disk → Outcome Disk
set_mode info d = elim (lookup (full_name info) d) [ none ↦ fatal | some _ ↦ done d ]

pub on_disk : Replaying → Outcome Disk → Outcome Replaying
on_disk r o = o >>= λ d. done (record r { disk = d })

pub with_dir : FileAttr → Replaying → Outcome Replaying
with_dir info r = if is_dir info then on_disk r (make_dir info r.disk) else done r

pub with_file : FileAttr → Replaying → Outcome Replaying
with_file info r = if not (is_empty info.hash) then place_file info r else done r

pub with_link : FileAttr → Replaying → Outcome Replaying
with_link info r = if not (is_empty info.link) then on_disk r (make_link info r.disk) else done r

pub with_mode : FileAttr → Replaying → Outcome Replaying
with_mode info r =
    if is_empty info.hash && not (is_symlink info) then on_disk r (set_mode info r.disk) else done r

-- One round of the loop of `replayFileModifications`, on the disk.
pub replay_one : Dict Bytes Bytes → FileAttr → Replaying → Outcome Replaying
replay_one del info r =
    if deletion info
    then delete_file del info r
    else with_dir info r >>= with_file info >>= with_link info >>= with_mode info

-- The attributes that are read again for `attributes.Update`.
pub reread : (Option Node → Option Attr) → FileAttr → Disk → FileAttr
reread to_attr info d =
    if deletion info then info else record info { attr = to_attr (lookup (full_name info) d) }

-- `replayFileModifications`: the disk, and what `Update` is given. The files that are left are removed.
pub replay_files :
    (Option Node → Option Attr)
    → Dict Bytes Bytes
    → List FileAttr
    → Replaying
    → Outcome (Replaying × List FileAttr)
replay_files to_attr del [] r = done (r, [])
replay_files to_attr del (info ∷ files) r = replay_one del info r >>= λ s.
    (replay_files to_attr del files s >>= λ (t, infos).
    done (t, reread to_attr info s.disk ∷ infos))

-- `replay`; a path that the content store does not have is a panic, which is fatal too.
pub replay :
    (Bytes → FileAttr)
    → Store
    → (Option Node → Option Attr)
    → List FileAttr
    → Disk
    → Outcome (Replaying × List FileAttr)
replay get st to_attr files d = elim (prepare get st files nothing_prepared) [
  | none ↦ fatal
  | some s ↦
      replay_files to_attr s.del_file_hashes files (record { disk = d; new_files = s.new_files })
]
