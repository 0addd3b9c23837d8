-- ===== src/Master/Expose.antt =====
-- termite/master.go: `uncachedGetAttr`, the getter of the master's attribute cache, and `fillContent`; and
-- `CheckPrivate`; and `ReadFromFs` of attr/fileattr.go. What the file system answers is a parameter: `lstat`, the
-- extended attribute, the names of a directory, each with the mode that `fuse.ToAttr` finds, the target of a link,
-- the sum of what is read of a file, and the hash under which `SavePath` stores a file, "" where it fails.
pub mod Private
mod Tests
use termite.Base.{
  ℕ, zero, suc, ◌/◌, ◌%◌, Bytes, Bool, true, false, not, ◌&&◌, ◌||◌, List, [], ◌∷◌, Option, none,
  some, if◌then◌else◌, ◌==◌, nat_eq, bytes_eq, Dict, insert, has, is_empty, has_prefix, slash,
  length,
}
use termite.Paths.{split_path}
use termite.Attr.FileAttr.{Attr, FileAttr, deleted, is_dir, is_regular, is_symlink, type_bits}
use termite.Attr.FileAttr.Encoded.{EncodedAttr, from_attr, eq, decode}
use termite.Cba.Fetch.{Store, has_hash}

pub record Options : Type 0 where
  pub socket : Bytes
  pub log_file : Bytes
  pub expose_private : Bool
  pub xattr_cache : Bool
  pub uid : ℕ
  pub writable_root : Bytes
  pub source_root : Bytes

pub record Disk : Type 0 where
  pub lstat : Bytes → Option Attr
  pub getxattr : Bytes → Option Bytes
  pub read_dir : Bytes → Option (List (Bytes × Option ℕ))
  pub read_link : Bytes → Option Bytes
  pub sum_file : Bytes → Option Bytes
  pub save_path : Bytes → Bytes

pub nobody : EncodedAttr
nobody = record { size = 0; mtimens = 0; perm = 0; nlink = 0 }

-- `fi.Mode().Perm() & 0077 == 0`
pub is_private : Attr → Bool
is_private a = a.mode % 0o100 == 0

pub under : Bytes → Bytes → Bool
under root p = not (is_empty root) && has_prefix p root

pub xattr_possible : Options → Bytes → FileAttr → Bool
xattr_possible o p rep = elim rep.attr [
  | none ↦ false
  | some a ↦
      is_regular rep
      && o.xattr_cache
      && a.uid == o.uid
      && (under o.writable_root p || under o.source_root p)
]

-- `ReadXAttr`, and whether what it read is of the attributes now.
pub read_xattr : Disk → Bytes → Attr → Option Bytes
read_xattr d p a = elim (d.getxattr p) [
  | none ↦ none
  | some val ↦ let (disk, hash) = decode nobody val in if eq (from_attr a) disk then hash else none
]

-- The hash that is taken from the extended attribute.
pub cached_hash : Options → Disk → Store → Bytes → FileAttr → Option Bytes
cached_hash o d st p rep = elim rep.attr [
  | none ↦ none
  | some a ↦
      let hash = read_xattr d p a in
      if xattr_possible o p rep
      then elim hash [ none ↦ none | some h ↦ if has_hash st h then some h else none ]
      else none
]

-- The loop over a directory
pub names_of : List (Bytes × Option ℕ) → Dict Bytes ℕ
names_of [] = []
names_of ((name, none) ∷ l) = names_of l
names_of ((name, some mode) ∷ l) = insert name (type_bits mode) (names_of l)

pub read_from_fs : Disk → Bytes → FileAttr → FileAttr
read_from_fs d p me =
    if is_regular me
    then elim (d.sum_file p) [ none ↦ record me { attr = none } | some h ↦ record me { hash = h } ]
    else if is_dir me
    then elim (d.read_dir p) [
      | none ↦ record me { attr = none }
      | some l ↦ record me { names = some (names_of l) }
    ]
    else if is_symlink me
    then elim (d.read_link p) [ none ↦ record me { attr = none } | some l ↦ record me { link = l } ]
    else me

pub fill_content : Disk → Bytes → FileAttr → FileAttr
fill_content d p rep =
    if is_symlink rep || is_dir rep
    then read_from_fs d p rep
    else if is_regular rep
    then (let hash = d.save_path p in
        record rep { hash = hash; attr = if is_empty hash then none else rep.attr })
    else rep

-- What is found of a file that may be shown.
pub find_content : Options → Disk → Store → Bytes → FileAttr → FileAttr
find_content o d st p rep = elim (cached_hash o d st p rep) [
  | some h ↦ record rep { hash = h }
  | none ↦ elim rep.attr [ none ↦ rep | some _ ↦ fill_content d p rep ]
]

pub uncached_get_attr : Options → Dict Bytes Bool → Disk → Store → Bytes → FileAttr
uncached_get_attr o excluded d st name =
    let p = slash ∷ name in
    let rep = deleted name in
    let denied : Bool = elim (d.lstat p) [
      | none ↦ false
      | some a ↦ not o.expose_private && is_private a
    ] in
    if p == o.socket || p == o.log_file
    then rep
    else if denied
    then rep
    else if has name excluded
    then rep
    else find_content o d st p (record rep { attr = d.lstat p })

-- The loop of `CheckPrivate`; false is one of its `log.Fatal`s.
pub check_dirs : (Bytes → Option Attr) → ℕ → Bytes → Bool
check_dirs lstat zero d = true
check_dirs lstat (suc fuel) d =
    let up = check_dirs lstat fuel (split_path d).0 in
    if is_empty d then true else elim (lstat d) [ none ↦ false | some a ↦ not (is_private a) && up ]

pub check_private : Options → (Bytes → Option Attr) → Bool
check_private o lstat =
    if o.expose_private
    then true
    else check_dirs lstat (suc (length o.writable_root)) o.writable_root
