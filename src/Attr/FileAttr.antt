-- ===== src/Attr/FileAttr.antt =====
-- attr/fileattr.go. Of `fuse.Attr` the fields that the program reads.
pub mod Encoded
mod Tests
use termite.Base.{
  ℕ, ◌+◌, ◌*◌, ◌/◌, ◌%◌, ◌^◌, Bytes, Bool, true, false, ◌&&◌, List, [], ◌∷◌, ◌++◌, Option, none,
  some, ltb, length, ◌==◌, nat_eq, bytes_eq, if◌then◌else◌, Dict,
}

pub record Attr : Type 0 where
  pub ino : ℕ
  pub size : ℕ
  pub mtime : ℕ
  pub mtimensec : ℕ
  pub mode : ℕ
  pub nlink : ℕ
  pub uid : ℕ
  pub gid : ℕ

pub record FileAttr : Type 0 where
  pub path : Bytes
  pub attr : Option Attr
  pub hash : Bytes
  pub link : Bytes
  -- `NameModeMap`; `none` is nil.
  pub names : Option (Dict Bytes ℕ)

-- A `FileAttr` of which only the path is given: a deletion.
unfoldable pub deleted : Bytes → FileAttr
deleted path = record { path = path; attr = none; hash = []; link = []; names = none }

unfoldable pub deletion : FileAttr → Bool
deletion a = elim a.attr [ none ↦ true | some _ ↦ false ]

pub data Status : Type 0 where
  ok enoent einval eperm eio eacces : Status

unfoldable pub status : FileAttr → Status
unfolding deletion
status a = if deletion a then enoent else ok

-- `mode & S_IFMT`: bits 12 to 15.
unfoldable pub file_type : ℕ → ℕ
file_type mode = mode / 4096 % 16 * 4096

-- `mode &^ 07777`
unfoldable pub type_bits : ℕ → ℕ
type_bits mode = mode / 4096 * 4096

unfoldable pub has_type : ℕ → FileAttr → Bool
unfolding file_type
has_type t a = elim a.attr [ none ↦ false | some b ↦ file_type b.mode == t ]

unfoldable pub is_dir : FileAttr → Bool
unfolding has_type
is_dir = has_type 0o040000

unfoldable pub is_regular : FileAttr → Bool
unfolding has_type
is_regular = has_type 0o100000

unfoldable pub is_symlink : FileAttr → Bool
unfolding has_type
is_symlink = has_type 0o120000

-- `Copy`; the map is copied too, so the copy shares nothing with the original.
unfoldable pub copy : FileAttr → Bool → FileAttr
copy a withdir = record a { names = if withdir then a.names else none }

-- `Merge` into `me`; `none` is one of its panics.
unfoldable pub merge : FileAttr → FileAttr → Option FileAttr
unfolding deletion is_dir
merge me r =
    if r.path == me.path
    then if deletion r
      then none
      else some (record r {
        names = if is_dir r then elim r.names [ none ↦ me.names | some m ↦ some m ] else none;
      })
    else none

unfoldable pub fuse_attr_eq : Attr → Attr → Bool
fuse_attr_eq a b =
    a.mode == b.mode
    && (a.size == b.size
        && (a.mtime == b.mtime
            && (a.nlink == b.nlink
                && (a.ino == b.ino
                    && (a.mtimensec == b.mtimensec && (a.uid == b.uid && a.gid == b.gid))))))
