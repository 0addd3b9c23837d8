-- ===== src/Attr/RpcFs.antt =====
-- termite/rpcfs.go: what the file system of a worker answers, given the attributes that
-- `AttributeCache` has for the name, `none` for nil. Whether the flags or the mode ask to write, and
-- whether the mode is `F_OK`, are given as these tests on go-fuse's constants; for `Open` also whether
-- `FetchHash` brings the contents. The prefetch that `GetAttr` starts is left out.
pub mod Laws
mod Tests
use termite.Base.{
  ℕ, Bytes, Bool, true, false, not, List, [], ◌∷◌, Option, none, some, if◌then◌else◌, Dict,
}
use termite.Attr.FileAttr.{
  Attr, FileAttr, deletion, Status, ok, enoent, einval, eperm, eio, eacces, status, is_dir,
  is_symlink,
}

-- A directory's entries: `c`, in the order of the map.
pub entries : Option (Dict Bytes ℕ) → Dict Bytes ℕ
entries none = []
entries (some names) = names

pub open_dir : FileAttr → Option (Dict Bytes ℕ) × Status
open_dir r =
    if deletion r
    then (none, enoent)
    else if not (is_dir r)
    then (none, einval)
    else (some (entries r.names), ok)

-- The file that `Open` returns: the hash whose contents it reads, and its attributes.
pub open_file : Bool → (FileAttr → Bool) → Option FileAttr → Option (Bytes × Option Attr) × Status
open_file writes fetch_hash none = (none, if writes then eperm else enoent)
open_file writes fetch_hash (some a) =
    if writes
    then (none, eperm)
    else if deletion a
    then (none, enoent)
    else if fetch_hash a
    then (some (a.hash, a.attr), ok)
    else (none, eio)

pub readlink : Option FileAttr → Bytes × Status
readlink none = ([], enoent)
readlink (some a) =
    if deletion a then ([], enoent) else if not (is_symlink a) then ([], einval) else (a.link, ok)

pub get_attr : Option FileAttr → Option Attr × Status
get_attr none = (none, enoent)
get_attr (some r) = (if not (deletion r) then r.attr else none, status r)

pub access : Bool → Bool → Option FileAttr → Status
access exists writes r = if exists then (get_attr r).1 else if writes then eacces else ok
