-- ===== src/Master/Expose/Tests.antt =====
-- A master that keeps its private files to itself.
use termite.Base.{
  ℕ, ◌≡◌, refl, Bytes, codes, Bool, true, false, List, [], ◌∷◌, Option, none, some, if◌then◌else◌,
  ◌==◌, bytes_eq, Dict, is_empty,
}
use termite.Attr.FileAttr.{Attr, FileAttr, deleted, deletion, is_regular}
use termite.Cba.Fetch.{Store}
use termite.Master.Expose.{Options, Disk, uncached_get_attr}
use termite.Master.Expose.Private.{IsHidden, IsContent, uncached_get_attr-exposed}

abbrev mode_of : ℕ → Attr
mode_of mode = record {
  ino = 1;
  size = 4;
  mtime = 0;
  mtimensec = 0;
  mode = mode;
  nlink = 1;
  uid = 0;
  gid = 0;
}

abbrev options : Options
options = record {
  socket = codes "/sock";
  log_file = codes "/log";
  expose_private = false;
  xattr_cache = true;
  uid = 0;
  writable_root = codes "/";
  source_root = [];
}

abbrev disk : Disk
disk = record {
  lstat = λ p. if p == codes "/key" then some (mode_of 0o100600) else some (mode_of 0o100644);
  getxattr = λ p. none;
  read_dir = λ p. none;
  read_link = λ p. none;
  sum_file = λ p. none;
  save_path = λ p. 4 ∷ [];
}

abbrev store : Store
store = record { dir = codes "/cas"; files = [] }

abbrev shown : FileAttr
shown = uncached_get_attr options [] disk store (codes "f")

uncached_get_attr-exposed_example :
    (IsHidden options [] disk store (codes "f") → ⊥)
    × (is_regular shown ≡ true
        → (is_empty shown.hash ≡ false)
          × IsContent options [] disk store (codes "f") (codes "/f") shown.hash)
unfolding deletion uncached_get_attr termite.Base.bytes_beq termite.Master.Expose.is_private
    termite.Base.has termite.Master.Expose.find_content termite.Master.Expose.cached_hash
    termite.Master.Expose.xattr_possible is_regular termite.Master.Expose.under is_empty
    termite.Base.has_prefix termite.Master.Expose.read_xattr termite.Master.Expose.fill_content
    termite.Attr.FileAttr.is_symlink termite.Attr.FileAttr.is_dir
uncached_get_attr-exposed_example = uncached_get_attr-exposed options [] disk store (codes "f") refl

key_hidden : uncached_get_attr options [] disk store (codes "key") ≡ deleted (codes "key")
unfolding uncached_get_attr deleted termite.Base.bytes_beq termite.Master.Expose.is_private
key_hidden = refl
