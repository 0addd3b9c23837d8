-- ===== src/Attr/RpcFs/Laws.antt =====
-- The answers agree with each other.
use termite.Base.{◌≡◌, Bool, true, false, some, arith, ◌⊎◌}
use termite.Attr.FileAttr.{FileAttr, deletion, ok, status}
use termite.Attr.RpcFs.{open_dir, open_file, readlink, get_attr, access}

-- If a name can be opened for reading, read as a link or listed as a directory, then `GetAttr` and `Access`
-- find it, with attributes, and it is not a deletion.
pub get_attr-ok :
    (fetch_hash : FileAttr → Bool) (writes : Bool) (r : FileAttr)
    → ((open_file writes fetch_hash (some r)).1 ≡ ok)
      ⊎ (((readlink (some r)).1 ≡ ok) ⊎ ((open_dir r).1 ≡ ok))
    → (get_attr (some r) ≡ (r.attr, ok)) × (access true writes (some r) ≡ ok) × (deletion r ≡ false)
unfolding open_file readlink open_dir get_attr access status
get_attr-ok fetch_hash writes r h = ground arith
