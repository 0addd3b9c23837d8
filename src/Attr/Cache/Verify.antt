-- ===== src/Attr/Cache/Verify.antt =====
-- `verify` of attr/attrcache.go, which `update` ends with where `Paranoia` is set. `false` is a panic.
pub mod Sound
pub mod Stored
pub mod Keeps
mod Tests
use termite.Base.{
  ℕ, Bytes, Bool, true, false, not, ◌&&◌, ◌||◌, List, [], ◌∷◌, Option, none, some, ◌==◌, nat_eq,
  bytes_eq, if◌then◌else◌, Dict, lookup, has, is_empty, slash, clean,
}
use termite.Paths.{split_path}
use termite.Attr.FileAttr.{FileAttr, deletion, is_dir}
use termite.Attr.Cache.{Cache, child_mode, names_none}

-- No NUL and no slash.
pub is_plain : Bytes → Bool
is_plain [] = true
is_plain (c ∷ s) = not (c == 0) && not (c == slash) && is_plain s

pub check_names : Dict Bytes ℕ → Bool
check_names [] = true
check_names ((child, mode) ∷ m) =
    is_plain child && not (is_empty child) && not (mode == 0) && check_names m

pub check_children : FileAttr → Bool
unfolding check_names
check_children v = elim v.names [ none ↦ true | some m ↦ check_names m ]

-- What the parent must say of a name that is a deletion, or that is none.
pub check_parent : Option FileAttr → Bool → Bytes → Bool
check_parent none gone base = gone
check_parent (some p) gone base =
    if gone then child_mode p.names base == 0 else not (child_mode p.names base == 0)

pub check_entry : Cache → Bytes → FileAttr → Bool
unfolding check_parent check_children
check_entry c k v =
    let (dir, base) = split_path k in
    (is_empty k || clean k == k)
    && v.path == k
    && not (has k c.busy)
    && not (deletion v)
    && not (is_dir v && names_none v)
    && check_children v
    && (base == k || check_parent (lookup dir c.attributes) (deletion v) base)

pub check_entries : Cache → Dict Bytes FileAttr → Bool
unfolding check_entry
check_entries c [] = true
check_entries c ((k, v) ∷ m) = check_entry c k v && check_entries c m

-- The argument is `Paranoia`.
pub verify : Bool → Cache → Bool
unfolding check_entries
verify false c = true
verify true c = check_entries c c.attributes
