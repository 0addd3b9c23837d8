-- ===== src/Attr/Cache/Linked.antt =====
-- The invariant that attrcache.go states and that `verify` checks: every entry is under its own
-- path, is no deletion, has its names if it is a directory, and stands in the listing of a cached
-- directory.
use termite.Base.{
  ℕ, ◌≡◌, ◌≢◌, refl, sym, ◌∙◌, inl, inr, Bytes, true, false, ◌&&◌, ◌∷◌, ◌++◌, some, ◌==◌, nat_eq,
  bytes_eq, bytes_iff, if◌then◌else◌, Dict, lookup, insert, erase, lookup-insert, lookup-erase,
  is_empty, arith, slash, Option-cases,
}
use termite.Paths.{split_path}
use termite.Attr.FileAttr.{FileAttr, deletion, is_dir, merge, type_bits}
use termite.Attr.Cache.{Cache, child_mode, names_none, mode_of, list_names}
use termite.Attr.Cache.Update.{entry_after, dir_after}

-- A path that is its directory and its last component, with one slash between.
abbrev pub IsClean : Bytes → Type 0
IsClean k = k ≡ (
    if is_empty (split_path k).0
    then (split_path k).1
    else (split_path k).0 ++ slash ∷ (split_path k).1)

module _ (attributes : Dict Bytes FileAttr) where
  -- A path with no slash is not looked for in the root, as in `verify`.
  abbrev pub HasParent : Bytes → Type 0
  HasParent k =
      (split_path k).1 ≢ k
      → (p : FileAttr) × (lookup (split_path k).0 attributes ≡ some p)
        × (child_mode p.names (split_path k).1 ≢ 0)

  pub record IsEntry (k : Bytes) (a : FileAttr) : Type 0 where
    pub keyed : a.path ≡ k
    pub clean : IsClean k
    pub present : deletion a ≡ false
    pub full : is_dir a ≡ true → names_none a ≡ false
    pub parent : HasParent k

  abbrev pub IsLinked : Type 0
  IsLinked = (k : Bytes) (a : FileAttr) → lookup k attributes ≡ some a → IsEntry k a

pub split_path-injective :
    (k j : Bytes)
    → IsClean k
    → IsClean j
    → (split_path k).0 ≡ (split_path j).0
    → (split_path k).1 ≡ (split_path j).1
    → k ≡ j
split_path-injective k j ck cj d b = ck ∙ rw (d, b) (sym cj)

-- What an update of a linked cache may do: its path is clean, its mode has a type, a directory that
-- comes without its names does not take the place of another kind of file, and what is cached
-- below the path is listed by what the update leaves there.
pub record IsFit (c : Cache) (r : FileAttr) : Type 0 where
  pub named : is_empty (split_path r.path).1 ≡ false
  pub clean : IsClean r.path
  pub typed : deletion r ≡ false → type_bits (mode_of r) ≢ 0
  pub known :
      (is_dir r && names_none r) ≡ true
      → (old : FileAttr) → lookup r.path c.attributes ≡ some old
      → names_none old ≡ false
  pub below :
      (k : Bytes) (a : FileAttr)
      → lookup k c.attributes ≡ some a
      → (split_path k).0 ≡ r.path
      → (split_path k).1 ≢ k
      → (e : FileAttr) × (entry_after (lookup r.path c.attributes) r ≡ some e)
        × (child_mode e.names (split_path k).1 ≢ 0)

child_mode-insert :
    (m : Dict Bytes ℕ) (b j : Bytes) (v : ℕ)
    → child_mode (some (insert b v m)) j ≡ (if j == b then v else child_mode (some m) j)
unfolding child_mode
child_mode-insert m b j v = ground (arith, lookup-insert j b v m)

child_mode-erase :
    (m : Dict Bytes ℕ) (b j : Bytes)
    → child_mode (some (erase b m)) j ≡ (if j == b then 0 else child_mode (some m) j)
unfolding child_mode
child_mode-erase m b j = ground (arith, lookup-erase j b m)

-- The names of the directory change at the last component of the path only.
pub child_mode-dir_after :
    (d r : FileAttr) (j : Bytes)
    → j ≢ (split_path r.path).1
    → child_mode (dir_after d r).names j ≡ child_mode d.names j
unfolding dir_after list_names
child_mode-dir_after d r j n = elim (Option-cases d.names) [
  | inl e ↦ rw e refl
  | inr (m, e) ↦ ground (
    arith,
    child_mode-insert m (split_path r.path).1 j (type_bits (mode_of r)),
    child_mode-erase m (split_path r.path).1 j,
    bytes_iff j (split_path r.path).1,
  )
]

pub child_mode-dir_after_self :
    (d r : FileAttr) (m : Dict Bytes ℕ)
    → deletion r ≡ false
    → d.names ≡ some m
    → child_mode (dir_after d r).names (split_path r.path).1 ≡ type_bits (mode_of r)
unfolding dir_after list_names
child_mode-dir_after_self d r m stays e = ground (
  arith,
  child_mode-insert m (split_path r.path).1 (split_path r.path).1 (type_bits (mode_of r)),
  bytes_iff (split_path r.path).1 (split_path r.path).1,
)

-- `Merge` keeps the type of the update, and a directory has names after it if either side has.
merge-names :
    (old r a : FileAttr)
    → merge old r ≡ some a
    → ((is_dir r && names_none r) ≡ true → names_none old ≡ false)
    → (a.path ≡ r.path)
      × (deletion r ≡ false)
      × (deletion a ≡ false)
      × (is_dir a ≡ true → names_none a ≡ false)
unfolding merge deletion is_dir names_none
merge-names old r a e h = ground (arith, bytes_iff r.path old.path)

pub entry_after-IsEntry :
    (c : Cache) (r a : FileAttr)
    → IsFit c r
    → entry_after (lookup r.path c.attributes) r ≡ some a
    → (a.path ≡ r.path)
      × (deletion r ≡ false)
      × (deletion a ≡ false)
      × (is_dir a ≡ true → names_none a ≡ false)
unfolding entry_after
entry_after-IsEntry c r a f e = elim (Option-cases (lookup r.path c.attributes)) [
  | inl q ↦ (ground arith, ground arith, ground arith, λ d. ground arith)
  | inr (old, q) ↦ merge-names old r a (ground arith) (λ h. f.known h old q)
]
