-- ===== src/Attr/Cache/Preserve.antt =====
-- `update` keeps the cache linked.
use termite.Base.{
  ◌≡◌, ◌≢◌, sym, ◌∙◌, inl, inr, Bytes, false, none, some, ◌==◌, nat_eq, bytes_eq, bytes_iff,
  if◌then◌else◌, lookup, is_empty, arith, Bool-cases, Option-cases,
}
use termite.Paths.{split_path}
use termite.Attr.FileAttr.{FileAttr, deletion, is_dir}
use termite.Attr.Cache.{Cache, names_none, list_in_parent, update_listed, update_one}
use termite.Attr.Cache.Update.{dir-ne, entry_after, dir_after, update_one-lookup}
use termite.Attr.Cache.Linked.{
  HasParent, IsEntry, IsLinked, IsFit, split_path-injective, child_mode-dir_after,
  child_mode-dir_after_self, entry_after-IsEntry,
}

module _ (c c' : Cache) (r d : FileAttr) (l : IsLinked c.attributes) (f : IsFit c r)
    (u : update_one c r ≡ some c')
    (cached : lookup (split_path r.path).0 c.attributes ≡ some d) where
  abbrev dir : Bytes
  dir = (split_path r.path).0

  after :
      (k : Bytes)
      → lookup k c'.attributes ≡ (
          if k == r.path
          then entry_after (lookup r.path c.attributes) r
          else if k == dir
          then some (dir_after d r)
          else lookup k c.attributes)
  after = update_one-lookup c c' r f.named u d cached

  at_dir : lookup dir c'.attributes ≡ some (dir_after d r)
  at_dir = ground (arith, after dir, bytes_iff dir r.path, bytes_iff dir dir, dir-ne r.path f.named)

  -- The parent of another entry is still there, and still lists it.
  other-HasParent :
      (k : Bytes) (a : FileAttr)
      → lookup k c.attributes ≡ some a
      → k ≢ r.path
      → HasParent c'.attributes k
  other-HasParent k a e n top = elim (Bool-cases (j == r.path)) [
    | inl below ↦
        let j-path : j ≡ r.path = ground (arith, bytes_iff j r.path) in
        let (g, left, lists) = f.below k a e j-path top in (g, ground (arith, after j), lists)
    | inr apart ↦ elim (Bool-cases (j == dir)) [
      | inl beside ↦
          let j-dir : j ≡ dir = ground (arith, bytes_iff j dir) in
          let (p, there, lists) = (l k a e).parent top in
          let p-d : p ≡ d = ground arith in
          let other = λ (q : (split_path k).1 ≡ (split_path r.path).1).
            n (split_path-injective k r.path (l k a e).clean f.clean j-dir q) in
          (
            dir_after d r,
            rw j-dir at_dir,
            λ z. lists (rw p-d (sym (child_mode-dir_after d r (split_path k).1 other) ∙ z)),
          )
      | inr elsewhere ↦
          let (p, there, lists) = (l k a e).parent top in (p, ground (arith, after j), lists)
    ]
  ]
    where
      j : Bytes
      j = (split_path k).0

  path-HasParent : deletion r ≡ false → HasParent c'.attributes r.path
  unfolding update_one list_in_parent update_listed
  path-HasParent stays top = elim (Option-cases d.names) [
    | inl bare ↦ absurd (ground arith)
    | inr (m, some_names) ↦ (
      dir_after d r,
      at_dir,
      λ z. f.typed stays (sym (child_mode-dir_after_self d r m stays some_names) ∙ z),
    )
  ]

  dir-IsEntry :
      IsEntry c.attributes dir d
      → HasParent c'.attributes dir
      → IsEntry c'.attributes dir (dir_after d r)
  unfolding dir_after deletion is_dir names_none
  dir-IsEntry i p = record {
    keyed = i.keyed;
    clean = i.clean;
    present = i.present;
    full = λ q. ground (arith, i.full q);
    parent = p;
  }

  update-IsEntry :
      (k : Bytes) (a : FileAttr) → lookup k c'.attributes ≡ some a → IsEntry c'.attributes k a
  update-IsEntry k a e = elim (Bool-cases (k == r.path)) [
    | inl same ↦
        let k-path : k ≡ r.path = ground (arith, bytes_iff k r.path) in
        let (keyed, stays, present, full) = entry_after-IsEntry c r a f (ground (arith, after k)) in
        rw k-path (record {
          keyed = keyed;
          clean = f.clean;
          present = present;
          full = full;
          parent = path-HasParent stays;
        })
    | inr apart ↦ elim (Bool-cases (k == dir)) [
      | inl beside ↦
          let k-dir : k ≡ dir = ground (arith, bytes_iff k dir) in
          let a-dir : a ≡ dir_after d r = ground (arith, after k) in
          rw (k-dir, a-dir)
            (dir-IsEntry (l dir d cached) (other-HasParent dir d cached (dir-ne r.path f.named)))
      | inr elsewhere ↦
          let before : lookup k c.attributes ≡ some a = ground (arith, after k) in
          let i = l k a before in
          let n : k ≢ r.path = ground (arith, bytes_iff k r.path) in
          record {
            keyed = i.keyed;
            clean = i.clean;
            present = i.present;
            full = i.full;
            parent = other-HasParent k a before n;
          }
    ]
  ]

pub update_one_discarded :
    (c c' : Cache) (r : FileAttr)
    → is_empty (split_path r.path).1 ≡ false
    → lookup (split_path r.path).0 c.attributes ≡ none
    → update_one c r ≡ some c'
    → c' ≡ c
unfolding update_one list_in_parent update_listed
update_one_discarded c c' r named e u = ground arith

-- A round of `update` that does not panic keeps a linked cache linked, if the update is fit: its
-- path is clean and has a last component, its mode has a type, a directory that comes without names
-- meets one that has them or nothing, and what is cached below the path stays listed.
pub update_one-IsLinked :
    (c c' : Cache) (r : FileAttr)
    → IsLinked c.attributes
    → IsFit c r
    → update_one c r ≡ some c'
    → IsLinked c'.attributes
update_one-IsLinked c c' r l f u = elim (Option-cases (lookup (split_path r.path).0 c.attributes)) [
  | inl e ↦ rw (update_one_discarded c c' r f.named e u) l
  | inr (d, e) ↦ update-IsEntry c c' r d l f u e
]
