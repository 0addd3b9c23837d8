-- ===== src/Attr/Cache/Update.antt =====
-- What `update` changes, and that a `Get` behind it sees the change.
use termite.Base.{
  ◌+◌, ◌≤◌, ◌≡◌, ◌≢◌, refl, ap, inl, inr, Bytes, false, ◌&&◌, [], ◌∷◌, Option, none, some, length,
  ◌==◌, nat_eq, bytes_eq, bytes_iff, if◌then◌else◌, lookup, insert, lookup-insert, lookup-erase,
  is_empty, arith, trim_right, file_split, Bool-cases, Option-cases,
}
use termite.Paths.{split_path}
use termite.Attr.FileAttr.{FileAttr, deletion, is_dir, merge}
use termite.Attr.Cache.{
  Cache, names_none, list_names, list_in_parent, store_merged, store_attr, update_listed,
  update_one,
}

length-trim_right : (s : Bytes) → length (trim_right s) ≤ length s
unfolding trim_right is_empty
length-trim_right [] = omega arith
length-trim_right (c ∷ s) = ground (arith, length-trim_right s)

length-file_split : (s : Bytes) → length (file_split s).0 + length (file_split s).1 ≡ length s
unfolding file_split is_empty
length-file_split [] = refl
length-file_split (c ∷ s) = ground (arith, length-file_split s)

-- A name that has a last component is longer than its directory.
pub length-split_path : (s : Bytes) → length (split_path s).0 + length (split_path s).1 ≤ length s
unfolding split_path
length-split_path s = omega (arith, length-trim_right (file_split s).0, length-file_split s)

pub length_pos : (s : Bytes) → is_empty s ≡ false → 1 ≤ length s
unfolding is_empty
length_pos [] h = cc
length_pos (c ∷ s) h = omega arith

pub dir-ne : (s : Bytes) → is_empty (split_path s).1 ≡ false → (split_path s).0 ≢ s
dir-ne s h e = omega (arith, length-split_path s, length_pos (split_path s).1 h, ap length e)

-- What an update leaves under its own path, from what stood there: nothing for a deletion, and
-- nothing new for a directory that comes without its names; else the file, where a directory
-- without names keeps those that are known.
unfoldable pub entry_after : Option FileAttr → FileAttr → Option FileAttr
entry_after old r =
    if deletion r
    then none
    else elim old [ none ↦ if is_dir r && names_none r then none else some r | some a ↦ merge a r ]

module _ (c : Cache) (r : FileAttr) where
  store_merged-lookup :
      (o : Option FileAttr) (c' : Cache) (k : Bytes)
      → store_merged c r o ≡ some c'
      → lookup k c'.attributes ≡ (if k == r.path then o else lookup k c.attributes)
  unfolding store_merged
  store_merged-lookup none c' k s = cc
  store_merged-lookup (some a) c' k s = ground (arith, lookup-insert k r.path a c.attributes)

  store_attr-lookup :
      (c' : Cache) (k : Bytes)
      → store_attr c r ≡ some c'
      → lookup k c'.attributes ≡ (
          if k == r.path then entry_after (lookup r.path c.attributes) r else lookup k c.attributes)
  unfolding entry_after store_attr
  store_attr-lookup c' k s = elim (Bool-cases (deletion r)) [
    | inl gone ↦ ground (arith, lookup-erase k r.path c.attributes)
    | inr stays ↦ elim (Option-cases (lookup r.path c.attributes)) [
      | inl e ↦ ground (arith, store_merged-lookup (some r) c' k, bytes_iff k r.path)
      | inr (old, e) ↦ ground (arith, store_merged-lookup (merge old r) c' k)
    ]
  ]

-- What an update leaves under the name of the directory of its path.
unfoldable pub dir_after : FileAttr → FileAttr → FileAttr
dir_after d r = record d {
  names = elim d.names [ none ↦ none | some m ↦ some (list_names r (split_path r.path).1 m) ];
}

-- A round of `update` that does not panic, at a path with a last component whose directory is
-- cached: the directory then lists the name as the update says, the path has what the update leaves
-- there, and every other entry is as before.
pub update_one-lookup :
    (c c' : Cache) (r : FileAttr)
    → is_empty (split_path r.path).1 ≡ false
    → update_one c r ≡ some c'
    → (d : FileAttr) → lookup (split_path r.path).0 c.attributes ≡ some d
    → (k : Bytes)
    → lookup k c'.attributes ≡ (
        if k == r.path
        then entry_after (lookup r.path c.attributes) r
        else if k == (split_path r.path).0
        then some (dir_after d r)
        else lookup k c.attributes)
unfolding update_one list_in_parent update_listed dir_after
update_one-lookup c c' r named u d e k = elim (Option-cases d.names) [
  | inl bare ↦ absurd (ground arith)
  | inr (m, full) ↦
      let path = r.path in
      let dir = (split_path path).0 in
      let d' = record d { names = some (list_names r (split_path path).1 m) } in
      let c1 = record c { attributes = insert dir d' c.attributes } in
      ground (
        arith,
        store_attr-lookup c1 r c' k,
        lookup-insert k dir d' c.attributes,
        lookup-insert path dir d' c.attributes,
        dir-ne path named,
        bytes_iff k path,
        bytes_iff k dir,
        bytes_iff path dir,
      )
]
