-- ===== src/Attr/Cache/Verify/Stored.antt =====
-- What a round of `update` does to the keys and to the busy names.
use termite.Base.{
  ◌≡◌, subst, inl, inr, Bytes, false, ◌&&◌, [], Option, none, some, ◌==◌, nat_eq, bytes_eq, Dict,
  lookup, erase, NodupKeys, insert-NodupKeys, erase-NodupKeys, lookup-insert, lookup-erase, has,
  arith, Bool-cases, Option-cases,
}
use termite.Attr.FileAttr.{FileAttr, deletion, is_dir, merge}
use termite.Attr.Cache.{Cache, names_none, store_merged, store_attr}

-- Entries are not busy.
abbrev pub IsIdle : Cache → Type 0
IsIdle c = (k : Bytes) (a : FileAttr) → lookup k c.attributes ≡ some a → has k c.busy ≡ false

store_merged-IsIdle :
    (c c' : Cache) (r : FileAttr) (o : Option FileAttr)
    → IsIdle c
    → store_merged c r o ≡ some c'
    → IsIdle c'
unfolding store_merged has
store_merged-IsIdle c c' r none i u k b e = cc
store_merged-IsIdle c c' r (some a) i u k b e = elim (Bool-cases (k == r.path)) [
  | inl same ↦ ground (arith, lookup-erase k r.path c.busy)
  | inr other ↦
      ground (arith, lookup-erase k r.path c.busy, lookup-insert k r.path a c.attributes, i k b)
]

pub store_attr-IsIdle :
    (c c' : Cache) (r : FileAttr) → IsIdle c → store_attr c r ≡ some c' → IsIdle c'
unfolding store_attr
store_attr-IsIdle c c' r i u = elim (Bool-cases (deletion r)) [
  | inl gone ↦ λ k b e. ground (arith, lookup-erase k r.path c.attributes, i k b)
  | inr stays ↦ elim (Option-cases (lookup r.path c.attributes)) [
    | inl new ↦ elim (Bool-cases (is_dir r && names_none r)) [
      | inl bare ↦ λ k b e. ground (arith, i k b)
      | inr whole ↦ store_merged-IsIdle c c' r (some r) i (ground arith)
    ]
    | inr (old, there) ↦ store_merged-IsIdle c c' r (merge old r) i (ground arith)
  ]
]

NodupKeys-some :
    (t c' : Cache) → some t ≡ some c' → NodupKeys t.attributes → NodupKeys c'.attributes
NodupKeys-some t c' u =
    subst
      (λ o. NodupKeys (elim o as (λ _. Dict Bytes FileAttr) [ none ↦ [] | some t ↦ t.attributes ]))
      u

store_merged-NodupKeys :
    (c c' : Cache) (r : FileAttr) (o : Option FileAttr)
    → NodupKeys c.attributes
    → store_merged c r o ≡ some c'
    → NodupKeys c'.attributes
unfolding store_merged
store_merged-NodupKeys c c' r none n u = cc
store_merged-NodupKeys c c' r (some a) n u =
    NodupKeys-some _ c' u (insert-NodupKeys r.path a c.attributes n)

pub store_attr-NodupKeys :
    (c c' : Cache) (r : FileAttr)
    → NodupKeys c.attributes
    → store_attr c r ≡ some c'
    → NodupKeys c'.attributes
unfolding store_attr
store_attr-NodupKeys c c' r n u = elim (Bool-cases (deletion r)) [
  | inl gone ↦
      NodupKeys-some (record c { attributes = erase r.path c.attributes }) c' (ground arith)
        (erase-NodupKeys r.path c.attributes n)
  | inr stays ↦ elim (Option-cases (lookup r.path c.attributes)) [
    | inl new ↦ elim (Bool-cases (is_dir r && names_none r)) [
      | inl bare ↦ NodupKeys-some c c' (ground arith) n
      | inr whole ↦ store_merged-NodupKeys c c' r (some r) n (ground arith)
    ]
    | inr (old, there) ↦ store_merged-NodupKeys c c' r (merge old r) n (ground arith)
  ]
]
