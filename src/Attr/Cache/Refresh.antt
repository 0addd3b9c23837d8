-- ===== src/Attr/Cache/Refresh.antt =====
-- `Refresh` of attr/attrcache.go: the cached files that are no longer as they were. `stat` is the statter, `get`
-- the getter. The workers of a pool send what they find; it is sorted, so their order makes no difference.
-- `none` is a panic: a file without attributes, or a getter that fails.
pub mod Changes
mod Tests
use termite.Base.{
  Bytes, Bool, true, false, List, [], ◌∷◌, Option, none, some, if◌then◌else◌, Dict, has_prefix,
}
use termite.Attr.FileAttr.{Attr, FileAttr, deleted, fuse_attr_eq}
use termite.Attr.FileSet.{sort}
use termite.Attr.Cache.{Cache, leading_slash, update}

module _ (stat : Bytes → Option Attr) (get : Bytes → Option FileAttr) where
  -- What a worker finds of one file, before what is found of others.
  pub refresh_one : FileAttr → List FileAttr → Option (List FileAttr)
  refresh_one t rest = elim (stat t.path) [
    | none ↦ some (deleted t.path ∷ rest)
    | some a ↦ elim t.attr [
      | none ↦ none
      | some b ↦
          if fuse_attr_eq a b
          then some rest
          else elim (get t.path) [ none ↦ none | some e ↦ some (record e { path = t.path } ∷ rest) ]
    ]
  ]

  pub refresh_files : Bytes → Dict Bytes FileAttr → Option (List FileAttr)
  unfolding refresh_one
  refresh_files prefix [] = some []
  refresh_files prefix ((k, t) ∷ m) = elim (refresh_files prefix m) [
    | none ↦ none
    | some rest ↦ if has_prefix k prefix then refresh_one t rest else some rest
  ]

  pub refresh : Cache → Bytes → Option (Cache × List FileAttr)
  unfolding refresh_files
  refresh c prefix =
      if leading_slash prefix then none else elim (refresh_files prefix c.attributes) [
        | none ↦ none
        | some found ↦ elim (update c (sort found)) [
          | none ↦ none
          | some c' ↦ some (c', sort found)
        ]
      ]
