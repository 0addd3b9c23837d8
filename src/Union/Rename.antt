-- ===== src/Union/Rename.antt =====
-- `Rename` of fs/memunionfs.go: what is below a directory that is moved is made into nodes first. The
-- recursion over the tree runs on fuel, `none` where it is used up.
pub mod Listing
mod Tests
use termite.Base.{
  ℕ, zero, suc, Bytes, Bool, true, false, not, ◌&&◌, ◌||◌, List, [], ◌∷◌, Option, none, some,
  if◌then◌else◌, ◌==◌, nat_eq, bytes_eq, Dict, is_empty,
}
use termite.Attr.FileAttr.{Attr, Status, ok, enoent}
use termite.Union.Tree.{Inodes}
use termite.Union.{
  ReadOnly, MemNode, MemUnionFs, shows_original, mark_deleted, touch_node, set_node, add_child,
  lookup_child,
}

module _ (I : Inodes) (ro : ReadOnly) (now : ℕ × ℕ) where
  -- The loop of `materializeSelf`.
  pub lookup_all : ℕ → List (Bytes × ℕ) → MemUnionFs I.Table → MemUnionFs I.Table
  lookup_all i [] s = s
  lookup_all i ((name, _) ∷ stream) s = lookup_all i stream (lookup_child I ro now i name s).1

  pub set_changed : ℕ → MemUnionFs I.Table → MemUnionFs I.Table
  set_changed i s = set_node i (record (s.nodes i) { changed = true }) s

  pub clear_original : ℕ → MemUnionFs I.Table → MemUnionFs I.Table
  clear_original i s = set_node i (record (s.nodes i) { original = [] }) s

  pub materialize_self : ℕ → MemUnionFs I.Table → MemUnionFs I.Table
  materialize_self i s =
      let s' = set_changed i s in
      if not (I.is_dir i s'.table)
      then s'
      else clear_original i (lookup_all i (ro.open_dir (s'.nodes i).original) s')

  pub for_children :
      (ℕ → MemUnionFs I.Table → Option (MemUnionFs I.Table))
      → Dict Bytes ℕ
      → MemUnionFs I.Table
      → Option (MemUnionFs I.Table)
  for_children f [] s = some s
  for_children f ((_, c) ∷ children) s = elim (f c s) [
    | none ↦ none
    | some s' ↦ for_children f children s'
  ]

  pub materialize : ℕ → ℕ → MemUnionFs I.Table → Option (MemUnionFs I.Table)
  materialize zero i s = none
  materialize (suc fuel) i s =
      let s' = materialize_self i s in
      for_children
        (λ c t. let deeper = materialize fuel c t in if I.is_dir c t.table then deeper else some t)
        (I.children i s'.table) s'

  pub mark_changed : ℕ → ℕ → MemUnionFs I.Table → Option (MemUnionFs I.Table)
  mark_changed zero i s = none
  mark_changed (suc fuel) i s =
      let s' = set_changed i s in for_children (mark_changed fuel) (I.children i s'.table) s'

  -- What the moved node has below it is made.
  pub detach : ℕ → ℕ → MemUnionFs I.Table → Option (MemUnionFs I.Table)
  detach fuel c s =
      if shows_original I ro c s
      then elim (materialize fuel c s) [ none ↦ none | some s' ↦ mark_changed fuel c s' ]
      else some s

  pub rename : ℕ → ℕ → Bytes → ℕ → Bytes → MemUnionFs I.Table → Option (Status × MemUnionFs I.Table)
  rename fuel p old_name new_parent new_name s =
      let (found, t) = I.rm_child p old_name s.table in
      elim found [
        | none ↦ some (enoent, record s { table = t })
        | some c ↦ elim (detach fuel c (mark_deleted I ro p old_name (record s { table = t }))) [
          | none ↦ none
          | some s' ↦
              let freed = (I.rm_child new_parent new_name s'.table).1 in
              let moved = record s' { table = I.add_child new_parent new_name c freed } in
              some (ok, touch_node I ro now p moved)
        ]
      ]
