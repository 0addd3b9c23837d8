-- ===== src/Union/Reset.antt =====
-- `Reset` of fs/memunionfs.go, which drops what a task has changed. The notices to the kernel and the files of
-- the backing store are left out; the recursion over the tree runs on fuel, `none` where it is used up.
mod Tests
use termite.Base.{
  ℕ, zero, suc, Bytes, Bool, true, false, not, ◌||◌, List, [], ◌∷◌, Option, none, some,
  if◌then◌else◌, ◌==◌, nat_eq, bytes_eq, Dict, is_empty,
}
use termite.Paths.{join}
use termite.Attr.FileAttr.{Attr, Status}
use termite.Union.Tree.{Inodes}
use termite.Union.{ReadOnly, MemNode, MemUnionFs, set_node}

module _ (I : Inodes) (ro : ReadOnly) where
  unfoldable pub drop_child : Bool → ℕ → Bytes → MemUnionFs I.Table → MemUnionFs I.Table
  drop_child notify i name s =
      if notify then record s { table = (I.rm_child i name s.table).1 } else s

  unfoldable pub reset_children :
      (Bytes → ℕ → MemUnionFs I.Table → Option (Bool × MemUnionFs I.Table))
      → Bytes
      → ℕ
      → Dict Bytes ℕ
      → MemUnionFs I.Table
      → Option (MemUnionFs I.Table)
  reset_children f path i [] s = some s
  reset_children f path i ((name, c) ∷ children) s = elim (f (join path name) c s) [
    | none ↦ none
    | some (notify, s') ↦ reset_children f path i children (drop_child notify i name s')
  ]

  -- What `reset` does with the node after its children, and `entryNotify`.
  unfoldable pub reset_self : Bytes → ℕ → MemUnionFs I.Table → Bool × MemUnionFs I.Table
  reset_self path i s =
      let n = s.nodes i in
      if not (is_empty n.backing) || not (n.original == path)
      then (true, s)
      else if n.changed
      then found (ro.get_attr n.original)
      else (false, s)
    where
      found : Option Status × Attr → Bool × MemUnionFs I.Table
      found (some code, _) = (true, s)
      found (none, info) = (false, set_node i (record (s.nodes i) { info = info }) s)

  -- `reset` of a node
  unfoldable pub reset_node :
      ℕ → Bytes → ℕ → MemUnionFs I.Table → Option (Bool × MemUnionFs I.Table)
  reset_node zero path i s = none
  reset_node (suc fuel) path i s =
      elim (reset_children (reset_node fuel) path i (I.children i s.table) s) [
        | none ↦ none
        | some s' ↦ some (reset_self path i s')
      ]

  unfoldable pub reset : ℕ → MemUnionFs I.Table → Option (MemUnionFs I.Table)
  reset fuel s = elim (reset_node fuel [] s.root s) [
    | none ↦ none
    | some (_, s') ↦ some (record s' { deleted = [] })
  ]
