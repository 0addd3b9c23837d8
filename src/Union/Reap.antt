-- ===== src/Union/Reap.antt =====
-- `Reap` of fs/memunionfs.go, after it has waited for `openWritable` to be 0: what a task has changed and
-- deleted. Both walks, of the file system below and of the nodes, run on fuel, `none` where it is used up.
pub mod Below
pub mod Complete
pub mod Results
mod Tests
use termite.Base.{
  ℕ, zero, suc, ◌/◌, ◌%◌, Bytes, Bool, true, false, not, List, [], ◌∷◌, Option, none, some,
  if◌then◌else◌, ◌==◌, nat_eq, bytes_eq, Dict, insert,
}
use termite.Paths.{join}
use termite.Attr.FileAttr.{Attr, Status, file_type}
use termite.Union.Tree.{Inodes}
use termite.Union.{ReadOnly, MemNode, MemUnionFs, has_dir_bit}

pub record Result : Type 0 where
  pub attr : Option Attr
  pub original : Bytes
  pub backing : Bytes
  pub link : Bytes

pub deletion_result : Result
deletion_result = record { attr = none; original = []; backing = []; link = [] }

unfoldable pub node_result : MemNode → Result
node_result n = record {
  attr = some n.info;
  original = n.original;
  backing = n.backing;
  link = n.link;
}

module _ (ro : ReadOnly) where
  -- One directory of the loop over `todo`: what is listed is deleted, directories are to be done; the last
  -- one that was appended stands first.
  pub delete_listed :
      Bytes → List (Bytes × ℕ) → Dict Bytes Result × List Bytes → Dict Bytes Result × List Bytes
  delete_listed n [] st = st
  delete_listed n ((name, mode) ∷ stream) (m, todo) = delete_listed n stream (
    insert (join n name) deletion_result m,
    (if has_dir_bit mode then join n name ∷ todo else todo),
  )

  pub delete_below : ℕ → List Bytes → Dict Bytes Result → Option (Dict Bytes Result)
  delete_below zero todo m = none
  delete_below (suc fuel) [] m = some m
  delete_below (suc fuel) (n ∷ todo) m =
      let (m', todo') = delete_listed n (ro.open_dir n) (m, todo) in delete_below fuel todo' m'

  -- One of `deleted`; one that is not below any more is left out.
  pub reap_name : ℕ → Bytes → Dict Bytes Result → Option (Dict Bytes Result)
  reap_name fuel name m = found (ro.get_attr name)
    where
      found : Option Status × Attr → Option (Dict Bytes Result)
      found (some code, _) = some m
      found (none, fi) =
          let m' = insert name deletion_result m in
          let below = delete_below fuel (name ∷ []) m' in
          if file_type fi.mode == 0o040000 then below else some m'

  unfoldable pub reap_deleted : ℕ → Dict Bytes Bool → Dict Bytes Result → Option (Dict Bytes Result)
  reap_deleted fuel [] m = some m
  reap_deleted fuel ((name, _) ∷ deleted) m = elim (reap_name fuel name m) [
    | none ↦ none
    | some m' ↦ reap_deleted fuel deleted m'
  ]

module _ (I : Inodes) where
  unfoldable pub note_changed : Bytes → MemNode → Dict Bytes Result → Dict Bytes Result
  note_changed path n m = if n.changed then insert path (node_result n) m else m

  unfoldable pub reap_children :
      (Bytes → ℕ → Dict Bytes Result → Option (Dict Bytes Result))
      → Bytes
      → Dict Bytes ℕ
      → Dict Bytes Result
      → Option (Dict Bytes Result)
  reap_children f path [] m = some m
  reap_children f path ((name, c) ∷ children) m = elim (f (join path name) c m) [
    | none ↦ none
    | some m' ↦ reap_children f path children m'
  ]

  -- `reap` of a node
  unfoldable pub reap_node :
      MemUnionFs I.Table → ℕ → Bytes → ℕ → Dict Bytes Result → Option (Dict Bytes Result)
  reap_node s zero path i m = none
  reap_node s (suc fuel) path i m =
      reap_children (reap_node s fuel) path (I.children i s.table) (note_changed path (s.nodes i) m)

  unfoldable pub reap : ReadOnly → ℕ → MemUnionFs I.Table → Option (Dict Bytes Result)
  reap ro fuel s = elim (reap_deleted ro fuel s.deleted []) [
    | none ↦ none
    | some m ↦ reap_node s fuel [] s.root m
  ]
