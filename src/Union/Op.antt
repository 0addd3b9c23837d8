-- ===== src/Union/Op.antt =====
-- The operations of fs/memunionfs.go on one directory, as one step each, and what they are to do to the map
-- from names to what they stand for.
use termite.Base.{ℕ, Bytes, Option, none, some, nat_eq, bytes_eq}
use termite.Attr.FileAttr.{Status}
use termite.Union.Tree.{Inodes}
use termite.Union.{ReadOnly, MemUnionFs, lookup_child, mkdir, unlink, symlink, link, create}
use termite.Union.Names.{Source, child}

pub data Op : Type 0 where
  find_op unlink_op : Op
  mkdir_op : ℕ → Op
  symlink_op : Bytes → Op
  link_op : ℕ → Op
  create_op : Option Status → ℕ → Op

-- What the name stands for after the step, of the node that the step answers and what it stood for.
unfoldable pub after : Op → Option ℕ → Option Source → Option Source
after unlink_op c v = none
after find_op c v = elim c [ none ↦ v | some i ↦ some (child i) ]
after (mkdir_op mode) c v = elim c [ none ↦ v | some i ↦ some (child i) ]
after (symlink_op content) c v = elim c [ none ↦ v | some i ↦ some (child i) ]
after (link_op existing) c v = elim c [ none ↦ v | some i ↦ some (child i) ]
after (create_op err mode) c v = elim c [ none ↦ v | some i ↦ some (child i) ]

module _ (I : Inodes) (ro : ReadOnly) (now : ℕ × ℕ) (backing_store : Bytes) (p : ℕ)
    (name : Bytes) where
  unfoldable pub run : Op → MemUnionFs I.Table → (Status × Option ℕ) × MemUnionFs I.Table
  run find_op s = lookup_child I ro now p name s
  run unlink_op s = let (code, s') = unlink I ro now p name s in ((code, none), s')
  run (mkdir_op mode) s = mkdir I ro now p name mode s
  run (symlink_op content) s = symlink I ro now p name content s
  run (link_op existing) s = link I ro now p name existing s
  run (create_op err mode) s = create I ro now backing_store err p name mode s
