-- ===== src/Union/Files.antt =====
-- Open files of fs/memunionfs.go: `Open`, `Release`, `Flush`, and the operations on a node. The contents
-- of the backing store are not modelled: what a call of package os or of the file system below answers is
-- an argument, `none` for OK.
pub mod Handles
use termite.Base.{
  ℕ, zero, suc, ◌+◌, ◌*◌, ◌/◌, ◌%◌, Bytes, Bool, true, false, not, ◌&&◌, ◌||◌, List, [], ◌∷◌,
  Option, none, some, if◌then◌else◌, ◌==◌, nat_eq, bytes_eq, is_empty,
}
use termite.Attr.FileAttr.{Attr, Status, ok, eperm, type_bits}
use termite.Union.Tree.{Inodes}
use termite.Union.{ReadOnly, MemNode, MemUnionFs, touch, ctouch, touch_node, set_node, get_filename}

-- `memNodeFile`
pub record File : Type 0 where
  pub node : ℕ
  pub writable : Bool

or_bits : ℕ → ℕ → ℕ → ℕ
or_bits zero a b = 0
or_bits (suc fuel) a b =
    let rest = or_bits fuel (a / 2) (b / 2) in
    (if a % 2 == 1 || b % 2 == 1 then 1 else 0) + 2 * rest

module _ (I : Inodes) (ro : ReadOnly) (now : ℕ × ℕ) (backing_store : Bytes) where
  pub promote : ℕ → MemUnionFs I.Table → MemUnionFs I.Table
  promote i s =
      let (name, s') = get_filename I ro backing_store s in
      if is_empty (s.nodes i).backing
      then set_node i (record (s.nodes i) { backing = name; original = [] }) s'
      else s

  pub prepare_open : Bool → ℕ → MemUnionFs I.Table → MemUnionFs I.Table
  prepare_open write i s = if write then touch_node I ro now i (promote i s) else s

  -- `Open`; `write` is `flags & O_ANYWRITE != 0`.
  pub open_node :
      Bool
      → Option Status
      → Option Status
      → ℕ
      → MemUnionFs I.Table
      → (Status × Option File) × MemUnionFs I.Table
  open_node write os_err ro_err i s =
      let s' = prepare_open write i s in
      if not (is_empty (s'.nodes i).backing)
      then elim os_err [
        | some code ↦ ((code, none), s')
        | none ↦ (
          (ok, some (record { node = i; writable = write })),
          (if write then record s' { open_writable = suc s'.open_writable } else s'),
        )
      ]
      else elim ro_err [
        | some code ↦ ((code, none), s')
        | none ↦ ((ok, some (record { node = i; writable = false })), s')
      ]

  -- `markCloseWrite`; `none` is its panic.
  pub mark_close_write : MemUnionFs I.Table → Option (MemUnionFs I.Table)
  mark_close_write s = elim s.open_writable [
    | zero ↦ none
    | suc n ↦ some (record s { open_writable = n })
  ]

  pub release : File → MemUnionFs I.Table → Option (MemUnionFs I.Table)
  release f s = if f.writable then mark_close_write s else some s

  -- `size` is that of the file below.
  pub flush : File → ℕ → MemUnionFs I.Table → MemUnionFs I.Table
  flush f size s =
      let n = s.nodes f.node in
      if f.writable
      then set_node f.node (record n { info = record n.info { size = size } }) s
      else s

  -- `GetAttr`, with the size of the file that was given.
  pub get_node_attr : ℕ → Option ℕ → MemUnionFs I.Table → Attr
  get_node_attr i file s = elim file [
    | none ↦ (s.nodes i).info
    | some size ↦ record (s.nodes i).info { size = size }
  ]

  pub truncate : Option Status → ℕ → ℕ → MemUnionFs I.Table → Status × MemUnionFs I.Table
  truncate err size i s =
      let s' = promote i s in
      let n = s'.nodes i in
      elim err [
        | some code ↦ (code, s')
        | none ↦ (ok, set_node i (touch now (record n { info = record n.info { size = size } })) s')
      ]

  pub utimens : Option (ℕ × ℕ) → ℕ → MemUnionFs I.Table → Status × MemUnionFs I.Table
  utimens mtime i s =
      let n = s.nodes i in
      let info : Attr = elim mtime [
        | none ↦ n.info
        | some t ↦ record n.info { mtime = t.0; mtimensec = t.1 }
      ] in
      (ok, set_node i (record n { changed = true; info = info }) s)

  pub chmod : ℕ → ℕ → MemUnionFs I.Table → Status × MemUnionFs I.Table
  chmod perms i s =
      let n = s.nodes i in
      let mode = or_bits 32 (type_bits n.info.mode) perms in
      (ok, set_node i (ctouch (record n { info = record n.info { mode = mode } })) s)

  -- `caller` is the user that asks.
  pub chown : ℕ → ℕ → ℕ → ℕ → MemUnionFs I.Table → Status × MemUnionFs I.Table
  chown caller uid gid i s =
      let n = s.nodes i in
      if not (caller == 0)
      then (eperm, s)
      else (ok, set_node i (ctouch (record n { info = record n.info { uid = uid; gid = gid } })) s)
