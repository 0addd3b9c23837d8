-- ===== src/Union.antt =====
-- fs/memunionfs.go: the file system in which a worker runs a task. It stands over a file system that is
-- only read, and keeps what was changed in memory, contents in files of a backing store. `Inode`s and the
-- file system below are parameters; times are those that `SetTimes` is given.
pub mod Tree
pub mod Names
pub mod Op
pub mod Steps
pub mod Refines
pub mod Rename
pub mod Sample
mod Tests
pub mod Files
pub mod Reap
pub mod Reset
use termite.Base.{
  ℕ, suc, ◌+◌, ◌/◌, ◌%◌, Bytes, Bool, true, false, not, ◌&&◌, ◌||◌, List, [], ◌∷◌, ◌++◌, Option,
  none, some, if◌then◌else◌, ◌==◌, nat_eq, bytes_eq, Dict, lookup, insert, has, is_empty, slash,
  decimal,
}
use termite.Paths.{join}
use termite.Attr.FileAttr.{Attr, Status, ok, enoent}
use termite.Union.Tree.{Inodes}

-- The `pathfs.FileSystem` below, as far as it is read: `GetAttr` gives a code that is not OK or
-- attributes, `OpenDir` and `Readlink` nothing where they fail.
pub record ReadOnly : Type 0 where
  pub get_attr : Bytes → Option Status × Attr
  pub open_dir : Bytes → List (Bytes × ℕ)
  pub readlink : Bytes → Bytes

pub record MemNode : Type 0 where
  pub backing : Bytes
  pub original : Bytes
  pub changed : Bool
  pub link : Bytes
  pub info : Attr

-- `nodes` gives the `memNode` of an inode.
pub record MemUnionFs (T : Type 0) : Type 0 where
  pub table : T
  pub nodes : ℕ → MemNode
  pub root : ℕ
  pub next_free : ℕ
  pub open_writable : ℕ
  pub deleted : Dict Bytes Bool

-- `mode & S_IFDIR != 0`
pub has_dir_bit : ℕ → Bool
has_dir_bit mode = mode / 0o040000 % 2 == 1

-- `mode & S_IFLNK != 0`, of which one bit is that of a regular file.
pub has_link_bits : ℕ → Bool
has_link_bits mode = mode / 0o100000 % 2 == 1 || mode / 0o020000 % 2 == 1

-- `mode | S_IFDIR`
pub with_dir_bit : ℕ → ℕ
unfolding has_dir_bit
with_dir_bit mode = if has_dir_bit mode then mode else mode + 0o040000

-- `mode | S_IFREG`
pub with_file_bit : ℕ → ℕ
with_file_bit mode = if mode / 0o100000 % 2 == 1 then mode else mode + 0o100000

pub new_mem_node : ℕ × ℕ → MemNode
new_mem_node now = record {
  backing = [];
  original = [];
  changed = false;
  link = [];
  info = record {
    ino = 0;
    size = 0;
    mtime = now.0;
    mtimensec = now.1;
    mode = 0;
    nlink = 0;
    uid = 0;
    gid = 0;
  };
}

pub touch : ℕ × ℕ → MemNode → MemNode
touch now n = record n { changed = true; info = record n.info { mtime = now.0; mtimensec = now.1 } }

-- The time that `ctouch` sets is not among the fields of `Attr` that are modelled.
pub ctouch : MemNode → MemNode
ctouch n = record n { changed = true }

pub deletable : MemNode → Bool
deletable n = not n.changed && is_empty n.original

unfoldable pub set_node : {T : Type 0} → ℕ → MemNode → MemUnionFs T → MemUnionFs T
set_node i n s = record s { nodes = λ j. if j == i then n else s.nodes j }

module _ (I : Inodes) (ro : ReadOnly) where
  -- `newNode`, and what its caller puts into the node.
  pub new_node : Bool → MemNode → MemUnionFs I.Table → ℕ × MemUnionFs I.Table
  new_node isdir n s =
      let (i, t) = I.new_inode isdir s.table in (i, set_node i n (record s { table = t }))

  pub add_child : ℕ → Bytes → ℕ → MemUnionFs I.Table → MemUnionFs I.Table
  add_child p name c s = record s { table = I.add_child p name c s.table }

  -- `me.original != "" || me == me.fs.root`
  pub shows_original : ℕ → MemUnionFs I.Table → Bool
  shows_original p s = not (is_empty (s.nodes p).original) || p == s.root

  pub path_of : ℕ → Bytes → MemUnionFs I.Table → Bytes
  path_of p name s = join (s.nodes p).original name

  -- The child that `lookup` makes of what is below.
  pub node_below : Bytes → Attr → ℕ × ℕ → MemNode
  node_below fn fi now = record (new_mem_node now) {
    info = fi;
    original = fn;
    link = if has_link_bits fi.mode then ro.readlink fn else [];
  }

  pub lookup_child :
      ℕ × ℕ → ℕ → Bytes → MemUnionFs I.Table → (Status × Option ℕ) × MemUnionFs I.Table
  lookup_child now p name s =
      if not (shows_original p s)
      then ((enoent, none), s)
      else if has (path_of p name s) s.deleted
      then ((enoent, none), s)
      else found (ro.get_attr (path_of p name s))
    where
      found : Option Status × Attr → (Status × Option ℕ) × MemUnionFs I.Table
      found (some code, _) = ((code, none), s)
      found (none, fi) =
          let (c, s') = new_node (has_dir_bit fi.mode) (node_below (path_of p name s) fi now) s in
          ((ok, some c), add_child p name c s')

  pub touch_node : ℕ × ℕ → ℕ → MemUnionFs I.Table → MemUnionFs I.Table
  touch_node now p s = set_node p (touch now (s.nodes p)) s

  pub mkdir : ℕ × ℕ → ℕ → Bytes → ℕ → MemUnionFs I.Table → (Status × Option ℕ) × MemUnionFs I.Table
  mkdir now p name mode s =
      let base = new_mem_node now in
      let n = record base {
        changed = true;
        info = record base.info { mode = with_dir_bit mode };
      } in
      let (c, s') = new_node true n s in ((ok, some c), touch_node now p (add_child p name c s'))

  pub mark_deleted : ℕ → Bytes → MemUnionFs I.Table → MemUnionFs I.Table
  mark_deleted p name s =
      if shows_original p s
      then record s { deleted = insert (path_of p name s) true s.deleted }
      else s

  -- `Unlink`, and `Rmdir`, which calls it.
  pub unlink : ℕ × ℕ → ℕ → Bytes → MemUnionFs I.Table → Status × MemUnionFs I.Table
  unlink now p name s =
      let s' = mark_deleted p name s in
      let (found, t) = I.rm_child p name s'.table in
      let removed = record s' { table = t } in
      elim found [ none ↦ (enoent, removed) | some c ↦ (ok, touch_node now p removed) ]

  pub symlink :
      ℕ × ℕ → ℕ → Bytes → Bytes → MemUnionFs I.Table → (Status × Option ℕ) × MemUnionFs I.Table
  symlink now p name content s =
      let base = new_mem_node now in
      let n = record base {
        changed = true;
        link = content;
        info = record base.info { mode = 0o120777 };
      } in
      let (c, s') = new_node false n s in ((ok, some c), touch_node now p (add_child p name c s'))

  pub link : ℕ × ℕ → ℕ → Bytes → ℕ → MemUnionFs I.Table → (Status × Option ℕ) × MemUnionFs I.Table
  link now p name existing s = ((ok, some existing), touch_node now p (add_child p name existing s))

  -- `getFilename`
  pub get_filename : Bytes → MemUnionFs I.Table → Bytes × MemUnionFs I.Table
  get_filename backing_store s =
      (backing_store ++ slash ∷ decimal s.next_free, record s { next_free = suc s.next_free })

  pub created_node : ℕ × ℕ → Bytes → ℕ → MemNode
  created_node now backing mode =
      let base = new_mem_node now in
      record base {
        changed = true;
        backing = backing;
        info = record base.info { mode = with_file_bit mode };
      }

  -- `err` is what `os.Create` fails with.
  pub create :
      ℕ × ℕ
      → Bytes
      → Option Status
      → ℕ
      → Bytes
      → ℕ
      → MemUnionFs I.Table
      → (Status × Option ℕ) × MemUnionFs I.Table
  create now backing_store err p name mode s =
      let (backing, s₁) = get_filename backing_store s in
      let (c, s₂) = new_node false (created_node now backing mode) s₁ in
      elim err [
        | some code ↦ ((code, none), s₂)
        | none ↦
            let s₃ = touch_node now p (add_child p name c s₂) in
            ((ok, some c), record s₃ { open_writable = suc s₃.open_writable })
      ]

  pub hide_deleted : Bytes → Dict Bytes Bool → List (Bytes × ℕ) → Dict Bytes ℕ
  hide_deleted dir deleted [] = []
  hide_deleted dir deleted ((name, mode) ∷ stream) =
      let rest = hide_deleted dir deleted stream in
      if has (join dir name) deleted then rest else insert name mode rest

  pub with_children : (ℕ → MemNode) → Dict Bytes ℕ → Dict Bytes ℕ → Dict Bytes ℕ
  with_children nodes [] ch = ch
  with_children nodes ((name, c) ∷ children) ch =
      insert name (nodes c).info.mode (with_children nodes children ch)

  -- `OpenDir`: the names with their modes.
  pub open_dir : ℕ → MemUnionFs I.Table → Dict Bytes ℕ
  open_dir p s =
      let dir = (s.nodes p).original in
      with_children s.nodes (I.children p s.table)
        (if shows_original p s then hide_deleted dir s.deleted (ro.open_dir dir) else [])
