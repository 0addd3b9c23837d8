-- ===== src/Union/Sample.antt =====
-- A tree of inodes and a file system below, for the runs of fs/memunionfs.go in the tests.
use termite.Base.{
  ◌&&◌, ◌≡◌, ◌≢◌, ℕ, suc, refl, Bytes, Bool, true, false, List, [], ◌∷◌, Option, none, some,
  if◌then◌else◌, ltb, is_empty, trim_right, bytes_beq, trim_left-Lacks, ◌==◌, nat_eq, nat_iff,
  bytes_eq, Dict, lookup, insert, erase, has, lookup-insert, lookup-erase, arith,
}
use termite.Paths.Laws.{join-trim}
use termite.Attr.FileAttr.{Attr, Status, enoent}
use termite.Union.Tree.{Inodes}
use termite.Union.{ReadOnly, MemNode, MemUnionFs, new_mem_node}
use termite.Union.Names.{Lists}

pub record Table : Type 0 where
  pub next : ℕ
  pub dirs : ℕ → Bool
  pub kids : ℕ → Dict Bytes ℕ

abbrev pub table_children : ℕ → Table → Dict Bytes ℕ
table_children p t = t.kids p

abbrev pub table_new : Bool → Table → ℕ × Table
table_new d t = (
  t.next,
  record { next = suc t.next; dirs = λ i. if i == t.next then d else t.dirs i; kids = t.kids },
)

abbrev pub table_add : ℕ → Bytes → ℕ → Table → Table
table_add p n c t = record t { kids = λ i. if i == p then insert n c (t.kids p) else t.kids i }

abbrev pub table_rm : ℕ → Bytes → Table → Option ℕ × Table
table_rm p n t =
    (lookup n (t.kids p), record t { kids = λ i. if i == p then erase n (t.kids p) else t.kids i })

pub table_new-fresh : (d : Bool) (p : ℕ) (t : Table) → ltb p t.next ≡ true → p ≢ (table_new d t).0
table_new-fresh d p t k = ground (arith, k)

pub table_new-known :
    (d : Bool) (p : ℕ) (t : Table) → ltb p t.next ≡ true → ltb p (table_new d t).1.next ≡ true
table_new-known d p t k = ground (arith, k)

pub lookup-table_add :
    (q p c : ℕ) (m n : Bytes) (t : Table)
    → lookup m (table_children q (table_add p n c t))
      ≡ (if q == p && m == n then some c else lookup m (table_children q t))
lookup-table_add q p c m n t = ground (arith, lookup-insert m n c (t.kids p), nat_iff q p)

pub lookup-table_rm :
    (q p : ℕ) (m n : Bytes) (t : Table)
    → lookup m (table_children q (table_rm p n t).1)
      ≡ (if q == p && m == n then none else lookup m (table_children q t))
lookup-table_rm q p m n t = ground (arith, lookup-erase m n (t.kids p), nat_iff q p)

abbrev pub memory : Inodes
memory = record {
  Table = Table;
  is_dir = λ i t. t.dirs i;
  children = table_children;
  new_inode = table_new;
  add_child = table_add;
  rm_child = table_rm;
  known = λ i t. ltb i t.next;
  new_inode-known = table_new-fresh;
  children-new_inode = λ d p t k. refl;
  lookup-add_child = lookup-table_add;
  rm_child-found = λ p n t. refl;
  lookup-rm_child = lookup-table_rm;
  known-new_inode = table_new-known;
  known-add_child = λ q p c n t k. k;
}

-- "d", a directory with the file "f", which is "d/f"
abbrev pub d_name : Bytes
d_name = 0x64 ∷ []

abbrev pub f_name : Bytes
f_name = 0x66 ∷ []

abbrev pub e_name : Bytes
e_name = 0x65 ∷ []

abbrev pub d_f : Bytes
d_f = 0x64 ∷ 0x2f ∷ 0x66 ∷ []

abbrev pub attr_of : ℕ → Attr
attr_of mode = record {
  ino = 0;
  size = 7;
  mtime = 0;
  mtimensec = 0;
  mode = mode;
  nlink = 1;
  uid = 0;
  gid = 0;
}

abbrev pub below_attr : Bytes → Option Status × Attr
below_attr path =
    if path == d_name
    then (none, attr_of 0o040755)
    else if path == d_f
    then (none, attr_of 0o100644)
    else (some enoent, attr_of 0)

abbrev pub below_dir : Bytes → List (Bytes × ℕ)
below_dir path =
    if path == []
    then (d_name, 0o040755) ∷ []
    else if path == d_name
    then (f_name, 0o100644) ∷ []
    else []

abbrev pub disk : ReadOnly
disk = record { get_attr = below_attr; open_dir = below_dir; readlink = λ path. [] }

abbrev pub now : ℕ × ℕ
now = (100, 0)

abbrev pub start : MemUnionFs Table
start = record {
  table = record { next = 1; dirs = λ i. i == 0; kids = λ i. [] };
  nodes = λ i. new_mem_node now;
  root = 0;
  next_free = 0;
  open_writable = 0;
  deleted = [];
}

abbrev pub node_of : Bytes → ℕ → MemNode
node_of path mode = record {
  backing = [];
  original = path;
  changed = false;
  link = [];
  info = attr_of mode;
}

-- "d" and "d/f" have been looked up: they are 1 and 2.
abbrev pub found : MemUnionFs Table
found = record {
  table = record {
    next = 3;
    dirs = λ i. if i == 0 then true else i == 1;
    kids = λ i. if i == 0 then (d_name, 1) ∷ [] else if i == 1 then (f_name, 2) ∷ [] else [];
  };
  nodes = λ i.
      if i == 1
      then node_of d_name 0o040755
      else if i == 2
      then node_of d_f 0o100644
      else node_of [] 0o040755;
  root = 0;
  next_free = 0;
  open_writable = 0;
  deleted = [];
}

pub d_Lists : Lists memory disk d_name
unfolding has lookup is_empty trim_right bytes_beq
d_Lists name l = ground (arith, join-trim d_name name, trim_left-Lacks name l)
