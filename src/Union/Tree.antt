-- ===== src/Union/Tree.antt =====
-- What fs/memunionfs.go uses of the tree of inodes that go-fuse keeps (package nodefs): `New`,
-- `AddChild`, `RmChild`, `FsChildren` and `IsDir` of an `Inode`, with their documented effect on the
-- names of a directory. An inode is known by a number.
use termite.Base.{
  ℕ, ◌≡◌, ◌≢◌, Bytes, Bool, true, Option, none, some, ◌==◌, ◌&&◌, nat_eq, bytes_eq, if◌then◌else◌,
  Dict, lookup,
}

pub record Inodes : Type 1 where
  pub Table : Type 0
  pub is_dir : ℕ → Table → Bool
  pub children : ℕ → Table → Dict Bytes ℕ
  pub new_inode : Bool → Table → ℕ × Table
  pub add_child : ℕ → Bytes → ℕ → Table → Table
  pub rm_child : ℕ → Bytes → Table → Option ℕ × Table
  -- The inode was made before.
  pub known : ℕ → Table → Bool
  pub new_inode-known : (d : Bool) (p : ℕ) (t : Table) → known p t ≡ true → p ≢ (new_inode d t).0
  pub children-new_inode :
      (d : Bool) (p : ℕ) (t : Table)
      → known p t ≡ true
      → children p (new_inode d t).1 ≡ children p t
  pub lookup-add_child :
      (q p c : ℕ) (m n : Bytes) (t : Table)
      → lookup m (children q (add_child p n c t))
        ≡ (if q == p && m == n then some c else lookup m (children q t))
  pub rm_child-found :
      (p : ℕ) (n : Bytes) (t : Table) → (rm_child p n t).0 ≡ lookup n (children p t)
  pub lookup-rm_child :
      (q p : ℕ) (m n : Bytes) (t : Table)
      → lookup m (children q (rm_child p n t).1)
        ≡ (if q == p && m == n then none else lookup m (children q t))
  pub known-new_inode :
      (d : Bool) (p : ℕ) (t : Table) → known p t ≡ true → known p (new_inode d t).1 ≡ true
  pub known-add_child :
      (q p c : ℕ) (n : Bytes) (t : Table) → known q t ≡ true → known q (add_child p n c t) ≡ true
