-- ===== src/Union/Rename/Listing.antt =====
-- A directory that has been made into nodes has the names that it had, and needs nothing below.
use termite.Base.{
  ℕ, ◌≡◌, inl, inr, refl, sym, ap, ◌∙◌, subst, Bytes, Bool, true, false, ◌&&◌, ◌||◌, List, [], ◌∷◌,
  ◌==◌, nat_eq, bytes_eq, bytes_iff, lookup, has, Lacks, slash, is_empty, arith,
}
use termite.Union.Tree.{Inodes}
use termite.Union.{
  ReadOnly, MemNode, MemUnionFs, shows_original, path_of, set_node, new_node, add_child,
  lookup_child, open_dir, has_dir_bit,
}
use termite.Union.Names.{
  Kept, is_some, Lists, view, resolves_below, open_dir-view, has-with_children,
}
use termite.Union.Steps.{lookup_child-cases}
use termite.Union.Refines.{lookup_child-resolves}
use termite.Union.Rename.{lookup_all, set_changed, clear_original, materialize_self}

module _ (I : Inodes) (ro : ReadOnly) (now : ℕ × ℕ) (i : ℕ) where
  -- What one `Lookup` in the directory leaves as it is, and the children it makes.
  record Looked (name : Bytes) (s s' : MemUnionFs I.Table) : Type 0 where
    known : I.known i s'.table ≡ true
    kept : Kept I ro i s s'
    same_deleted : s'.deleted ≡ s.deleted
    made :
        (m : Bytes)
        → has m (I.children i s'.table)
          ≡ (has m (I.children i s.table) || m == name && resolves_below I ro i name s)

  found-Looked :
      (name : Bytes) (s : MemUnionFs I.Table) (d : Bool) (n : MemNode)
      → I.known i s.table ≡ true
      → resolves_below I ro i name s ≡ true
      → let made : ℕ × MemUnionFs I.Table = new_node I ro d n s in
        Looked name s (add_child I ro i name made.0 made.1)
  unfolding add_child new_node set_node has
  found-Looked name s d n k r = record {
    known =
        I.known-add_child i i (I.new_inode d s.table).0 name _ (I.known-new_inode d i s.table k);
    kept = record {
      same_original = ground (arith, I.new_inode-known d i s.table k);
      same_root = refl;
    };
    same_deleted = refl;
    made = λ m. ground (
      arith,
      r,
      I.lookup-add_child i i (I.new_inode d s.table).0 m name (I.new_inode d s.table).1,
      I.children-new_inode d i s.table k,
    );
  }

  lookup_child-Looked :
      (name : Bytes) (s : MemUnionFs I.Table)
      → I.known i s.table ≡ true
      → Looked name s (lookup_child I ro now i name s).1
  lookup_child-Looked name s k = elim (lookup_child-cases I ro now [] i name s) [
    | inl (code, e) ↦
        let r : resolves_below I ro i name s ≡ false =
          sym (lookup_child-resolves I ro now [] i name s) ∙ ap (λ a. is_some a.0.1) e in
        subst (Looked name s) (sym (ap (λ a. a.1) e)) (record {
          known = k;
          kept = record { same_original = refl; same_root = refl };
          same_deleted = refl;
          made = λ m. ground (arith, r);
        })
    | inr (fi, e) ↦
        let r : resolves_below I ro i name s ≡ true =
          sym (lookup_child-resolves I ro now [] i name s) ∙ ap (λ a. is_some a.0.1) e in
        subst (Looked name s) (sym (ap (λ a. a.1) e))
          (found-Looked name s (has_dir_bit fi.mode) _ k r)
  ]

  resolves_below-Kept :
      (m : Bytes) (s s' : MemUnionFs I.Table)
      → Kept I ro i s s'
      → s'.deleted ≡ s.deleted
      → resolves_below I ro i m s' ≡ resolves_below I ro i m s
  unfolding resolves_below path_of shows_original
  resolves_below-Kept m s s' k d = ground (arith, k.same_original, k.same_root, d)

  record LookedAll (stream : List (Bytes × ℕ)) (s s' : MemUnionFs I.Table) : Type 0 where
    same_root : s'.root ≡ s.root
    made :
        (m : Bytes)
        → has m (I.children i s'.table)
          ≡ (has m (I.children i s.table) || has m stream && resolves_below I ro i m s)

  lookup_all-LookedAll :
      (stream : List (Bytes × ℕ)) (s : MemUnionFs I.Table)
      → I.known i s.table ≡ true
      → LookedAll stream s (lookup_all I ro now i stream s)
  unfolding lookup_all has lookup
  lookup_all-LookedAll [] s k = record { same_root = refl; made = λ m. ground arith }
  lookup_all-LookedAll ((name, mode) ∷ stream) s k =
      let one = lookup_child-Looked name s k in
      let s' = (lookup_child I ro now i name s).1 in
      let rest = lookup_all-LookedAll stream s' one.known in
      record {
        same_root = rest.same_root ∙ one.kept.same_root;
        made = λ m. ground (
          arith,
          one.made m,
          rest.made m,
          resolves_below-Kept m s s' one.kept one.same_deleted,
          bytes_iff m name,
        );
      }

  set_changed-Kept : (s : MemUnionFs I.Table) → Kept I ro i s (set_changed I ro now i s)
  unfolding set_changed set_node
  set_changed-Kept s = record { same_original = ground arith; same_root = refl }

  -- A directory that shows nothing below has the names of its children.
  open_dir-hidden :
      (m : Bytes) (s : MemUnionFs I.Table)
      → shows_original I ro i s ≡ false
      → has m (open_dir I ro i s) ≡ has m (I.children i s.table)
  unfolding open_dir has lookup
  open_dir-hidden m s h =
      ground (arith, h, has-with_children I ro s.nodes m (I.children i s.table) [])

  clear_original-shows :
      (s : MemUnionFs I.Table)
      → (i == s.root) ≡ false
      → shows_original I ro i (clear_original I ro now i s) ≡ false
  unfolding clear_original set_node shows_original is_empty
  clear_original-shows s r = ground (arith, r)

  -- The nodes that `materializeSelf` has made before it forgets the path.
  expanded : MemUnionFs I.Table → MemUnionFs I.Table
  expanded s =
      let s' = set_changed I ro now i s in
      lookup_all I ro now i (ro.open_dir (s.nodes i).original) s'

  materialize_self-expanded :
      (s : MemUnionFs I.Table)
      → I.is_dir i s.table ≡ true
      → materialize_self I ro now i s ≡ clear_original I ro now i (expanded s)
  unfolding materialize_self expanded set_changed set_node
  materialize_self-expanded s d = ground (arith, d)

  open_dir-resolves :
      (m : Bytes) (s : MemUnionFs I.Table)
      → Lists I ro (s.nodes i).original
      → Lacks slash m
      → has m (open_dir I ro i s) ≡ (has m (I.children i s.table) || resolves_below I ro i m s)
  unfolding view has
  open_dir-resolves m s l lm = ground (arith, open_dir-view I ro i s m l lm)

  expanded-LookedAll :
      (s : MemUnionFs I.Table)
      → I.known i s.table ≡ true
      → LookedAll (ro.open_dir (s.nodes i).original) (set_changed I ro now i s) (expanded s)
  unfolding expanded
  expanded-LookedAll s k =
      lookup_all-LookedAll (ro.open_dir (s.nodes i).original) (set_changed I ro now i s)
        (unfold set_changed set_node in k)

  expanded-children :
      (s : MemUnionFs I.Table) (m : Bytes)
      → I.known i s.table ≡ true
      → Lists I ro (s.nodes i).original
      → Lacks slash m
      → has m (I.children i (expanded s).table) ≡ has m (open_dir I ro i s)
  unfolding set_changed set_node resolves_below path_of
  expanded-children s m k l lm = ground (
    arith,
    l m lm,
    (expanded-LookedAll s k).made m,
    open_dir-resolves m s l lm,
    resolves_below-Kept m s (set_changed I ro now i s) (set_changed-Kept s) refl,
  )

  -- `materializeSelf` of a directory, other than the root, leaves the names in its listing as they were, of
  -- whose modes nothing is said, and then nothing below it is shown any more: over a file system whose listing
  -- of the directory has exactly the names that `GetAttr` finds, and of a name without a slash.
  pub materialize_self-open_dir :
      (s : MemUnionFs I.Table) (m : Bytes)
      → I.known i s.table ≡ true
      → I.is_dir i s.table ≡ true
      → (i == s.root) ≡ false
      → Lists I ro (s.nodes i).original
      → Lacks slash m
      → (has m (open_dir I ro i (materialize_self I ro now i s)) ≡ has m (open_dir I ro i s))
        × (shows_original I ro i (materialize_self I ro now i s) ≡ false)
  materialize_self-open_dir s m k d r l lm =
      let t = expanded s in
      let u = clear_original I ro now i t in
      let shown : shows_original I ro i u ≡ false = clear_original-shows t (
        ap (λ x. i == x) (expanded-LookedAll s k).same_root ∙ (unfold set_changed set_node in r)) in
      let listed : has m (open_dir I ro i u) ≡ has m (open_dir I ro i s) =
        open_dir-hidden m u shown
        ∙ (unfold clear_original set_node in expanded-children s m k l lm) in
      subst
        (λ v.
          (has m (open_dir I ro i v) ≡ has m (open_dir I ro i s))
          × (shows_original I ro i v ≡ false))
        (sym (materialize_self-expanded s d)) (listed, shown)
