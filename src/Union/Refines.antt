-- ===== src/Union/Refines.antt =====
-- The operations of fs/memunionfs.go keep one map from names to what they stand for, which `Lookup` and
-- `OpenDir` show.
use termite.Base.{
  ℕ, ◌≡◌, inl, inr, refl, Bytes, true, ◌&&◌, ◌||◌, if◌then◌else◌, ◌==◌, nat_eq, bytes_eq, has,
  slash, Lacks, trim_right, arith, Bool-cases,
}
use termite.Union.Tree.{Inodes}
use termite.Union.{ReadOnly, MemUnionFs, shows_original, path_of, open_dir, lookup_child}
use termite.Union.Names.{is_some, Lists, open_dir-view, view, resolves_below, Apart, Apart-Distinct}
use termite.Union.Op.{Op, find_op, unlink_op, mkdir_op, symlink_op, link_op, create_op, run, after}
use termite.Union.Steps.{
  answer-cases, find-view, mkdir-view, symlink-view, link-view, unlink-view, create-view, Effect,
}

module _ (I : Inodes) (ro : ReadOnly) (now : ℕ × ℕ) (backing_store : Bytes) (p : ℕ)
    (name : Bytes) where
  -- Each step is one change to the names of the directory it is called on: the name then stands for the
  -- node that the step answers, for nothing after `Unlink`, and for what it was if there is no answer. All
  -- other names, of this directory and of the others, stand for what they did, if no two directories show
  -- the same path below, no path ends in a slash and no name has one.
  pub run-refines :
      (q : ℕ) (m : Bytes) (op : Op) (s : MemUnionFs I.Table)
      → I.known q s.table ≡ true
      → Apart I ro q p s
      → trim_right (s.nodes p).original ≡ (s.nodes p).original
      → trim_right (s.nodes q).original ≡ (s.nodes q).original
      → Lacks slash m
      → Lacks slash name
      → view I ro q (run I ro now backing_store p name op s).1 m ≡ (
          if q == p && m == name
          then after op (run I ro now backing_store p name op s).0.1 (view I ro q s m)
          else view I ro q s m)
  unfolding run after Effect
  run-refines q m find_op s k a hp hq lm ln = find-view I ro now backing_store p name q m s k
  run-refines q m unlink_op s k a hp hq lm ln =
      unlink-view I ro now backing_store p name q m s k
        (Apart-Distinct I ro q p m name s a hp hq lm ln)
  run-refines q m (mkdir_op mode) s k a hp hq lm ln =
      mkdir-view I ro now backing_store p name q m s k mode
  run-refines q m (symlink_op content) s k a hp hq lm ln =
      symlink-view I ro now backing_store p name q m s k content
  run-refines q m (link_op existing) s k a hp hq lm ln =
      link-view I ro now backing_store p name q m s k existing
  run-refines q m (create_op err mode) s k a hp hq lm ln =
      create-view I ro now backing_store p name q m s k err mode

  pub lookup_child-resolves :
      (s : MemUnionFs I.Table)
      → is_some (lookup_child I ro now p name s).0.1 ≡ resolves_below I ro p name s
  unfolding lookup_child resolves_below
  lookup_child-resolves s = elim (Bool-cases (shows_original I ro p s)) [
    | inr e ↦ rw (e, lookup_child, resolves_below) refl
    | inl e ↦ elim (Bool-cases (has (path_of I ro p name s) s.deleted)) [
      | inl d ↦ rw (e, d, lookup_child, resolves_below) refl
      | inr d ↦
          elim (answer-cases I ro now backing_store p name (ro.get_attr (path_of I ro p name s))) [
            | inl (code, a) ↦ rw (e, d, a, lookup_child, resolves_below) refl
            | inr a ↦ rw (e, d, a, lookup_child, resolves_below) refl
          ]
    ]
  ]

  -- `OpenDir` lists a name exactly if a node was made for it or `Lookup` makes one, over a file system
  -- whose listing of the directory has exactly the names that `GetAttr` finds. The name has no slash.
  pub open_dir-find :
      (s : MemUnionFs I.Table)
      → Lists I ro (s.nodes p).original
      → Lacks slash name
      → has name (open_dir I ro p s)
        ≡ (has name (I.children p s.table) || is_some (lookup_child I ro now p name s).0.1)
  unfolding has view
  open_dir-find s l ln = ground (arith, open_dir-view I ro p s name l ln, lookup_child-resolves s)
