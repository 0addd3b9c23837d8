-- ===== src/Union/Steps.antt =====
-- What each operation of fs/memunionfs.go does to what a name stands for: the name it is called on, and any other.
use termite.Base.{
  ℕ, suc, ◌≡◌, ◌⊎◌, inl, inr, subst, refl, sym, ap, ◌∙◌, Bytes, Bool, true, false, ◌&&◌, Option,
  none, some, if◌then◌else◌, ◌==◌, nat_eq, bytes_eq, lookup, has, arith, Bool-cases, Option-cases,
}
use termite.Attr.FileAttr.{Attr, Status, ok, enoent}
use termite.Union.Tree.{Inodes}
use termite.Union.{
  ReadOnly, MemNode, MemUnionFs, shows_original, path_of, mark_deleted, touch_node, touch, set_node,
  new_node, node_below, add_child, get_filename, created_node, lookup_child, mkdir, unlink, symlink,
  link, create, has_dir_bit,
}
use termite.Union.Names.{
  child, view, Kept, Distinct, view-put, view-same, view-drop, resolves_below-drop,
}
use termite.Union.Op.{Op, find_op, mkdir_op, symlink_op, link_op, create_op, after}

module _ (I : Inodes) (ro : ReadOnly) (now : ℕ × ℕ) (backing_store : Bytes) (p : ℕ)
    (name : Bytes) where
  pub answer-cases :
      (o : Option Status × Attr) → ((code : Status) × (o ≡ (some code, o.1))) ⊎ (o ≡ (none, o.1))
  answer-cases (none, a) = inr refl
  answer-cases (some code, a) = inl (code, refl)

  -- `lookup` finds nothing and changes nothing, or it makes a node of what is below and links it in.
  pub lookup_child-cases :
      (s : MemUnionFs I.Table)
      → let r : (Status × Option ℕ) × MemUnionFs I.Table = lookup_child I ro now p name s in
        ((code : Status) × (r ≡ ((code, none), s)))
        ⊎ ((fi : Attr) × (let made : ℕ × MemUnionFs I.Table =
                new_node I ro
                  (has_dir_bit fi.mode)
                  (node_below I ro (path_of I ro p name s) fi now)
                  s in
              r ≡ ((ok, some made.0), add_child I ro p name made.0 made.1)))
  unfolding lookup_child
  lookup_child-cases s = elim (Bool-cases (shows_original I ro p s)) [
    | inr e ↦ inl (enoent, rw (e, lookup_child) refl)
    | inl e ↦ elim (Bool-cases (has (path_of I ro p name s) s.deleted)) [
      | inl d ↦ inl (enoent, rw (e, d, lookup_child) refl)
      | inr d ↦ elim (answer-cases (ro.get_attr (path_of I ro p name s))) [
        | inl (code, a) ↦ inl (code, rw (e, d, a, lookup_child) refl)
        | inr a ↦ inr ((ro.get_attr (path_of I ro p name s)).1, rw (e, d, a, lookup_child) refl)
      ]
    ]
  ]

  -- Making a node and linking it in.
  module _ (q : ℕ) (m : Bytes) (s : MemUnionFs I.Table) (known : I.known q s.table ≡ true) where
    pub new_node-Kept : (d : Bool) (n : MemNode) → Kept I ro q s (new_node I ro d n s).1
    unfolding new_node set_node
    new_node-Kept d n = record {
      same_original = ground (arith, I.new_inode-known d q s.table known);
      same_root = refl;
    }

    pub new_node-children :
        (d : Bool) (n : MemNode) → I.children q (new_node I ro d n s).1.table ≡ I.children q s.table
    unfolding new_node set_node
    new_node-children d n = I.children-new_inode d q s.table known

    Kept-trans :
        (s' s'' : MemUnionFs I.Table) → Kept I ro q s s' → Kept I ro q s' s'' → Kept I ro q s s''
    Kept-trans s' s'' a b = record {
      same_original = b.same_original ∙ a.same_original;
      same_root = b.same_root ∙ a.same_root;
    }

    linked-Kept :
        (c : ℕ) (s' : MemUnionFs I.Table)
        → Kept I ro q s' (touch_node I ro now p (add_child I ro p name c s'))
    unfolding touch_node set_node touch add_child
    linked-Kept c s' = record { same_original = ground arith; same_root = refl }

    linked-view :
        (c : ℕ) (s' s'' : MemUnionFs I.Table)
        → Kept I ro q s s'
        → s'.deleted ≡ s.deleted
        → I.children q s'.table ≡ I.children q s.table
        → Kept I ro q s' s''
        → s''.deleted ≡ s'.deleted
        → s''.table ≡ I.add_child p name c s'.table
        → view I ro q s'' m ≡ (if q == p && m == name then some (child c) else view I ro q s m)
    linked-view c s' s'' k d e k' d' t =
        view-put I ro q p c m name s s'' (Kept-trans s' s'' k k') (d' ∙ d) (
          ap (λ u. lookup m (I.children q u)) t
          ∙ I.lookup-add_child q p c m name s'.table
          ∙ ap (λ l. if q == p && m == name then some c else lookup m l) e)

    made-view :
        (d : Bool) (n : MemNode)
        → let made : ℕ × MemUnionFs I.Table = new_node I ro d n s in
          view I ro q (touch_node I ro now p (add_child I ro p name made.0 made.1)) m
          ≡ (if q == p && m == name then some (child made.0) else view I ro q s m)
    made-view d n =
        let made : ℕ × MemUnionFs I.Table = new_node I ro d n s in
        linked-view made.0 made.1 (touch_node I ro now p (add_child I ro p name made.0 made.1))
          (new_node-Kept d n) (unfold new_node set_node in refl) (new_node-children d n)
          (linked-Kept made.0 made.1) (unfold touch_node set_node add_child in refl)
          (unfold touch_node set_node add_child in refl)

    found-view :
        (d : Bool) (n : MemNode)
        → let made : ℕ × MemUnionFs I.Table = new_node I ro d n s in
          view I ro q (add_child I ro p name made.0 made.1) m
          ≡ (if q == p && m == name then some (child made.0) else view I ro q s m)
    found-view d n =
        let made : ℕ × MemUnionFs I.Table = new_node I ro d n s in
        linked-view made.0 made.1 (add_child I ro p name made.0 made.1) (new_node-Kept d n)
          (unfold new_node set_node in refl) (new_node-children d n)
          (unfold add_child in (record { same_original = refl; same_root = refl }))
          (unfold add_child in refl) (unfold add_child in refl)

    -- What a step does to the view, of its answer.
    unfoldable pub Effect : Op → (Status × Option ℕ) × MemUnionFs I.Table → Type 0
    Effect op r =
        view I ro q r.1 m
        ≡ (if q == p && m == name then after op r.0.1 (view I ro q s m) else view I ro q s m)

    pub find-view : Effect find_op (lookup_child I ro now p name s)
    unfolding Effect after
    find-view = elim (lookup_child-cases s) [
      | inl (code, e) ↦ subst (Effect find_op) (sym e) (ground arith)
      | inr (fi, e) ↦ subst (Effect find_op) (sym e) (found-view (has_dir_bit fi.mode) _)
    ]

    pub mkdir-view : (mode : ℕ) → Effect (mkdir_op mode) (mkdir I ro now p name mode s)
    unfolding mkdir Effect after
    mkdir-view mode = made-view true _

    pub symlink-view :
        (content : Bytes) → Effect (symlink_op content) (symlink I ro now p name content s)
    unfolding symlink Effect after
    symlink-view content = made-view false _

    pub link-view : (existing : ℕ) → Effect (link_op existing) (link I ro now p name existing s)
    unfolding link Effect after
    link-view existing =
        linked-view existing s (touch_node I ro now p (add_child I ro p name existing s))
          (record { same_original = refl; same_root = refl }) refl refl (linked-Kept existing s)
          (unfold touch_node set_node add_child in refl)
          (unfold touch_node set_node add_child in refl)

    mark_deleted-table : (mark_deleted I ro p name s).table ≡ s.table
    unfolding mark_deleted
    mark_deleted-table = ground arith

    mark_deleted-Kept : Kept I ro q s (mark_deleted I ro p name s)
    unfolding mark_deleted
    mark_deleted-Kept = record { same_original = ground arith; same_root = ground arith }

    removed-Kept :
        (t : I.Table)
        → Kept I ro q
            (mark_deleted I ro p name s)
            (touch_node I ro now p (record (mark_deleted I ro p name s) { table = t }))
    unfolding touch_node set_node touch
    removed-Kept t = record { same_original = ground arith; same_root = refl }

    removed-view :
        (s' : MemUnionFs I.Table)
        → Distinct I ro q p m name s
        → Kept I ro q (mark_deleted I ro p name s) s'
        → s'.deleted ≡ (mark_deleted I ro p name s).deleted
        → s'.table ≡ (I.rm_child p name (mark_deleted I ro p name s).table).1
        → view I ro q s' m ≡ (if q == p && m == name then none else view I ro q s m)
    removed-view s' a k d t =
        let k' = Kept-trans (mark_deleted I ro p name s) s' mark_deleted-Kept k in
        view-drop I ro q p m name s s' k' (resolves_below-drop I ro q p m name s s' k' d a) (
          ap (λ u. lookup m (I.children q u))
            (t ∙ ap (λ u. (I.rm_child p name u).1) mark_deleted-table)
          ∙ I.lookup-rm_child q p m name s.table)

    pub unlink-view :
        Distinct I ro q p m name s
        → view I ro q (unlink I ro now p name s).1 m
          ≡ (if q == p && m == name then none else view I ro q s m)
    unfolding unlink
    unlink-view a = elim (Option-cases (I.rm_child p name (mark_deleted I ro p name s).table).0) [
      | inl e ↦
          rw (e, unlink)
            (removed-view _ a (record { same_original = refl; same_root = refl }) refl refl)
      | inr (c, e) ↦
          rw (e, unlink)
            (removed-view _ a (removed-Kept _) (unfold touch_node set_node in refl)
              (unfold touch_node set_node in refl))
    ]

    -- What `Create` has made before it asks for the file.
    filed : ℕ → ℕ × MemUnionFs I.Table
    filed mode =
        let (backing, s₁) = get_filename I ro backing_store s in
        new_node I ro false (created_node I ro now backing mode) s₁

    filed-Kept : (mode : ℕ) → Kept I ro q s (filed mode).1
    unfolding filed new_node set_node get_filename
    filed-Kept mode = record {
      same_original = ground (arith, I.new_inode-known false q s.table known);
      same_root = refl;
    }

    filed-deleted : (mode : ℕ) → (filed mode).1.deleted ≡ s.deleted
    unfolding filed new_node set_node get_filename
    filed-deleted mode = refl

    filed-children : (mode : ℕ) → I.children q (filed mode).1.table ≡ I.children q s.table
    unfolding filed new_node set_node get_filename
    filed-children mode = I.children-new_inode false q s.table known

    opened-Kept :
        (c : ℕ) (s' : MemUnionFs I.Table)
        → let t : MemUnionFs I.Table = touch_node I ro now p (add_child I ro p name c s') in
          Kept I ro q s' (record t { open_writable = suc t.open_writable })
    opened-Kept c s' =
        let k = linked-Kept c s' in
        record { same_original = k.same_original; same_root = k.same_root }

    pub create-view :
        (err : Option Status) (mode : ℕ)
        → Effect (create_op err mode) (create I ro now backing_store err p name mode s)
    unfolding create Effect after
    create-view none mode =
        let linked : MemUnionFs I.Table =
          touch_node I ro now p (add_child I ro p name (filed mode).0 (filed mode).1) in
        unfold filed in
        linked-view (filed mode).0 (filed mode).1
          (record linked { open_writable = suc linked.open_writable }) (filed-Kept mode)
          (filed-deleted mode) (filed-children mode) (opened-Kept (filed mode).0 (filed mode).1)
          (unfold touch_node set_node add_child in refl)
          (unfold touch_node set_node add_child in refl)
    create-view (some code) mode =
        unfold filed in
        ground (
          arith,
          view-same I ro q m s (filed mode).1 (filed-Kept mode) (filed-deleted mode)
              (filed-children mode),
        )
