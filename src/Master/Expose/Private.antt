-- ===== src/Master/Expose/Private.antt =====
-- What the master shows of its files: nothing that is private, excluded or its own, and no file without
-- the hash of its content.
use termite.Base.{
  ◌≡◌, ◌⊎◌, inl, inr, refl, ap, sym, subst, ◌∙◌, Bytes, Bool, true, false, ◌||◌, ◌∷◌, none, some,
  nat_eq, bytes_eq, bytes_iff, Dict, has, is_empty, slash, arith, Bool-cases, Option-cases,
}
use termite.Attr.FileAttr.{
  Attr, FileAttr, deleted, deletion, has_type, is_dir, is_regular, is_symlink,
}
use termite.Attr.FileAttr.Encoded.{EncodedAttr, from_attr, eq, decode}
use termite.Cba.Fetch.{Store, has_hash}
use termite.Cba.Fetch.Integrity.{has_hash-empty}
use termite.Master.Expose.{
  Options, Disk, nobody, names_of, read_from_fs, is_private, read_xattr, cached_hash, fill_content,
  find_content, uncached_get_attr,
}

is_regular-attr : (r s : FileAttr) → r.attr ≡ s.attr → is_regular r ≡ is_regular s
unfolding is_regular has_type
is_regular-attr r s e = ground (arith, e)

no_attr-is_regular : (r : FileAttr) → r.attr ≡ none → is_regular r ≡ false
unfolding is_regular has_type
no_attr-is_regular r e = ground (arith, e)

not_regular : (r : FileAttr) → (is_symlink r || is_dir r) ≡ true → is_regular r ≡ false
unfolding is_regular is_symlink is_dir has_type
not_regular r t = ground (arith, t)

module _ (o : Options) (excluded : Dict Bytes Bool) (d : Disk) (st : Store) (name : Bytes) where
  -- What is not shown.
  abbrev pub IsHidden : Type 0
  IsHidden =
      (slash ∷ name ≡ o.socket)
      ⊎ (slash ∷ name ≡ o.log_file)
      ⊎ (has name excluded ≡ true)
      ⊎ ((o.expose_private ≡ false)
          × ((a : Attr) × (d.lstat (slash ∷ name) ≡ some a) × (is_private a ≡ true)))

  uncached_get_attr-hidden : IsHidden → uncached_get_attr o excluded d st name ≡ deleted name
  unfolding uncached_get_attr
  uncached_get_attr-hidden (inl e) = ground (arith, bytes_iff (slash ∷ name) o.socket, e)
  uncached_get_attr-hidden (inr (inl e)) = ground (arith, bytes_iff (slash ∷ name) o.log_file, e)
  uncached_get_attr-hidden (inr (inr (inl e))) = ground (arith, e)
  uncached_get_attr-hidden (inr (inr (inr (e, (a, f, g))))) = ground (arith, e, f, g)

  -- The hash under which the file is saved now, or the one in its extended attribute, if that was written for the
  -- attributes that the file has, and the store has a file under it.
  abbrev pub IsContent : Bytes → Bytes → Type 0
  IsContent p hash =
      (hash ≡ d.save_path p)
      ⊎ ((a : Attr) × (val : Bytes) × (disk : EncodedAttr) × (d.lstat p ≡ some a)
          × (d.getxattr p ≡ some val)
          × (decode nobody val ≡ (disk, some hash))
          × (eq (from_attr a) disk ≡ true)
          × (has_hash st hash ≡ true))

  abbrev Hashed : Bytes → FileAttr → Type 0
  Hashed p rep = is_regular rep ≡ true → (is_empty rep.hash ≡ false) × IsContent p rep.hash

  read_xattr-some :
      (p h : Bytes) (a : Attr)
      → read_xattr d p a ≡ some h
      → (val : Bytes) × (disk : EncodedAttr) × (d.getxattr p ≡ some val)
        × (decode nobody val ≡ (disk, some h))
        × (eq (from_attr a) disk ≡ true)
  unfolding read_xattr
  read_xattr-some p h a e = elim (Option-cases (d.getxattr p)) [
    | inl n ↦ absurd (ground (arith, n, e))
    | inr (val, x) ↦ elim (Bool-cases (eq (from_attr a) (decode nobody val).0)) [
      | inr f ↦ absurd (ground (arith, x, f, e))
      | inl t ↦
          let q : (decode nobody val).1 ≡ some h = ground (arith, x, t, e) in
          (val, (decode nobody val).0, x, ap (λ y. ((decode nobody val).0, y)) q, t)
    ]
  ]

  cached_hash-Hashed :
      (p : Bytes) (rep : FileAttr) (h : Bytes)
      → rep.attr ≡ d.lstat p
      → cached_hash o d st p rep ≡ some h
      → (is_empty h ≡ false) × IsContent p h
  unfolding cached_hash
  cached_hash-Hashed p rep h l e = elim (Option-cases rep.attr) [
    | inl n ↦ absurd (ground (arith, n, e))
    | inr (a, n) ↦ elim (Option-cases (read_xattr d p a)) [
      | inl x ↦ absurd (ground (arith, n, x, e))
      | inr (g, x) ↦
          let same : (g ≡ h) × (has_hash st g ≡ true) =
            (ground (arith, n, x, e), ground (arith, n, x, e)) in
          let x' : read_xattr d p a ≡ some h = x ∙ ap some same.0 in
          let (val, disk, got, read, eqs) = read_xattr-some p h a x' in
          (
            ground (arith, has_hash-empty st g, same),
            inr (a, val, disk, sym l ∙ n, got, read, eqs, ground (arith, same)),
          )
    ]
  ]

  read_from_fs-is_regular :
      (p : Bytes) (rep : FileAttr)
      → (is_symlink rep || is_dir rep) ≡ true
      → is_regular (read_from_fs d p rep) ≡ false
  unfolding read_from_fs
  read_from_fs-is_regular p rep t =
      let plain = not_regular rep t in
      elim (Bool-cases (is_dir rep)) [
        | inl e ↦ elim (Option-cases (d.read_dir p)) [
          | inl n ↦ rw (plain, e, n) (no_attr-is_regular (record rep { attr = none }) refl)
          | inr (l, n) ↦
              rw (plain, e, n)
                (is_regular-attr (record rep { names = some (names_of l) }) rep refl ∙ plain)
        ]
        | inr e ↦ elim (Bool-cases (is_symlink rep)) [
          | inl f ↦ elim (Option-cases (d.read_link p)) [
            | inl n ↦ rw (plain, e, f, n) (no_attr-is_regular (record rep { attr = none }) refl)
            | inr (l, n) ↦
                rw (plain, e, f, n) (is_regular-attr (record rep { link = l }) rep refl ∙ plain)
          ]
          | inr f ↦ absurd (ground arith)
        ]
      ]

  fill_content-Hashed : (p : Bytes) (rep : FileAttr) → Hashed p (fill_content d p rep)
  unfolding fill_content
  fill_content-Hashed p rep e = elim (Bool-cases (is_symlink rep || is_dir rep)) [
    | inl t ↦ absurd (ground (arith, t, e, read_from_fs-is_regular p rep t))
    | inr t ↦ elim (Bool-cases (is_regular rep)) [
      | inl r ↦ elim (Bool-cases (is_empty (d.save_path p))) [
        | inl z ↦ absurd (
            ground (
              arith,
              t,
              r,
              z,
              e,
              no_attr-is_regular (record rep { hash = d.save_path p; attr = none }) refl,
            ))
        | inr z ↦ rw (t, r, z) (refl, inl refl)
      ]
      | inr r ↦ absurd (ground (arith, t, r, e))
    ]
  ]

  find_content-Hashed :
      (p : Bytes) (rep : FileAttr) → rep.attr ≡ d.lstat p → Hashed p (find_content o d st p rep)
  unfolding find_content
  find_content-Hashed p rep l = elim (Option-cases (cached_hash o d st p rep)) [
    | inl n ↦ elim (Option-cases rep.attr) [
      | inl a ↦
          let same : find_content o d st p rep ≡ rep = ground (arith, n, a) in
          subst (Hashed p) (sym same) (λ e. absurd (ground (arith, e, no_attr-is_regular rep a)))
      | inr (a, q) ↦
          let same : find_content o d st p rep ≡ fill_content d p rep = ground (arith, n, q) in
          subst (Hashed p) (sym same) (fill_content-Hashed p rep)
    ]
    | inr (h, n) ↦
        let same : find_content o d st p rep ≡ record rep { hash = h } = ground (arith, n) in
        subst (Hashed p) (sym same) (λ e. cached_hash-Hashed p rep h l n)
  ]

  -- A file is not shown, or is what is found of it.
  uncached_get_attr-cases :
      (uncached_get_attr o excluded d st name ≡ deleted name)
      ⊎ (uncached_get_attr o excluded d st name
          ≡ find_content o d st
              (slash ∷ name)
              (record (deleted name) { attr = d.lstat (slash ∷ name) }))
  unfolding uncached_get_attr
  uncached_get_attr-cases = ground arith

  uncached_get_attr-Hashed : Hashed (slash ∷ name) (uncached_get_attr o excluded d st name)
  uncached_get_attr-Hashed = elim uncached_get_attr-cases [
    | inl e ↦ subst (Hashed (slash ∷ name)) (sym e) (λ r.
        absurd (ground (arith, r, no_attr-is_regular (deleted name) (unfold deleted in refl))))
    | inr e ↦ subst (Hashed (slash ∷ name)) (sym e) (
        find_content-Hashed (slash ∷ name) (record (deleted name) { attr = d.lstat (slash ∷ name) })
          refl)
  ]

  -- A file that the master shows is not its socket or log file, not excluded, and not private unless private
  -- files are to be exposed. A regular file is shown with a hash that is not empty: the one under which it is
  -- saved, or the one in its extended attribute, if that was written for the attributes that the file has and
  -- the store has the content.
  pub uncached_get_attr-exposed :
      let rep : FileAttr = uncached_get_attr o excluded d st name in
      deletion rep ≡ false
      → ((IsHidden → ⊥))
        × (is_regular rep ≡ true → (is_empty rep.hash ≡ false) × IsContent (slash ∷ name) rep.hash)
  unfolding deleted deletion
  uncached_get_attr-exposed e =
      (λ h. ground (arith, e, ap deletion (uncached_get_attr-hidden h)), uncached_get_attr-Hashed)
