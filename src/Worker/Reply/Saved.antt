-- ===== src/Worker/Reply/Saved.antt =====
-- The loop of `fillReply`: each file is saved once, and its hash is that of its content.
use termite.Base.{
  ◌≤◌, ◌≡◌, ◌≢◌, inl, inr, refl, Bytes, true, false, List, [], ◌∷◌, Option, none, some, ◌==◌,
  length, bytes_eq, bytes_iff, if◌then◌else◌, Dict, lookup, lookup-insert, lookup-erase, is_empty,
  arith, Bool-cases, Option-cases,
}
use termite.Paths.{join}
use termite.Attr.FileAttr.{FileAttr, deletion, is_regular}
use termite.Cba.Fetch.{Hash, Store, has_hash, save}
use termite.Cba.Fetch.Integrity.{IsAddressed, save-IsAddressed, open_hash-save}
use termite.Cba.Fetch.Kept.{has_hash-save, open_hash-has_hash}
use termite.Union.Reap.{Result}
use termite.Worker.Reply.{
  Files, Filling, destructive_save_path, save_new, save_backing, original_hash, fill_hash, attr_of,
  fill_one, fill_all,
}
use termite.Worker.Reply.Moved.{HasBacking}

sum-ne-empty : (h : Hash) (c : Bytes) → is_empty (h.sum c) ≡ false
unfolding is_empty
sum-ne-empty h c = go (h.sum c) (h.sum_pos c)
  where
    go : (s : Bytes) → 1 ≤ length s → is_empty s ≡ false
    go [] l = absurd (omega arith)
    go (b ∷ s) l = refl

-- The store after `DestructiveSavePath` of a content.
abbrev saved : Hash → Store → Bytes → Store
saved h st c = if has_hash st (h.sum c) then st else save h st c

module _ (h : Hash) (st : Store) (c : Bytes) where
  saved-IsAddressed : IsAddressed h st → IsAddressed h (saved h st c)
  saved-IsAddressed a = elim (Bool-cases (has_hash st (h.sum c))) [
    | inl e ↦ rw e a
    | inr e ↦ rw e (save-IsAddressed h st c a)
  ]

  saved-has_hash : (k : Bytes) → has_hash st k ≡ true → has_hash (saved h st c) k ≡ true
  saved-has_hash k f = elim (Bool-cases (has_hash st (h.sum c))) [
    | inl e ↦ rw e f
    | inr e ↦ rw e (has_hash-save h st c k f)
  ]

  saved-has_hash_self : has_hash (saved h st c) (h.sum c) ≡ true
  saved-has_hash_self = elim (Bool-cases (has_hash st (h.sum c))) [
    | inl e ↦ rw (e, e) refl
    | inr e ↦ rw e (open_hash-has_hash (save h st c) (h.sum c) c (open_hash-save h st c))
  ]

module _ (h : Hash) (G : Files) where
  pub record IsFilling (s : Filling) : Type 0 where
    pub saved_once :
        (b hash : Bytes)
        → lookup b s.reaped ≡ some hash
        → (c : Bytes) × (lookup b G ≡ some c)
          × (hash ≡ h.sum c)
          × (has_hash s.store (h.sum c) ≡ true)
          × (lookup b s.files ≡ none)
    pub kept : (b : Bytes) → lookup b s.reaped ≡ none → lookup b s.files ≡ lookup b G
    pub addressed : IsAddressed h s.store

  -- What is known of an earlier state stays so.
  abbrev pub Keeps : Filling → Filling → Type 0
  Keeps s t =
      ((b hash : Bytes) → lookup b s.reaped ≡ some hash → lookup b t.reaped ≡ some hash)
      × ((k : Bytes) → has_hash s.store k ≡ true → has_hash t.store k ≡ true)

  module _ (b c : Bytes) (s : Filling) (m : IsFilling s) (new : lookup b s.reaped ≡ none)
      (held : lookup b G ≡ some c) where
    abbrev after_save : Filling
    after_save = record {
      files = termite.Base.erase b s.files;
      store = saved h s.store c;
      reaped = termite.Base.insert b (h.sum c) s.reaped;
    }

    reaped-after :
        (q : Bytes)
        → lookup q after_save.reaped ≡ (if q == b then some (h.sum c) else lookup q s.reaped)
    reaped-after q = lookup-insert q b (h.sum c) s.reaped

    save_new-eq : save_new h b s ≡ some (h.sum c, after_save)
    unfolding save_new destructive_save_path
    save_new-eq = rw (m.kept b new, held, sum-ne-empty h c) refl

    after_save-saved_once :
        (q hash : Bytes)
        → lookup q after_save.reaped ≡ some hash
        → (d : Bytes) × (lookup q G ≡ some d)
          × (hash ≡ h.sum d)
          × (has_hash after_save.store (h.sum d) ≡ true)
          × (lookup q after_save.files ≡ none)
    after_save-saved_once q hash l = elim (Bool-cases (q == b)) [
      | inl e ↦ (
        c,
        ground (arith, held, bytes_iff q b, e),
        ground (arith, reaped-after q, e, l),
        saved-has_hash_self h s.store c,
        ground (arith, lookup-erase q b s.files, e),
      )
      | inr n ↦
          let l' : lookup q s.reaped ≡ some hash = ground (arith, reaped-after q, n, l) in
          let (d, before, same, there, gone) = m.saved_once q hash l' in
          (
            d,
            before,
            same,
            saved-has_hash h s.store c (h.sum d) there,
            ground (arith, lookup-erase q b s.files, gone),
          )
    ]

    after_save-IsFilling : IsFilling after_save
    after_save-IsFilling = record {
      saved_once = after_save-saved_once;
      kept = λ q l. ground (arith, reaped-after q, l, lookup-erase q b s.files, m.kept q);
      addressed = saved-IsAddressed h s.store c m.addressed;
    }

    after_save-Keeps : Keeps s after_save
    after_save-Keeps = (
      λ q hash l. ground (arith, reaped-after q, l, new, bytes_iff q b),
      saved-has_hash h s.store c,
    )

  save_backing-eq :
      (b c : Bytes) (s : Filling)
      → IsFilling s
      → lookup b G ≡ some c
      → (hash : Bytes) × (t : Filling) × (save_backing h b s ≡ some (hash, t))
        × (IsFilling t × Keeps s t × (lookup b t.reaped ≡ some hash))
  unfolding save_backing
  save_backing-eq b c s m held = elim (Option-cases (lookup b s.reaped)) [
    | inl new ↦ (
      h.sum c,
      after_save b c s m new held,
      rw (new, save_backing) (save_new-eq b c s m new held),
      (
        after_save-IsFilling b c s m new held,
        after_save-Keeps b c s m new held,
        ground (arith, reaped-after b c s m new held b, bytes_iff b b),
      ),
    )
    | inr (hash, l) ↦ (hash, s, rw (l, save_backing) refl, (m, ((λ q k x. x), λ k x. x), l))
  ]

  is_regular-deletion : (f : FileAttr) → is_regular f ≡ true → deletion f ≡ false
  unfolding is_regular deletion termite.Attr.FileAttr.has_type
  is_regular-deletion f e = ground arith

  module _ (get : Bytes → FileAttr) (root : Bytes) where
    -- What the union file system and the cache owe: a result with a file is a regular file that is there, and
    -- the cache has the contents of a file below that was moved.
    abbrev pub IsReady : Bytes → Result → Type 0
    IsReady path v =
        (HasBacking v
          → (is_regular (attr_of root path v) ≡ true) × (c : Bytes) × (lookup v.backing G ≡ some c))
        × (is_empty v.original ≡ false → is_empty (get (join root v.original)).hash ≡ false)

    -- The file has the hash of its content below.
    abbrev pub HasOriginal : Result → Bytes → Type 0
    HasOriginal v hash =
        is_empty v.original ≡ false
        → v.original ≢ join root v.original
        → hash ≡ (get (join root v.original)).hash

    abbrev pub IsFilled : Filling → Bytes → Result → FileAttr → Type 0
    IsFilled t path v f =
        (f.path ≡ join root path)
        × (f.attr ≡ v.attr)
        × (f.link ≡ v.link)
        × (HasBacking v → lookup v.backing t.reaped ≡ some f.hash)
        × (is_empty v.backing ≡ true
            → is_regular (attr_of root path v) ≡ true
            → HasOriginal v f.hash)

    original_hash-eq :
        (path : Bytes) (v : Result)
        → IsReady path v
        → (hash : Bytes) × (original_hash get root v ≡ some hash) × HasOriginal v hash
    unfolding original_hash
    original_hash-eq path v (_, there) = elim (Bool-cases (is_empty v.original)) [
      | inl e ↦ ([], rw e refl, λ f. absurd (ground (arith, e, f)))
      | inr f ↦ elim (Bool-cases (v.original == join root v.original)) [
        | inl e ↦ (
          [],
          rw (f, e) refl,
          λ _ n. absurd (n (ground (arith, bytes_iff v.original (join root v.original), e))),
        )
        | inr e ↦ ((get (join root v.original)).hash, rw (f, e, there f) refl, λ _ _. refl)
      ]
    ]

    abbrev Filled : Bytes → Result → Filling → FileAttr × Filling → Type 0
    Filled path v s r = IsFilling r.1 × Keeps s r.1 × IsFilled r.1 path v r.0

    fill_hash-Filled :
        (path : Bytes) (v : Result) (s : Filling)
        → IsFilling s
        → IsReady path v
        → (hash : Bytes) × (t : Filling) × (fill_hash h get root v s ≡ some (hash, t))
          × Filled path v s (record (attr_of root path v) { hash = hash }, t)
    unfolding fill_hash attr_of
    fill_hash-Filled path v s m ready =
        let (hash, e, held) = original_hash-eq path v ready in
        elim (Bool-cases (is_empty v.backing)) [
          | inl none_there ↦ (
            hash,
            s,
            rw (e, none_there) refl,
            (
              m,
              ((λ q k x. x), λ k x. x),
              (refl, refl, refl, (λ f. absurd (ground (arith, f, none_there))), λ _ _. held),
            ),
          )
          | inr there ↦
              let (regular, c, l) = ready.0 there in
              let (hash', t, e', (m', k, saved)) = save_backing-eq v.backing c s m l in
              (
                hash',
                t,
                rw (e, there) e',
                (m', k, (refl, refl, refl, (λ _. saved), λ f. absurd (ground (arith, f, there)))),
              )
        ]

    fill_one-Filled :
        (path : Bytes) (v : Result) (s : Filling)
        → IsFilling s
        → IsReady path v
        → (r : FileAttr × Filling) × (fill_one h get root path v s ≡ some r) × Filled path v s r
    unfolding fill_one
    fill_one-Filled path v s m ready = elim (Bool-cases (is_regular (attr_of root path v))) [
      | inl e ↦
          let (hash, t, e', filled) = fill_hash-Filled path v s m ready in
          (
            (record (attr_of root path v) { hash = hash }, t),
            rw (is_regular-deletion (attr_of root path v) e, e, e') refl,
            filled,
          )
      | inr n ↦ (
        (attr_of root path v, s),
        ground (arith, n),
        (
          m,
          ((λ q k x. x), λ k x. x),
          unfold attr_of in
              (
                refl,
                refl,
                refl,
                (λ f. absurd (ground (arith, n, (ready.0 f).0))),
                λ _ f. absurd (ground (arith, n, f)),
              ),
        ),
      )
    ]

    abbrev pub AllReady : Dict Bytes Result → Type 0
    AllReady = termite.Base.All (λ e. IsReady e.0 e.1)

    abbrev pub AllFilled : Filling → Dict Bytes Result → List FileAttr → Type 0
    AllFilled t [] [] = Unit
    AllFilled t ((path, v) ∷ yield) (f ∷ files) = IsFilled t path v f × AllFilled t yield files
    AllFilled t [] (_ ∷ _) = ⊥
    AllFilled t (_ ∷ _) [] = ⊥

    pub fill_all-AllFilled :
        (yield : Dict Bytes Result) (s : Filling)
        → IsFilling s
        → AllReady yield
        → (files : List FileAttr) × (t : Filling) × (fill_all h get root yield s ≡ some (files, t))
          × (IsFilling t × Keeps s t × AllFilled t yield files)
    unfolding fill_all
    fill_all-AllFilled [] s m ready = ([], s, refl, (m, ((λ q k x. x), λ k x. x), tt))
    fill_all-AllFilled ((path, v) ∷ yield) s m (r, ready) =
        let ((f, s'), e, (m', k, (p, a, l, saved, held))) = fill_one-Filled path v s m r in
        let (files, t, e', (m'', k', rest)) = fill_all-AllFilled yield s' m' ready in
        (
          f ∷ files,
          t,
          rw (e, e') refl,
          (
            m'',
            ((λ q x y. k'.0 q x (k.0 q x y)), λ x y. k'.1 x (k.1 x y)),
            ((p, a, l, (λ b. k'.0 v.backing f.hash (saved b)), held), rest),
          ),
        )
