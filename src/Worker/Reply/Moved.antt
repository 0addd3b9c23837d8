-- ===== src/Worker/Reply/Moved.antt =====
-- The files of the backing store that `reap` moves: where each one is afterwards.
use termite.Base.{
  ℕ, suc, ◌<◌, ◌≡◌, ◌≢◌, ◌⊎◌, inl, inr, refl, sym, ap, ◌∙◌, Bytes, Bool, true, false, List, [], ◌∷◌,
  ◌++◌, Option, none, some, ◌==◌, bytes_eq, bytes_iff, Dict, lookup, insert, erase, lookup-insert,
  lookup-erase, if◌then◌else◌, is_empty, has_prefix, has_prefix-append, append_assoc,
  append_left_cancel, slash, decimal-injective, arith, Bool-cases, Option-cases,
}
use termite.Union.Reap.{Result}
use termite.Worker.Reply.{
  Files, rename, Moving, new_backing, name_in, move_new, move_backing, move_backings,
}

-- The path is below the directory.
abbrev pub IsBelow : Bytes → Bytes → Type 0
IsBelow dir p = has_prefix p (dir ++ slash ∷ []) ≡ true

name_in-injective : (dir : Bytes) (m n : ℕ) → name_in dir m ≡ name_in dir n → m ≡ n
unfolding name_in
name_in-injective dir m n e =
    decimal-injective m n (append_left_cancel (slash ∷ []) (append_left_cancel dir e))

name_in-IsBelow : (dir : Bytes) (n : ℕ) → IsBelow dir (name_in dir n)
unfolding name_in
name_in-IsBelow dir n =
    rw (← append_assoc dir (slash ∷ []) (termite.Base.decimal n))
      (has_prefix-append (dir ++ slash ∷ []) _)

name_in-is_empty : (dir : Bytes) (n : ℕ) → is_empty (name_in dir n) ≡ false
unfolding name_in is_empty
name_in-is_empty [] n = refl
name_in-is_empty (c ∷ dir) n = refl

abbrev pub HasBacking : Result → Type 0
HasBacking v = is_empty v.backing ≡ false

-- What `reap` makes of a result.
abbrev pub Moves : Moving → Result → Result → Type 0
Moves t v v' =
    ((is_empty v.backing ≡ true) × (v' ≡ v))
    ⊎ ((p : Bytes) × HasBacking v
        × HasBacking v'
        × (v' ≡ record v { backing = p })
        × (lookup v.backing t.moved ≡ some p))

abbrev Grows : Moving → Moving → Type 0
Grows s t = (b p : Bytes) → lookup b s.moved ≡ some p → lookup b t.moved ≡ some p

Moves-Grows : (s t : Moving) (v v' : Result) → Grows s t → Moves s v v' → Moves t v v'
Moves-Grows s t v v' g (inl m) = inl m
Moves-Grows s t v v' g (inr (p, f, f', e, l)) = inr (p, f, f', e, g v.backing p l)

-- A file that was moved is the one of this result, or was moved before.
abbrev Only : Result → Moving → Moving → Type 0
Only v s t =
    (b p : Bytes)
    → lookup b t.moved ≡ some p
    → (lookup b s.moved ≡ some p) ⊎ ((b ≡ v.backing) × HasBacking v)

module _ (dir : Bytes) (F : Files) (fresh : (p : Bytes) → IsBelow dir p → lookup p F ≡ none) where
  pub record IsMoving (s : Moving) : Type 0 where
    pub made :
        (p c : Bytes)
        → IsBelow dir p
        → lookup p s.files ≡ some c
        → (b : Bytes) × (lookup b s.moved ≡ some p)
    pub there :
        (b p : Bytes)
        → lookup b s.moved ≡ some p
        → (k : ℕ) × (c : Bytes) × (k < s.next)
          × (p ≡ name_in dir k)
          × (lookup p s.files ≡ some c)
          × (lookup b F ≡ some c)
    pub kept :
        (b c : Bytes) → lookup b s.moved ≡ none → lookup b F ≡ some c → lookup b s.files ≡ some c

  -- What was there before is not below the directory.
  not_below : (b c p : Bytes) → lookup b F ≡ some c → IsBelow dir p → b ≢ p
  not_below b c p l u e = ground (arith, l, fresh b (termite.Base.subst (IsBelow dir) (sym e) u))

  module _ (v : Result) (s : Moving) (c : Bytes) where
    abbrev after_move : Moving
    after_move = record {
      files = insert (name_in dir s.next) c (erase v.backing s.files);
      moved = insert v.backing (name_in dir s.next) s.moved;
      next = suc s.next;
    }

    module _ (m : IsMoving s) (new : lookup v.backing s.moved ≡ none)
        (held : lookup v.backing F ≡ some c) where
      files-after :
          (p : Bytes)
          → lookup p after_move.files ≡ (
              if p == name_in dir s.next
              then some c
              else if p == v.backing
              then none
              else lookup p s.files)
      files-after p = ground (
        arith,
        lookup-insert p (name_in dir s.next) c (erase v.backing s.files),
        lookup-erase p v.backing s.files,
      )

      moved-after :
          (b : Bytes)
          → lookup b after_move.moved
            ≡ (if b == v.backing then some (name_in dir s.next) else lookup b s.moved)
      moved-after b = lookup-insert b v.backing (name_in dir s.next) s.moved

      move_new-eq : move_new dir v s ≡ some (record v { backing = name_in dir s.next }, after_move)
      unfolding move_new rename
      move_new-eq = ground (arith, m.kept v.backing c new held)

      after_move-made :
          (p d : Bytes)
          → IsBelow dir p
          → lookup p after_move.files ≡ some d
          → (b : Bytes) × (lookup b after_move.moved ≡ some p)
      after_move-made p d u l = elim (Bool-cases (p == name_in dir s.next)) [
        | inl e ↦ (
          v.backing,
          ground (
            arith,
            moved-after v.backing,
            bytes_iff v.backing v.backing,
            bytes_iff p (name_in dir s.next),
          ),
        )
        | inr n ↦
            let l' : lookup p s.files ≡ some d = ground (arith, files-after p, n, l) in
            let (b, h) = m.made p d u l' in
            (b, ground (arith, moved-after b, new, h, bytes_iff b v.backing))
      ]

      after_move-there :
          (b p : Bytes)
          → lookup b after_move.moved ≡ some p
          → (k : ℕ) × (d : Bytes) × (k < suc s.next)
            × (p ≡ name_in dir k)
            × (lookup p after_move.files ≡ some d)
            × (lookup b F ≡ some d)
      after_move-there b p l = elim (Bool-cases (b == v.backing)) [
        | inl e ↦ (
          s.next,
          c,
          omega arith,
          ground (arith, moved-after b, e, l),
          ground (arith, files-after p, moved-after b, e, l, bytes_iff p (name_in dir s.next)),
          ground (arith, held, bytes_iff b v.backing, e),
        )
        | inr n ↦
            let l' : lookup b s.moved ≡ some p = ground (arith, moved-after b, n, l) in
            let (k, d, lt, same, in_files, before) = m.there b p l' in
            (
              k,
              d,
              omega arith,
              same,
              ground (
                arith,
                files-after p,
                in_files,
                same,
                name_in-injective dir k s.next,
                bytes_iff p (name_in dir s.next),
                bytes_iff p v.backing,
                not_below v.backing c p held (rw same (name_in-IsBelow dir k)),
              ),
              before,
            )
      ]

      after_move-kept :
          (b d : Bytes)
          → lookup b after_move.moved ≡ none
          → lookup b F ≡ some d
          → lookup b after_move.files ≡ some d
      after_move-kept b d l f = ground (
        arith,
        files-after b,
        moved-after b,
        l,
        m.kept b d,
        not_below b d (name_in dir s.next) f (name_in-IsBelow dir s.next),
        bytes_iff b (name_in dir s.next),
      )

      after_move-IsMoving : IsMoving after_move
      after_move-IsMoving = record {
        made = after_move-made;
        there = after_move-there;
        kept = after_move-kept;
      }

  -- A round of `reap`, for a result whose file is there.
  abbrev IsHeld : Result → Type 0
  IsHeld v = HasBacking v → (c : Bytes) × (lookup v.backing F ≡ some c)

  new_backing-none :
      (s : Moving) (b : Bytes)
      → IsMoving s
      → is_empty (new_backing b s.moved) ≡ true
      → lookup b s.moved ≡ none
  unfolding new_backing
  new_backing-none s b m e = elim (Option-cases (lookup b s.moved)) [
    | inl n ↦ n
    | inr (p, l) ↦
        let (k, c, lt, same, at, before) = m.there b p l in
        absurd (ground (arith, e, l, same, name_in-is_empty dir k))
  ]

  new_backing-some :
      (s : Moving) (b : Bytes)
      → is_empty (new_backing b s.moved) ≡ false
      → lookup b s.moved ≡ some (new_backing b s.moved)
  unfolding new_backing is_empty
  new_backing-some s b e = elim (Option-cases (lookup b s.moved)) [
    | inl n ↦ absurd (ground (arith, e, n))
    | inr (p, l) ↦ ground (arith, l)
  ]

  abbrev Moved : Result → Moving → Result × Moving → Type 0
  Moved v s r = IsMoving r.1 × Grows s r.1 × Moves r.1 v r.0 × Only v s r.1

  move_new-Moved :
      (v : Result) (s : Moving) (c : Bytes)
      → IsMoving s
      → HasBacking v
      → lookup v.backing s.moved ≡ none
      → lookup v.backing F ≡ some c
      → (r : Result × Moving) × (move_new dir v s ≡ some r) × Moved v s r
  move_new-Moved v s c m f new held = (
    (record v { backing = name_in dir s.next }, after_move v s c),
    move_new-eq v s c m new held,
    (
      after_move-IsMoving v s c m new held,
      (λ b p l. ground (arith, moved-after v s c m new held b, l, new, bytes_iff b v.backing)),
      inr (
        name_in dir s.next,
        f,
        name_in-is_empty dir s.next,
        refl,
        ground (arith, moved-after v s c m new held v.backing, bytes_iff v.backing v.backing),
      ),
      λ b p l. ground (arith, moved-after v s c m new held b, l, f, bytes_iff b v.backing),
    ),
  )

  move_backing-Moved :
      (v : Result) (s : Moving)
      → IsMoving s
      → IsHeld v
      → (r : Result × Moving) × (move_backing dir v s ≡ some r) × Moved v s r
  unfolding move_backing
  move_backing-Moved v s m h = elim (Bool-cases (is_empty v.backing)) [
    | inl e ↦ ((v, s), rw e refl, (m, (λ b p l. l), inl (e, refl), λ b p l. inl l))
    | inr f ↦ elim (Bool-cases (is_empty (new_backing v.backing s.moved))) [
      | inl e ↦
          let (r, eq, moved) =
            move_new-Moved v s (h f).0 m f (new_backing-none s v.backing m e) (h f).1 in
          (r, rw (f, e) eq, moved)
      | inr g ↦ (
        (record v { backing = new_backing v.backing s.moved }, s),
        rw (f, g) refl,
        (
          m,
          (λ b p l. l),
          inr (new_backing v.backing s.moved, f, g, refl, new_backing-some s v.backing g),
          λ b p l. inl l,
        ),
      )
    ]
  ]

  -- The results of `reap`, in order, each under its path.
  abbrev pub AllMoved : Moving → Dict Bytes Result → Dict Bytes Result → Type 0
  AllMoved t [] [] = Unit
  AllMoved t ((path, v) ∷ yield) ((path', v') ∷ yield') =
      (path' ≡ path) × Moves t v v' × AllMoved t yield yield'
  AllMoved t [] (_ ∷ _) = ⊥
  AllMoved t (_ ∷ _) [] = ⊥

  abbrev pub AllHeld : Dict Bytes Result → Type 0
  AllHeld = termite.Base.All (λ e. IsHeld e.1)

  -- The file is that of one of the results.
  abbrev pub IsOneOf : Bytes → Dict Bytes Result → Type 0
  IsOneOf b [] = ⊥
  IsOneOf b ((_, v) ∷ yield) = ((b ≡ v.backing) × HasBacking v) ⊎ IsOneOf b yield

  pub move_backings-AllMoved :
      (yield : Dict Bytes Result) (s : Moving)
      → IsMoving s
      → AllHeld yield
      → (yield' : Dict Bytes Result) × (t : Moving) × (move_backings dir yield s ≡ some (yield', t))
        × IsMoving t
        × Grows s t
        × AllMoved t yield yield'
        × ((b p : Bytes)
            → lookup b t.moved ≡ some p
            → (lookup b s.moved ≡ some p) ⊎ IsOneOf b yield)
  unfolding move_backings
  move_backings-AllMoved [] s m h = ([], s, refl, m, (λ b p l. l), tt, λ b p l. inl l)
  move_backings-AllMoved ((path, v) ∷ yield) s m (hv, h) =
      let ((v', s'), e, (m', g, r, o)) = move_backing-Moved v s m hv in
      let (yield', t, e', m'', g', rs, o') = move_backings-AllMoved yield s' m' h in
      (
        (path, v') ∷ yield',
        t,
        rw (e, e') refl,
        m'',
        (λ b p l. g' b p (g b p l)),
        (refl, Moves-Grows s' t v v' g' r, rs),
        λ b p l. elim (o' b p l) [
          | inl l' ↦ elim (o b p l') [ inl l'' ↦ inl l'' | inr i ↦ inr (inl i) ]
          | inr i ↦ inr (inr i)
        ],
      )
