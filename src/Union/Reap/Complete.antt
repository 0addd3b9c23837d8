-- ===== src/Union/Reap/Complete.antt =====
-- `Reap` ends, and no change and no deletion is left out: each has a result under its path.
use termite.Base.{
  ℕ, zero, suc, ◌<◌, ◌≡◌, inl, inr, refl, sym, ap, ◌∙◌, subst, Bytes, true, false, List, [], ◌∷◌,
  Option, none, some, ◌==◌, nat_eq, bytes_eq, bytes_iff, Dict, lookup, has, has-insert, All, arith,
  Bool-cases, Option-cases,
}
use termite.Paths.{join}
use termite.Union.Tree.{Inodes}
use termite.Union.{ReadOnly, MemNode, MemUnionFs}
use termite.Union.Names.{is_some}
use termite.Union.Reap.{Result, node_result, note_changed, reap_children, reap_node, reap}
use termite.Union.Reap.Below.{Grows, Ends, IsSized, reap_deleted-Ends}

module _ (I : Inodes) (s : MemUnionFs I.Table) where
  -- The tree below an inode is no deeper than this.
  abbrev pub IsWithin : ℕ → ℕ → Type 0
  IsWithin zero i = ⊥
  IsWithin (suc fuel) i = All (λ (_, c). IsWithin fuel c) (I.children i s.table)

  -- The inode that is found along the names.
  unfoldable pub walk : List Bytes → ℕ → Option ℕ
  walk [] i = some i
  walk (name ∷ names) i = elim (lookup name (I.children i s.table)) [
    | none ↦ none
    | some c ↦ walk names c
  ]

  unfoldable pub path_along : Bytes → List Bytes → Bytes
  path_along path [] = path
  path_along path (name ∷ names) = path_along (join path name) names

  abbrev Step : Type 0
  Step = Bytes → ℕ → Dict Bytes Result → Option (Dict Bytes Result)

  abbrev EndsAt : Step → Bytes × ℕ → Type 0
  EndsAt f (_, c) = (path : Bytes) (m : Dict Bytes Result) → Ends m (f path c m)

  reap_children-Ends :
      (f : Step) (path : Bytes) (children : Dict Bytes ℕ) (m : Dict Bytes Result)
      → All (EndsAt f) children
      → Ends m (reap_children I f path children m)
  unfolding reap_children
  reap_children-Ends f path [] m a = (m, refl, λ k h. h)
  reap_children-Ends f path ((name, c) ∷ children) m a =
      let (m₁, e, g) = a.0 (join path name) m in
      let (m', e', g') = reap_children-Ends f path children m₁ a.1 in
      (m', rw (e, reap_children) e', λ k h. g' k (g k h))

  note_changed-Grows :
      (path : Bytes) (n : MemNode) (m : Dict Bytes Result) → Grows m (note_changed I path n m)
  unfolding note_changed
  note_changed-Grows path n m k h = ground (arith, h, has-insert k path (node_result n) m)

  All-EndsAt :
      (fuel : ℕ) (children : Dict Bytes ℕ)
      → ((c : ℕ) → IsWithin fuel c → EndsAt (reap_node I s fuel) ([], c))
      → All (λ (_, c). IsWithin fuel c) children
      → All (EndsAt (reap_node I s fuel)) children
  All-EndsAt fuel [] f w = tt
  All-EndsAt fuel ((name, c) ∷ children) f w = (f c w.0, All-EndsAt fuel children f w.1)

  reap_node-Ends :
      (fuel : ℕ) (path : Bytes) (i : ℕ) (m : Dict Bytes Result)
      → IsWithin fuel i
      → Ends m (reap_node I s fuel path i m)
  unfolding reap_node
  reap_node-Ends zero path i m w = absurd w
  reap_node-Ends (suc fuel) path i m w =
      let (m', e, g) =
        reap_children-Ends (reap_node I s fuel) path (I.children i s.table)
          (note_changed I path (s.nodes i) m)
          (All-EndsAt fuel (I.children i s.table) (λ c v path m. reap_node-Ends fuel path c m v)
            w) in
      (m', e, λ k h. g k (note_changed-Grows path (s.nodes i) m k h))

  -- What one of the children reports is in the end reported.
  reap_children-has :
      (f : Step) (path name k : Bytes) (c : ℕ) (children : Dict Bytes ℕ) (m : Dict Bytes Result)
      → lookup name children ≡ some c
      → All (EndsAt f) children
      → ((m₀ : Dict Bytes Result)
          → (m₁ : Dict Bytes Result) × (f (join path name) c m₀ ≡ some m₁) × (has k m₁ ≡ true))
      → (m' : Dict Bytes Result) × (reap_children I f path children m ≡ some m') × (has k m' ≡ true)
  unfolding reap_children lookup
  reap_children-has f path name k c [] m l a h = absurd (ground (arith, l))
  reap_children-has f path name k c ((j, d) ∷ children) m l a h = elim (Bool-cases (name == j)) [
    | inl e ↦
        let (m₁, e₁, t) = h m in
        let same : f (join path j) d m ≡ some m₁ =
          ap (λ x. f (join path x) d m) (sym (ground (arith, e, bytes_iff name j)))
          ∙ ap (λ x. f (join path name) x m) (sym (ground (arith, e, l)))
          ∙ e₁ in
        let (m', e₂, g) = reap_children-Ends f path children m₁ a.1 in
        (m', rw (same, reap_children) e₂, g k t)
    | inr e ↦
        let (m₁, e₁, g) = a.0 (join path j) m in
        let (m', e₂, t) =
          reap_children-has f path name k c children m₁ (ground (arith, l, e)) a.1 h in
        (m', rw (e₁, reap_children) e₂, t)
  ]

  All-lookup :
      (fuel : ℕ) (name : Bytes) (c : ℕ) (children : Dict Bytes ℕ)
      → All (λ (_, c). IsWithin fuel c) children
      → lookup name children ≡ some c
      → IsWithin fuel c
  unfolding lookup
  All-lookup fuel name c [] w l = absurd (ground (arith, l))
  All-lookup fuel name c ((j, d) ∷ children) w l = elim (Bool-cases (name == j)) [
    | inl e ↦ subst (IsWithin fuel) (ground (arith, e, l)) w.0
    | inr e ↦ All-lookup fuel name c children w.1 (ground (arith, e, l))
  ]

  reap_node-has :
      (fuel : ℕ) (path : Bytes) (i j : ℕ) (names : List Bytes) (m : Dict Bytes Result)
      → IsWithin fuel i
      → walk names i ≡ some j
      → (s.nodes j).changed ≡ true
      → (m' : Dict Bytes Result) × (reap_node I s fuel path i m ≡ some m')
        × (has (path_along path names) m' ≡ true)
  unfolding reap_node note_changed walk path_along
  reap_node-has zero path i j names m w p c = absurd w
  reap_node-has (suc fuel) path i j [] m w p c =
      let same : i ≡ j = ground (arith, p) in
      let changed : (s.nodes i).changed ≡ true = ap (λ x. (s.nodes x).changed) same ∙ c in
      let noted : has path (note_changed I path (s.nodes i) m) ≡ true =
        ground
          (arith, changed, has-insert path path (node_result (s.nodes i)) m, bytes_iff path path) in
      let (m', e, g) =
        reap_children-Ends (reap_node I s fuel) path (I.children i s.table)
          (note_changed I path (s.nodes i) m)
          (All-EndsAt fuel (I.children i s.table) (λ c v path m. reap_node-Ends fuel path c m v)
            w) in
      (m', e, g path noted)
  reap_node-has (suc fuel) path i j (name ∷ names) m w p c =
      elim (Option-cases (lookup name (I.children i s.table))) [
        | inl e ↦ absurd (ground (arith, e, p))
        | inr (d, e) ↦
            reap_children-has (reap_node I s fuel) path name (path_along (join path name) names) d
              (I.children i s.table) (note_changed I path (s.nodes i) m) e
              (All-EndsAt fuel (I.children i s.table) (λ c v path m. reap_node-Ends fuel path c m v)
                w)
              (λ m₀.
                reap_node-has fuel (join path name) d j names m₀
                  (All-lookup fuel name d (I.children i s.table) w e) (ground (arith, e, p)) c)
      ]

  -- `Reap` ends, and what is changed or deleted has a result.
  pub reap-has :
      (ro : ReadOnly) (size : Bytes → ℕ) (fuel : ℕ)
      → IsSized ro size
      → All (λ (name, _). size name < fuel) s.deleted
      → IsWithin fuel s.root
      → (m : Dict Bytes Result) × (reap I ro fuel s ≡ some m)
        × ((j : ℕ) (names : List Bytes)
            → walk names s.root ≡ some j
            → (s.nodes j).changed ≡ true
            → has (path_along [] names) m ≡ true)
        × ((k : Bytes)
            → has k s.deleted ≡ true
            → is_some (ro.get_attr k).0 ≡ false
            → has k m ≡ true)
  unfolding reap
  reap-has ro size fuel z l w =
      let (m₁, e, _, r) = reap_deleted-Ends ro size fuel s.deleted [] z l in
      let (m, f, g) = reap_node-Ends fuel [] s.root m₁ w in
      (
        m,
        rw (e, reap) f,
        (λ j names p c.
            let (m', f', t) = reap_node-has fuel [] s.root j names m₁ w p c in
            let same : some m' ≡ some m = sym f' ∙ f in
            subst (λ o. elim o [ none ↦ ⊥ | some x ↦ has (path_along [] names) x ≡ true ]) same t),
        λ k h b. g k (r k h b),
      )
