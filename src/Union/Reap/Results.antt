-- ===== src/Union/Reap/Results.antt =====
-- The results that `Reap` has for changed nodes.
use termite.Base.{
  ℕ, zero, suc, ◌<◌, ◌≡◌, All, has, inl, inr, refl, sym, ap, ◌∙◌, subst, Bytes, true, false, List,
  [], ◌∷◌, ◌++◌, Option, none, some, ◌==◌, nat_eq, bytes_eq, bytes_iff, Dict, lookup, lookup-insert,
  lookup-insert_self, arith, Bool-cases, Option-cases, In,
}
use termite.Paths.{join}
use termite.Union.Tree.{Inodes}
use termite.Union.{ReadOnly, MemUnionFs}
use termite.Union.Names.{is_some}
use termite.Union.Reap.Below.{IsSized}
use termite.Union.Reap.{
  Result, node_result, note_changed, reap_children, reap_node, reap_deleted, reap,
}
use termite.Union.Reap.Complete.{IsWithin, walk, path_along, reap-has}

bind-some :
    (o : Option (Dict Bytes Result)) (f : Dict Bytes Result → Option (Dict Bytes Result))
    (m' : Dict Bytes Result)
    → elim o as (λ x. Option (Dict Bytes Result)) [ none ↦ none | some x ↦ f x ] ≡ some m'
    → (m₁ : Dict Bytes Result) × (o ≡ some m₁) × (f m₁ ≡ some m')
bind-some none f m' e = cc
bind-some (some m₁) f m' e = (m₁, refl, e)

lookup-In : (name : Bytes) (c : ℕ) (l : Dict Bytes ℕ) → lookup name l ≡ some c → In (name, c) l
unfolding lookup
lookup-In name c [] e = cc
lookup-In name c ((j, d) ∷ l) e = elim (Bool-cases (name == j)) [
  | inl same ↦ inl (ground (arith, (bytes_iff name j).0 same))
  | inr other ↦ inr (lookup-In name c l (ground arith))
]

module _ (I : Inodes) (s : MemUnionFs I.Table) where
  -- The second inode is found from the first along the names.
  abbrev pub IsAlong : List Bytes → ℕ → ℕ → Type 0
  IsAlong [] i j = i ≡ j
  IsAlong (name ∷ names) i j = (c : ℕ) × In (name, c) (I.children i s.table) × IsAlong names c j

  IsAlong-snoc :
      (names : List Bytes) (name : Bytes) (i j c : ℕ)
      → IsAlong names i j
      → In (name, c) (I.children j s.table)
      → IsAlong (names ++ name ∷ []) i c
  IsAlong-snoc [] name i j c e k =
      (c, subst (λ x. In (name, c) (I.children x s.table)) (sym e) k, refl)
  IsAlong-snoc (n ∷ names) name i j c (d, k, a) l = (d, k, IsAlong-snoc names name d j c a l)

  path_along-snoc :
      (path : Bytes) (names : List Bytes) (name : Bytes)
      → path_along I s path (names ++ name ∷ []) ≡ join (path_along I s path names) name
  unfolding path_along
  path_along-snoc path [] name = refl
  path_along-snoc path (n ∷ names) name = path_along-snoc (join path n) names name

  -- A changed node that is found under this path has this result.
  abbrev pub IsNodeResult : Bytes → Result → Type 0
  IsNodeResult k r =
      (j : ℕ) × (names : List Bytes) × IsAlong names s.root j
      × ((s.nodes j).changed ≡ true)
      × (path_along I s [] names ≡ k)
      × (r.attr ≡ some (s.nodes j).info)
      × (r.original ≡ (s.nodes j).original)
      × (r.backing ≡ (s.nodes j).backing)
      × (r.link ≡ (s.nodes j).link)

  abbrev pub IsReported : Bytes → Dict Bytes Result → Type 0
  IsReported k m = (r : Result) × (lookup k m ≡ some r) × IsNodeResult k r

  note_changed-IsReported :
      (k : Bytes) (names : List Bytes) (i : ℕ) (m : Dict Bytes Result)
      → IsAlong names s.root i
      → IsReported k m
      → IsReported k (note_changed I (path_along I s [] names) (s.nodes i) m)
  unfolding note_changed node_result
  note_changed-IsReported k names i m a (r, l, n) = elim (Bool-cases (s.nodes i).changed) [
    | inr f ↦ rw f (r, l, n)
    | inl t ↦ elim (Bool-cases (k == path_along I s [] names)) [
      | inr other ↦ rw t (
        r,
        ground (arith, lookup-insert k (path_along I s [] names) (node_result (s.nodes i)) m),
        n,
      )
      | inl same ↦ rw t (
        node_result (s.nodes i),
        ground (arith, lookup-insert k (path_along I s [] names) (node_result (s.nodes i)) m),
        (
          i,
          names,
          a,
          t,
          sym ((bytes_iff k (path_along I s [] names)).0 same),
          refl,
          refl,
          refl,
          refl,
        ),
      )
    ]
  ]

  note_changed_self :
      (names : List Bytes) (i : ℕ) (m : Dict Bytes Result)
      → IsAlong names s.root i
      → (s.nodes i).changed ≡ true
      → IsReported
          (path_along I s [] names)
          (note_changed I (path_along I s [] names) (s.nodes i) m)
  unfolding note_changed node_result
  note_changed_self names i m a t = rw t (
    node_result (s.nodes i),
    lookup-insert_self (path_along I s [] names) (node_result (s.nodes i)) m,
    (i, names, a, t, refl, refl, refl, refl, refl),
  )

  -- What is reported under a path stays reported, in the walk of a node and in that of its children.
  module _ (k : Bytes) where
    abbrev Keeps : ℕ → Type 0
    Keeps fuel =
        (names : List Bytes) (i : ℕ) (m m' : Dict Bytes Result)
        → IsAlong names s.root i
        → reap_node I s fuel (path_along I s [] names) i m ≡ some m'
        → IsReported k m
        → IsReported k m'

    reap_children-Keeps :
        (fuel : ℕ) (names : List Bytes) (i : ℕ) (cs : Dict Bytes ℕ) (m m' : Dict Bytes Result)
        → Keeps fuel
        → IsAlong names s.root i
        → ((e : Bytes × ℕ) → In e cs → In e (I.children i s.table))
        → reap_children I (reap_node I s fuel) (path_along I s [] names) cs m ≡ some m'
        → IsReported k m
        → IsReported k m'
    unfolding reap_children
    reap_children-Keeps fuel names i [] m m' h a w e p =
        subst (λ x. IsReported k x) (ground arith) p
    reap_children-Keeps fuel names i ((name, c) ∷ cs) m m' h a w e p =
        let (m₁, e₁, e') =
          bind-some (reap_node I s fuel (join (path_along I s [] names) name) c m)
            (reap_children I (reap_node I s fuel) (path_along I s [] names) cs) m' e in
        let first =
          h (names ++ name ∷ []) c m m₁
            (IsAlong-snoc names name s.root i c a (w (name, c) (inl refl)))
            (ap (λ x. reap_node I s fuel x c m) (path_along-snoc [] names name) ∙ e₁) p in
        reap_children-Keeps fuel names i cs m₁ m' h a (λ x j. w x (inr j)) e' first

    reap_node-Keeps : (fuel : ℕ) → Keeps fuel
    unfolding reap_node
    reap_node-Keeps zero names i m m' a e p = cc
    reap_node-Keeps (suc fuel) names i m m' a e p =
        reap_children-Keeps fuel names i (I.children i s.table) _ m' (reap_node-Keeps fuel) a
          (λ x j. j) e (note_changed-IsReported k names i m a p)

    reap_children-hit :
        (fuel : ℕ) (names : List Bytes) (i : ℕ) (name : Bytes) (c : ℕ) (cs : Dict Bytes ℕ)
        (m m' : Dict Bytes Result)
        → IsAlong names s.root i
        → ((e : Bytes × ℕ) → In e cs → In e (I.children i s.table))
        → lookup name cs ≡ some c
        → reap_children I (reap_node I s fuel) (path_along I s [] names) cs m ≡ some m'
        → ((m₀ m₁ : Dict Bytes Result)
            → reap_node I s fuel (join (path_along I s [] names) name) c m₀ ≡ some m₁
            → IsReported k m₁)
        → IsReported k m'
    unfolding reap_children lookup
    reap_children-hit fuel names i name c [] m m' a w l e h = cc
    reap_children-hit fuel names i name c ((j, d) ∷ cs) m m' a w l e h =
        let (m₁, e₁, e') =
          bind-some (reap_node I s fuel (join (path_along I s [] names) j) d m)
            (reap_children I (reap_node I s fuel) (path_along I s [] names) cs) m' e in
        elim (Bool-cases (name == j)) [
          | inl same ↦
              let at : name ≡ j = (bytes_iff name j).0 same in
              let is : c ≡ d = ground (arith, l, same) in
              let hit = h m m₁ (
                ap (λ x. reap_node I s fuel (join (path_along I s [] names) x) c m) at
                ∙ ap (λ x. reap_node I s fuel (join (path_along I s [] names) j) x m) is
                ∙ e₁) in
              reap_children-Keeps fuel names i cs m₁ m' (reap_node-Keeps fuel) a
                (λ x q. w x (inr q)) e' hit
          | inr other ↦
              reap_children-hit fuel names i name c cs m₁ m' a (λ x q. w x (inr q))
                (ground (arith, l, other)) e' h
        ]

  pub reap_node-IsReported :
      (fuel : ℕ) (names more : List Bytes) (i j : ℕ) (m m' : Dict Bytes Result)
      → IsAlong names s.root i
      → walk I s more i ≡ some j
      → (s.nodes j).changed ≡ true
      → reap_node I s fuel (path_along I s [] names) i m ≡ some m'
      → IsReported (path_along I s (path_along I s [] names) more) m'
  unfolding reap_node walk path_along
  reap_node-IsReported zero names more i j m m' a p t e = cc
  reap_node-IsReported (suc fuel) names [] i j m m' a p t e =
      let same : i ≡ j = ground (arith, p) in
      let t' : (s.nodes i).changed ≡ true = ap (λ x. (s.nodes x).changed) same ∙ t in
      reap_children-Keeps (path_along I s [] names) fuel names i (I.children i s.table) _ m'
        (reap_node-Keeps (path_along I s [] names) fuel) a (λ x q. q) e
        (note_changed_self names i m a t')
  reap_node-IsReported (suc fuel) names (name ∷ more) i j m m' a p t e =
      elim (Option-cases (lookup name (I.children i s.table))) [
        | inl gone ↦ absurd (ground (arith, gone, p))
        | inr (c, there) ↦
            let k = path_along I s (join (path_along I s [] names) name) more in
            let snoc = path_along-snoc [] names name in
            reap_children-hit k fuel names i name c (I.children i s.table) _ m' a (λ x q. q) there e
              (λ m₀ m₁ e₁.
                subst (λ x. IsReported (path_along I s x more) m₁) snoc
                  (reap_node-IsReported fuel (names ++ name ∷ []) more c j m₀ m₁
                    (IsAlong-snoc names name s.root i c a
                      (lookup-In name c (I.children i s.table) there))
                    (ground (arith, there, p)) t (ap (λ x. reap_node I s fuel x c m₀) snoc ∙ e₁)))
      ]

  -- `Reap` ends. Each changed node that is found along some names has its result: under the path that those names
  -- make, there are the attributes, the original, the backing file and the link of a changed node that is found
  -- under this path. Each deleted path that the file system below has, has a result. This is so be there changes,
  -- deletions, both or neither. The fuel must be more than the depth of the tree of nodes, and more than the
  -- sizes of the deleted directories below, where each directory counts for more than those in it.
  pub reap-IsReported :
      (ro : ReadOnly) (size : Bytes → ℕ) (fuel : ℕ)
      → IsSized ro size
      → All (λ (name, _). size name < fuel) s.deleted
      → IsWithin I s fuel s.root
      → (m : Dict Bytes Result) × (reap I ro fuel s ≡ some m)
        × ((j : ℕ) (names : List Bytes)
            → walk I s names s.root ≡ some j
            → (s.nodes j).changed ≡ true
            → IsReported (path_along I s [] names) m)
        × ((k : Bytes)
            → has k s.deleted ≡ true
            → is_some (ro.get_attr k).0 ≡ false
            → has k m ≡ true)
  unfolding reap path_along
  reap-IsReported ro size fuel z l w =
      let (m, e, _, gone) = reap-has I s ro size fuel z l w in
      let (m₁, _, f) =
        bind-some (reap_deleted ro fuel s.deleted []) (reap_node I s fuel [] s.root) m e in
      (m, e, (λ j names p c. reap_node-IsReported fuel [] names s.root j m₁ m refl p c f), gone)
