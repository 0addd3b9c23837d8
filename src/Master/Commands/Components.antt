-- ===== src/Master/Commands/Components.antt =====
-- Paths made of components: `strings.Split` and `strings.Join` at slashes, and the directory of a path.
use termite.Base.{
  ◌≡◌, ◌≢◌, refl, sym, ap, ◌∙◌, Bytes, true, false, List, [], ◌∷◌, ◌++◌, ◌==◌, nat_eq,
  if◌then◌else◌, is_empty, slash, Lacks, trim_left, trim_right, trim_right-snoc, trim_right-append,
  file_split, file_split-append, split_slash, join_slash, onto_first, All, arith, append_assoc,
}
use termite.Paths.{split_path}

-- A component: a text without a slash, not empty.
abbrev pub IsComponent : Bytes → Type 0
IsComponent c = (is_empty c ≡ false) × Lacks slash c

split_slash-Lacks : (c : Bytes) → Lacks slash c → split_slash c ≡ c ∷ []
unfolding split_slash onto_first
split_slash-Lacks [] h = refl
split_slash-Lacks (x ∷ c) h = ground (arith, split_slash-Lacks c h.1)

split_slash-append :
    (c s : Bytes) → Lacks slash c → split_slash (c ++ slash ∷ s) ≡ c ∷ split_slash s
unfolding split_slash onto_first
split_slash-append [] s h = refl
split_slash-append (x ∷ c) s h = ground (arith, split_slash-append c s h.1)

-- `Split` undoes `Join`.
pub split_slash-join_slash :
    (c : Bytes) (rest : List Bytes)
    → All IsComponent (c ∷ rest)
    → split_slash (join_slash (c ∷ rest)) ≡ c ∷ rest
unfolding join_slash
split_slash-join_slash c [] h = split_slash-Lacks c h.0.1
split_slash-join_slash c (d ∷ rest) h =
    split_slash-append c (join_slash (d ∷ rest)) h.0.1
    ∙ ap (◌∷◌ c) (split_slash-join_slash d rest h.1)

pub join_slash-snoc :
    (b : Bytes) (before : List Bytes) (c : Bytes)
    → join_slash ((b ∷ before) ++ c ∷ []) ≡ join_slash (b ∷ before) ++ slash ∷ c
unfolding join_slash
join_slash-snoc b [] c = refl
join_slash-snoc b (b' ∷ before) c =
    ap (λ s. b ++ slash ∷ s) (join_slash-snoc b' before c)
    ∙ sym (append_assoc b (slash ∷ join_slash (b' ∷ before)) (slash ∷ c))

trim_right-IsComponent : (c : Bytes) → Lacks slash c → trim_right c ≡ c
unfolding trim_right is_empty
trim_right-IsComponent [] h = refl
trim_right-IsComponent (x ∷ c) h = ground (arith, trim_right-IsComponent c h.1)

trim_right-slash :
    (s : Bytes)
    → trim_right s ≡ s
    → is_empty s ≡ false
    → (trim_right (slash ∷ s) ≡ slash ∷ s) × (is_empty (trim_right (slash ∷ s)) ≡ false)
unfolding trim_right is_empty
trim_right-slash s e n = (rw (e, n) refl, rw (e, n) refl)

pub is_empty-append : (s : Bytes) (c : termite.Base.ℕ) (t : Bytes) → is_empty (s ++ c ∷ t) ≡ false
unfolding is_empty
is_empty-append [] c t = refl
is_empty-append (x ∷ s) c t = refl

-- A path of components ends in no slash.
trim_right-join_slash :
    (b : Bytes) (before : List Bytes)
    → All IsComponent (b ∷ before)
    → (trim_right (join_slash (b ∷ before)) ≡ join_slash (b ∷ before))
      × (is_empty (join_slash (b ∷ before)) ≡ false)
unfolding join_slash
trim_right-join_slash b [] h = (trim_right-IsComponent b h.0.1, h.0.0)
trim_right-join_slash b (b' ∷ before) h =
    let (e, n) = trim_right-join_slash b' before h.1 in
    let (later, more) = trim_right-slash (join_slash (b' ∷ before)) e n in
    (
      trim_right-append b (slash ∷ join_slash (b' ∷ before)) more ∙ ap (◌++◌ b) later,
      is_empty-append b slash (join_slash (b' ∷ before)),
    )

split_path-append : (d c : Bytes) → Lacks slash c → split_path (d ++ slash ∷ c) ≡ (trim_right d, c)
unfolding split_path
split_path-append d c h = rw (file_split-append d c h, trim_right-snoc d) refl

-- The directory of a path of components, from the root.
pub split_path-join_slash :
    (before : List Bytes) (c : Bytes)
    → All IsComponent before
    → IsComponent c
    → (split_path (slash ∷ join_slash (before ++ c ∷ []))).0
      ≡ (if is_empty before then [] else slash ∷ join_slash before)
unfolding is_empty
split_path-join_slash [] c h k =
    unfold join_slash trim_right in ap (λ q. q.0) (split_path-append [] c k.1)
split_path-join_slash (b ∷ before) c h k =
    let (e, n) = trim_right-join_slash b before h in
    rw (join_slash-snoc b before c) (
      ap (λ q. q.0) (split_path-append (slash ∷ join_slash (b ∷ before)) c k.1)
      ∙ (trim_right-slash (join_slash (b ∷ before)) e n).0)

-- `strings.TrimLeft` of the path from the root
pub trim_left-join_slash :
    (c : Bytes) (rest : List Bytes)
    → IsComponent c
    → trim_left (slash ∷ join_slash (c ∷ rest)) ≡ join_slash (c ∷ rest)
unfolding trim_left join_slash is_empty
trim_left-join_slash [] rest k = absurd (cc k.0)
trim_left-join_slash (x ∷ c) [] k = ground (arith, k.1.0)
trim_left-join_slash (x ∷ c) (d ∷ rest) k = ground (arith, k.1.0)
