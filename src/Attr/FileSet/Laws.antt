-- ===== src/Attr/FileSet/Laws.antt =====
-- `Less` is a strict total order that puts deletions first, children before parents among them, and
-- parents before children among the others.
use termite.Base.{
  ℕ, suc, ◌≡◌, refl, ◌∙◌, ap, ◌⊎◌, inl, inr, Bytes, true, false, not, List, [], ◌∷◌, ◌++◌, nat_eq,
  arith, slash, length, In, Bool-cases,
}
use termite.Attr.FileAttr.{FileAttr, deletion}
use termite.Attr.FileSet.{str_lt, less, insert_sorted, sort}

str_lt_irrefl : (s : Bytes) → str_lt s s ≡ false
unfolding str_lt
str_lt_irrefl [] = refl
str_lt_irrefl (a ∷ s) = ground (arith, str_lt_irrefl s)

str_lt_trans : (s t u : Bytes) → str_lt s t ≡ true → str_lt t u ≡ true → str_lt s u ≡ true
unfolding str_lt
str_lt_trans [] [] u p q = cc
str_lt_trans [] (b ∷ t) [] p q = cc
str_lt_trans [] (b ∷ t) (c ∷ u) p q = refl
str_lt_trans (a ∷ s) [] u p q = cc
str_lt_trans (a ∷ s) (b ∷ t) [] p q = cc
str_lt_trans (a ∷ s) (b ∷ t) (c ∷ u) p q = ground (arith, str_lt_trans s t u)

str_lt_asym : (s t : Bytes) → str_lt s t ≡ true → str_lt t s ≡ false
unfolding str_lt
str_lt_asym [] [] h = cc
str_lt_asym [] (b ∷ t) h = refl
str_lt_asym (a ∷ s) [] h = cc
str_lt_asym (a ∷ s) (b ∷ t) h = ground (arith, str_lt_asym s t)

str_lt_total : (s t : Bytes) → (str_lt s t ≡ true) ⊎ (s ≡ t) ⊎ (str_lt t s ≡ true)
unfolding str_lt
str_lt_total [] [] = inr (inl refl)
str_lt_total [] (b ∷ t) = inl refl
str_lt_total (a ∷ s) [] = inr (inr refl)
str_lt_total (a ∷ s) (b ∷ t) = ground (arith, str_lt_total s t)

str_lt-child : (s : Bytes) (c : ℕ) (t : Bytes) → str_lt s (s ++ c ∷ t) ≡ true
unfolding str_lt
str_lt-child [] c t = refl
str_lt-child (a ∷ s) c t = ground (arith, str_lt-child s c t)

-- `Less` is transitive, and where it holds the opposite does not.
pub less_trans :
    (a b c : FileAttr) → less a b ≡ true → less b c ≡ true → (less a c ≡ true) × (less c a ≡ false)
unfolding less
less_trans a b c h k = (
  ground (arith, str_lt_trans a.path b.path c.path, str_lt_trans c.path b.path a.path),
  ground (
    arith,
    str_lt_trans a.path b.path c.path,
    str_lt_trans c.path b.path a.path,
    str_lt_asym a.path c.path,
    str_lt_asym c.path a.path,
  ),
)

-- Of two files one is before the other, unless they agree in path and deletion.
pub less_total :
    (a b : FileAttr)
    → (less a b ≡ true) ⊎ ((a.path ≡ b.path) × (deletion a ≡ deletion b)) ⊎ (less b a ≡ true)
unfolding less
less_total a b = ground (arith, str_lt_total a.path b.path)

-- A file and what lies below it: what lies below comes first exactly if it is a deletion, and
-- otherwise the file does, whether that is a deletion or not.
pub less-child :
    (parent child : FileAttr) (name : Bytes)
    → child.path ≡ parent.path ++ slash ∷ name
    → (less child parent ≡ deletion child) × (less parent child ≡ not (deletion child))
unfolding less
less-child p c name e =
    let below = str_lt-child p.path slash name in
    let not_above = str_lt_asym p.path (p.path ++ slash ∷ name) in
    (ground (arith, below, not_above), ground (arith, below, not_above))

In-insert_sorted :
    (f a : FileAttr) (l : List FileAttr) → (f ≡ a) ⊎ In f l → In f (insert_sorted a l)
unfolding insert_sorted
In-insert_sorted f a [] m = m
In-insert_sorted f a (b ∷ l) m = elim (Bool-cases (less b a)) [
  | inr e ↦ rw e m
  | inl e ↦ elim m [
    | inl same ↦ rw e (inr (In-insert_sorted f a l (inl same)))
    | inr (inl same) ↦ rw e (inl same)
    | inr (inr there) ↦ rw e (inr (In-insert_sorted f a l (inr there)))
  ]
]

-- `Sort` leaves nothing out.
insert_sorted-In : (f a : FileAttr) (l : List FileAttr) → In f (insert_sorted a l) → In f (a ∷ l)
unfolding insert_sorted
insert_sorted-In f a [] m = m
insert_sorted-In f a (b ∷ l) m = elim (Bool-cases (less b a)) [
  | inr stays ↦ rw stays at m
  | inl later ↦
      let n : In f (b ∷ insert_sorted a l) = rw later at m in
      elim n [
        | inl q ↦ inr (inl q)
        | inr q ↦ elim (insert_sorted-In f a l q) [ inl z ↦ inl z | inr z ↦ inr (inr z) ]
      ]
]

pub sort-In : (f : FileAttr) (l : List FileAttr) → In f (sort l) → In f l
unfolding sort
sort-In f [] m = m
sort-In f (a ∷ l) m = elim (insert_sorted-In f a (sort l) m) [
  | inl e ↦ inl e
  | inr q ↦ inr (sort-In f l q)
]

pub In-sort : (f : FileAttr) (l : List FileAttr) → In f l → In f (sort l)
unfolding sort
In-sort f [] m = m
In-sort f (a ∷ l) (inl e) = In-insert_sorted f a (sort l) (inl e)
In-sort f (a ∷ l) (inr m) = In-insert_sorted f a (sort l) (inr (In-sort f l m))

length-insert_sorted :
    (a : FileAttr) (l : List FileAttr) → length (insert_sorted a l) ≡ suc (length l)
unfolding insert_sorted
length-insert_sorted a [] = refl
length-insert_sorted a (b ∷ l) = ground (arith, length-insert_sorted a l)

pub length-sort : (l : List FileAttr) → length (sort l) ≡ length l
unfolding sort
length-sort [] = refl
length-sort (a ∷ l) = length-insert_sorted a (sort l) ∙ ap suc (length-sort l)
