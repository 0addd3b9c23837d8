-- ===== src/Attr/FileSet/Sorted.antt =====
-- `Sort` puts the files in the order of `Less`.
use termite.Base.{◌≡◌, sym, ◌∙◌, inl, inr, true, false, List, [], ◌∷◌, All, arith, Bool-cases}
use termite.Attr.FileAttr.{FileAttr, deletion}
use termite.Attr.FileSet.{less, insert_sorted, sort}
use termite.Attr.FileSet.Laws.{less_trans, less_total}

-- No file is before one that stands in front of it.
abbrev pub IsSorted : List FileAttr → Type 0
IsSorted [] = Unit {0}
IsSorted (a ∷ l) = All (λ b. less b a ≡ false) l × IsSorted l

less-same : (a b c : FileAttr) → a.path ≡ b.path → deletion a ≡ deletion b → less a c ≡ less b c
unfolding less
less-same a b c p d = ground (arith, p, d)

-- What is not before a file is not before what that is not before.
not_less_trans : (a b c : FileAttr) → less b a ≡ false → less c b ≡ false → less c a ≡ false
not_less_trans a b c h k = elim (Bool-cases (less c a)) [
  | inr e ↦ e
  | inl e ↦ elim (less_total b c) [
    | inl lt ↦ absurd (ground (arith, (less_trans b c a lt e).0, h))
    | inr (inl (p, d)) ↦ sym (less-same b c a p d) ∙ h
    | inr (inr gt) ↦ absurd (ground (arith, gt, k))
  ]
]

All-not_less :
    (a b : FileAttr) (l : List FileAttr)
    → less b a ≡ false
    → All (λ c. less c b ≡ false) l
    → All (λ c. less c a ≡ false) l
All-not_less a b [] h al = tt
All-not_less a b (c ∷ l) h (k, al) = (not_less_trans a b c h k, All-not_less a b l h al)

All-insert_sorted :
    (a b : FileAttr) (l : List FileAttr)
    → less a b ≡ false
    → All (λ c. less c b ≡ false) l
    → All (λ c. less c b ≡ false) (insert_sorted a l)
unfolding insert_sorted
All-insert_sorted a b [] h al = (h, tt)
All-insert_sorted a b (c ∷ l) h (k, al) = elim (Bool-cases (less c a)) [
  | inl e ↦ rw e (k, All-insert_sorted a b l h al)
  | inr e ↦ rw e (h, (k, al))
]

less_asym : (a b : FileAttr) → less b a ≡ true → less a b ≡ false
less_asym a b h = elim (Bool-cases (less a b)) [
  | inr e ↦ e
  | inl e ↦ let (p, q) = less_trans b a b h e in absurd (ground arith)
]

insert_sorted-IsSorted :
    (a : FileAttr) (l : List FileAttr) → IsSorted l → IsSorted (insert_sorted a l)
unfolding insert_sorted
insert_sorted-IsSorted a [] s = (tt, tt)
insert_sorted-IsSorted a (b ∷ l) (al, s) = elim (Bool-cases (less b a)) [
  | inl e ↦ rw e (All-insert_sorted a b l (less_asym a b e) al, insert_sorted-IsSorted a l s)
  | inr e ↦ rw e ((e, All-not_less a b l e al), (al, s))
]

-- The result of `Sort` is in the order of `Less`.
pub sort-IsSorted : (l : List FileAttr) → IsSorted (sort l)
unfolding sort
sort-IsSorted [] = tt
sort-IsSorted (a ∷ l) = insert_sorted-IsSorted a (sort l) (sort-IsSorted l)
