-- ===== src/Attr/Cache/Refresh/Changes.antt =====
-- Which files a `Refresh` finds.
use termite.Base.{
  ◌≡◌, ◌⊎◌, refl, ap, inl, inr, subst, Bytes, true, false, List, [], ◌∷◌, Option, none, some, Dict,
  has_prefix, In, arith, Bool-cases, Option-cases,
}
use termite.Attr.FileAttr.{Attr, FileAttr, deleted, fuse_attr_eq}
use termite.Attr.FileSet.{sort}
use termite.Attr.FileSet.Laws.{In-sort, sort-In}
use termite.Attr.FileSet.Sorted.{IsSorted, sort-IsSorted}
use termite.Attr.Cache.{Cache, leading_slash, update}
use termite.Attr.Cache.Refresh.{refresh_one, refresh_files, refresh}

module _ (stat : Bytes → Option Attr) (get : Bytes → Option FileAttr) where
  -- The second is what has become of the first: it is gone, or other attributes are found and it is fetched.
  abbrev pub IsChange : FileAttr → FileAttr → Type 0
  IsChange t f =
      ((stat t.path ≡ none) × (f ≡ deleted t.path))
      ⊎ ((a : Attr) × (b : Attr) × (e : FileAttr) × (stat t.path ≡ some a)
          × (t.attr ≡ some b)
          × (fuse_attr_eq a b ≡ false)
          × (get t.path ≡ some e)
          × (f ≡ record e { path = t.path }))

  -- A file that is cached under a path with the prefix, and has changed.
  abbrev pub IsFound : Bytes → Dict Bytes FileAttr → FileAttr → Type 0
  IsFound prefix m f =
      (k : Bytes) × (t : FileAttr) × In (k, t) m × (has_prefix k prefix ≡ true) × IsChange t f

  -- What is found of one file.
  refresh_one-cases :
      (t : FileAttr) (rest found : List FileAttr)
      → refresh_one stat get t rest ≡ some found
      → ((found ≡ rest) × ((f : FileAttr) → IsChange t f → ⊥))
        ⊎ ((f : FileAttr) × (found ≡ f ∷ rest)
            × IsChange t f
            × ((g : FileAttr) → IsChange t g → g ≡ f))
  unfolding refresh_one
  refresh_one-cases t rest found u = elim (Option-cases (stat t.path)) [
    | inl gone ↦ inr (
      deleted t.path,
      ground arith,
      inl (gone, refl),
      λ g h. elim h [ inl (_, e) ↦ e | inr q ↦ absurd (ground arith) ],
    )
    | inr (a, there) ↦ elim (Option-cases t.attr) [
      | inl bare ↦ absurd (ground arith)
      | inr (b, known) ↦ elim (Bool-cases (fuse_attr_eq a b)) [
        | inl same ↦
            inl (ground arith, λ f h. elim h [ inl q ↦ ground arith | inr q ↦ ground arith ])
        | inr other ↦ elim (Option-cases (get t.path)) [
          | inl failed ↦ absurd (ground arith)
          | inr (e, got) ↦ inr (
            record e { path = t.path },
            ground arith,
            inr (a, b, e, there, known, other, got, refl),
            λ g h. elim h [ inl q ↦ absurd (ground arith) | inr q ↦ ground arith ],
          )
        ]
      ]
    ]
  ]

  module _ (prefix k : Bytes) (t : FileAttr) (m : Dict Bytes FileAttr) (rest : List FileAttr)
      (f : FileAttr) (to : In f rest → IsFound prefix m f)
      (from : IsFound prefix m f → In f rest) where
    further : IsFound prefix m f → IsFound prefix ((k, t) ∷ m) f
    further (j, s, i, p, h) = (j, s, inr i, p, h)

    -- Nothing is found of the first file.
    passed_over :
        (has_prefix k prefix ≡ true → IsChange t f → ⊥)
        → (In f rest → IsFound prefix ((k, t) ∷ m) f) × (IsFound prefix ((k, t) ∷ m) f → In f rest)
    passed_over same = (λ i. further (to i), back)
      where
        back : IsFound prefix ((k, t) ∷ m) f → In f rest
        back (j, s, inl e, p, h) =
            absurd (same (rw (← ap (λ x. x.0) e) p) (subst (λ x. IsChange x f) (ap (λ x. x.1) e) h))
        back (j, s, inr i, p, h) = from (j, s, i, p, h)

    picked :
        (g : FileAttr)
        → has_prefix k prefix ≡ true
        → IsChange t g
        → (IsChange t f → f ≡ g)
        → (In f (g ∷ rest) → IsFound prefix ((k, t) ∷ m) f)
          × (IsFound prefix ((k, t) ∷ m) f → In f (g ∷ rest))
    picked g below h only = (forth, back)
      where
        forth : In f (g ∷ rest) → IsFound prefix ((k, t) ∷ m) f
        forth (inl e) = (k, t, inl refl, below, rw e h)
        forth (inr i) = further (to i)

        back : IsFound prefix ((k, t) ∷ m) f → In f (g ∷ rest)
        back (j, s, inl e, p, q) = inl (only (subst (λ x. IsChange x f) (ap (λ x. x.1) e) q))
        back (j, s, inr i, p, q) = inr (from (j, s, i, p, q))

  refresh_files-IsFound :
      (prefix : Bytes) (m : Dict Bytes FileAttr) (found : List FileAttr)
      → refresh_files stat get prefix m ≡ some found
      → (f : FileAttr) → (In f found → IsFound prefix m f) × (IsFound prefix m f → In f found)
  unfolding refresh_files
  refresh_files-IsFound prefix [] found u f =
      let e : found ≡ [] = ground arith in (λ i. absurd (rw e at i), λ (k, t, i, p, h). absurd i)
  refresh_files-IsFound prefix ((k, t) ∷ m) found u f =
      elim (Option-cases (refresh_files stat get prefix m)) [
        | inl ended ↦ absurd (ground arith)
        | inr (rest, e) ↦
            let (to, from) = refresh_files-IsFound prefix m rest e f in
            elim (Bool-cases (has_prefix k prefix)) [
              | inr apart ↦
                  let same : found ≡ rest = ground arith in
                  rw same (passed_over prefix k t m rest f to from (λ b. absurd (ground arith)))
              | inl below ↦ elim (refresh_one-cases t rest found (ground arith)) [
                | inl (same, never) ↦
                    rw same (passed_over prefix k t m rest f to from (λ b. never f))
                | inr (g, more, h, only) ↦
                    rw more (picked prefix k t m rest f to from g below h (only f))
              ]
            ]
      ]

-- A `Refresh` that does not panic applies, as an update, the files that it finds, in the order of a file set:
-- no file is before one that stands in front of it. It finds those that are cached under a path with the
-- prefix and have changed, and no others: a deletion of each whose path is not there, and what is fetched for
-- each whose attributes are not as they were.
pub refresh-IsFound :
    (stat : Bytes → Option Attr) (get : Bytes → Option FileAttr) (c c' : Cache) (prefix : Bytes)
    (files : List FileAttr)
    → refresh stat get c prefix ≡ some (c', files)
    → (update c files ≡ some c')
      × IsSorted files
      × ((f : FileAttr)
          → (In f files → IsFound stat get prefix c.attributes f)
            × (IsFound stat get prefix c.attributes f → In f files))
unfolding refresh
refresh-IsFound stat get c c' prefix files u = elim (Bool-cases (leading_slash prefix)) [
  | inl bad ↦ absurd (ground arith)
  | inr good ↦ elim (Option-cases (refresh_files stat get prefix c.attributes)) [
    | inl failed ↦ absurd (ground arith)
    | inr (found, e) ↦ elim (Option-cases (update c (sort found))) [
      | inl failed ↦ absurd (ground arith)
      | inr (after, v) ↦
          let is : files ≡ sort found = ground arith in
          let at : after ≡ c' = ground arith in
          rw is (
            rw (← at) v,
            sort-IsSorted found,
            λ f.
                let (to, from) = refresh_files-IsFound stat get prefix c.attributes found e f in
                (λ i. to (sort-In f found i), λ h. In-sort f found (from h)),
          )
    ]
  ]
]
