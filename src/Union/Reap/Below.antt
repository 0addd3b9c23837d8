-- ===== src/Union/Reap/Below.antt =====
-- `Reap` ends with the deleted paths, and reports each that the file system below has.
use termite.Base.{
  ℕ, zero, suc, ◌+◌, ◌<◌, ◌≡◌, ◌⊎◌, inl, inr, refl, sym, subst, Bytes, Bool, true, false, List, [],
  ◌∷◌, Option, none, some, if◌then◌else◌, ◌==◌, nat_eq, bytes_eq, bytes_iff, Dict, lookup, insert,
  has, has-insert, All, arith, Bool-cases,
}
use termite.Paths.{join}
use termite.Attr.FileAttr.{Attr, Status, file_type}
use termite.Union.{ReadOnly, has_dir_bit}
use termite.Union.Names.{is_some}
use termite.Union.Reap.{
  Result, deletion_result, delete_listed, delete_below, reap_name, reap_deleted,
}

-- What the second has the first has not lost.
abbrev pub Grows : Dict Bytes Result → Dict Bytes Result → Type 0
Grows m m' = (k : Bytes) → has k m ≡ true → has k m' ≡ true

-- A step that ends and loses nothing.
abbrev pub Ends : Dict Bytes Result → Option (Dict Bytes Result) → Type 0
Ends m o = (m' : Dict Bytes Result) × (o ≡ some m') × Grows m m'

module _ (ro : ReadOnly) where
  -- The sizes of the directories below that are listed.
  unfoldable pub listed_size : (Bytes → ℕ) → Bytes → List (Bytes × ℕ) → ℕ
  listed_size size n [] = 0
  listed_size size n ((name, mode) ∷ stream) =
      (if has_dir_bit mode then size (join n name) else 0) + listed_size size n stream

  -- The file system below has finitely many directories: each is larger than those in it.
  abbrev pub IsSized : (Bytes → ℕ) → Type 0
  IsSized size = (n : Bytes) → listed_size size n (ro.open_dir n) < size n

  total : (Bytes → ℕ) → List Bytes → ℕ
  total size [] = 0
  total size (n ∷ todo) = size n + total size todo

  delete_listed-size :
      (size : Bytes → ℕ) (n : Bytes) (stream : List (Bytes × ℕ)) (m : Dict Bytes Result)
      (todo : List Bytes)
      → total size (delete_listed ro n stream (m, todo)).1
        ≡ listed_size size n stream + total size todo
  unfolding delete_listed total listed_size
  delete_listed-size size n [] m todo = omega arith
  delete_listed-size size n ((name, mode) ∷ stream) m todo = elim (Bool-cases (has_dir_bit mode)) [
    | inl d ↦ ground (
      arith,
      d,
      delete_listed-size size n stream (insert (join n name) deletion_result m)
          (join n name ∷ todo),
    )
    | inr d ↦
        ground
          (arith, d, delete_listed-size size n stream (insert (join n name) deletion_result m) todo)
  ]

  delete_listed-Grows :
      (n : Bytes) (stream : List (Bytes × ℕ)) (m : Dict Bytes Result) (todo : List Bytes)
      → Grows m (delete_listed ro n stream (m, todo)).0
  unfolding delete_listed
  delete_listed-Grows n [] m todo k h = h
  delete_listed-Grows n ((name, mode) ∷ stream) m todo k h =
      delete_listed-Grows n stream (insert (join n name) deletion_result m) _ k
        (ground (arith, h, has-insert k (join n name) deletion_result m))

  delete_below-Ends :
      (size : Bytes → ℕ) (fuel : ℕ) (todo : List Bytes) (m : Dict Bytes Result)
      → IsSized size
      → total size todo < fuel
      → Ends m (delete_below ro fuel todo m)
  unfolding delete_below total
  delete_below-Ends size zero todo m z l = absurd (omega (arith, l))
  delete_below-Ends size (suc fuel) [] m z l = (m, refl, λ k h. h)
  delete_below-Ends size (suc fuel) (n ∷ todo) m z l =
      let step : Dict Bytes Result × List Bytes = delete_listed ro n (ro.open_dir n) (m, todo) in
      let (m', e, g) =
        delete_below-Ends size fuel step.1 step.0 z
          (omega (arith, l, z n, delete_listed-size size n (ro.open_dir n) m todo)) in
      (m', e, λ k h. g k (delete_listed-Grows n (ro.open_dir n) m todo k h))

  answer-cases :
      (o : Option Status × Attr) → ((code : Status) × (o ≡ (some code, o.1))) ⊎ (o ≡ (none, o.1))
  answer-cases (none, a) = inr refl
  answer-cases (some code, a) = inl (code, refl)

  -- The name is below, so it is reported.
  abbrev pub Reported : Bytes → Dict Bytes Result → Type 0
  Reported k m = is_some (ro.get_attr k).0 ≡ false → has k m ≡ true

  reap_name-Ends :
      (size : Bytes → ℕ) (fuel : ℕ) (name : Bytes) (m : Dict Bytes Result)
      → IsSized size
      → size name < fuel
      → (m' : Dict Bytes Result) × (reap_name ro fuel name m ≡ some m')
        × Grows m m'
        × Reported name m'
  unfolding reap_name total
  reap_name-Ends size fuel name m z l = elim (answer-cases (ro.get_attr name)) [
    | inl (code, e) ↦ (m, rw (e, reap_name) refl, λ k h. h, λ r. ground (arith, e, r))
    | inr e ↦
        let m₁ = insert name deletion_result m in
        let grown : Grows m m₁ = λ k h. ground (arith, h, has-insert k name deletion_result m) in
        let there : has name m₁ ≡ true =
          ground (arith, has-insert name name deletion_result m, bytes_iff name name) in
        elim (Bool-cases (file_type (ro.get_attr name).1.mode == 0o040000)) [
          | inl d ↦
              let (m', f, g) =
                delete_below-Ends size fuel (name ∷ []) m₁ z (unfold total in omega (arith, l)) in
              (m', rw (e, d, reap_name) f, λ k h. g k (grown k h), λ r. g name there)
          | inr d ↦ (m₁, rw (e, d, reap_name) refl, grown, λ r. there)
        ]
  ]

  pub reap_deleted-Ends :
      (size : Bytes → ℕ) (fuel : ℕ) (deleted : Dict Bytes Bool) (m : Dict Bytes Result)
      → IsSized size
      → All (λ (k, _). size k < fuel) deleted
      → (m' : Dict Bytes Result) × (reap_deleted ro fuel deleted m ≡ some m')
        × Grows m m'
        × ((k : Bytes) → has k deleted ≡ true → Reported k m')
  unfolding reap_deleted has lookup
  reap_deleted-Ends size fuel [] m z l = (m, refl, λ k h. h, λ k h. absurd (ground (arith, h)))
  reap_deleted-Ends size fuel ((name, b) ∷ deleted) m z l =
      let (m₁, e, g, r) = reap_name-Ends size fuel name m z l.0 in
      let (m', f, g', r') = reap_deleted-Ends size fuel deleted m₁ z l.1 in
      (
        m',
        rw (e, reap_deleted) f,
        λ k h. g' k (g k h),
        λ k h. elim (Bool-cases (k == name)) [
          | inl s ↦
              subst (λ x. Reported x m') (sym (ground (arith, s, bytes_iff k name)))
                (λ q. g' name (r q))
          | inr s ↦ r' k (ground (arith, h, s))
        ],
      )
