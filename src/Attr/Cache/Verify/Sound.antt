-- ===== src/Attr/Cache/Verify/Sound.antt =====
-- What `verify` finds out.
use termite.Base.{
  ◌≡◌, ◌≢◌, refl, inl, inr, Bytes, Bool, true, false, not, ◌&&◌, ◌||◌, [], ◌∷◌, Option, none, some,
  ◌==◌, nat_eq, nat_iff, bytes_eq, bytes_iff, Dict, lookup, NodupKeys, has, is_empty, arith, clean,
  Bool-cases,
}
use termite.Paths.{split_path}
use termite.Attr.FileAttr.{FileAttr, deletion}
use termite.Attr.Cache.{Cache, child_mode}
use termite.Attr.Cache.Linked.{IsClean, HasParent, IsEntry, IsLinked}
use termite.Attr.Cache.Verify.{check_children, check_parent, check_entry, check_entries, verify}

pub both : (a b : Bool) → (a && b) ≡ true → (a ≡ true) × (b ≡ true)
both a b h = ground arith

pub all : (a b : Bool) → a ≡ true → b ≡ true → (a && b) ≡ true
all a b p q = ground arith

full_to : (d n : Bool) → (d ≡ true → n ≡ false) → not (d && n) ≡ true
full_to true n h = ground (arith, h refl)
full_to false n h = refl

of_not : {b : Bool} → not b ≡ true → b ≡ false
of_not {b} h = ground arith

full_of : (d n : Bool) → d ≡ true → not (d && n) ≡ true → n ≡ false
full_of d n e h = ground arith

module _ (c : Cache) where
  check_entries-lookup :
      (m : Dict Bytes FileAttr) (k : Bytes) (a : FileAttr)
      → check_entries c m ≡ true
      → lookup k m ≡ some a
      → check_entry c k a ≡ true
  unfolding check_entries lookup
  check_entries-lookup [] k a h e = cc
  check_entries-lookup ((j, v) ∷ m) k a h e =
      let (first, rest) = both (check_entry c j v) (check_entries c m) h in
      elim (Bool-cases (k == j)) [
        | inl same ↦
            let at : k ≡ j = (bytes_iff k j).0 same in
            let is : v ≡ a = grind (arith, e, same) in rw (at, ← is) first
        | inr other ↦ check_entries-lookup m k a rest (grind (arith, e, other))
      ]

  check_parent-lists :
      (o : Option FileAttr) (gone : Bool) (base k : Bytes)
      → base ≢ k
      → gone ≡ false
      → (base == k || check_parent o gone base) ≡ true
      → (p : FileAttr) × (o ≡ some p) × (child_mode p.names base ≢ 0)
  unfolding check_parent
  check_parent-lists none gone base k n g h = ground (arith, bytes_iff base k)
  check_parent-lists (some p) gone base k n g h =
      (p, refl, λ z. ground (arith, bytes_iff base k, nat_iff (child_mode p.names base) 0))

  check_entry-IsEntry :
      (k : Bytes) (a : FileAttr) → IsClean k → check_entry c k a ≡ true → IsEntry c.attributes k a
  unfolding check_entry
  check_entry-IsEntry k a q h =
      let (h₁, parent) = both _ _ h in
      let (h₂, plain) = both _ _ h₁ in
      let (h₃, listing) = both _ _ h₂ in
      let (h₄, stays) = both _ _ h₃ in
      let (h₅, idle) = both _ _ h₄ in
      let (cleaned, keyed) = both _ _ h₅ in
      let gone : deletion a ≡ false = of_not stays in
      record {
        keyed = (bytes_iff a.path k).0 keyed;
        clean = q;
        present = gone;
        full = λ d. full_of _ _ d listing;
        parent = λ n. check_parent-lists _ _ _ _ n gone parent;
      }

  -- What an entry that passes is apart from the invariant.
  pub check_entry-rest :
      (k : Bytes) (a : FileAttr)
      → check_entry c k a ≡ true
      → ((is_empty k || clean k == k) ≡ true) × (has k c.busy ≡ false) × (check_children a ≡ true)
  unfolding check_entry
  check_entry-rest k a h =
      let (h₁, parent) = both _ _ h in
      let (h₂, plain) = both _ _ h₁ in
      let (h₃, listing) = both _ _ h₂ in
      let (h₄, stays) = both _ _ h₃ in
      let (h₅, idle) = both _ _ h₄ in
      let (cleaned, keyed) = both _ _ h₅ in (cleaned, of_not idle, plain)

  lists-check_parent :
      (k : Bytes) (gone : Bool)
      → gone ≡ false
      → HasParent c.attributes k
      → ((split_path k).1 == k
          || check_parent (lookup (split_path k).0 c.attributes) gone (split_path k).1)
        ≡ true
  unfolding check_parent
  lists-check_parent k gone g parent = elim (Bool-cases ((split_path k).1 == k)) [
    | inl top ↦ rw top refl
    | inr below ↦
        let (p, there, lists) = parent (λ e. ground (arith, bytes_iff (split_path k).1 k)) in
        rw (there, g, below) (ground (arith, nat_iff (child_mode p.names (split_path k).1) 0))
  ]

  IsEntry-check_entry :
      (k : Bytes) (a : FileAttr)
      → IsEntry c.attributes k a
      → (is_empty k || clean k == k) ≡ true
      → has k c.busy ≡ false
      → check_children a ≡ true
      → check_entry c k a ≡ true
  unfolding check_entry
  IsEntry-check_entry k a i cleaned idle plain =
      let keyed = (bytes_iff a.path k).1 i.keyed in
      all _ _
        (all _ _
          (all _ _ (all _ _ (all _ _ (all _ _ cleaned keyed) (rw idle refl)) (rw i.present refl))
            (full_to _ _ i.full))
          plain)
        (lists-check_parent k _ i.present i.parent)

  check_entries-intro :
      (m : Dict Bytes FileAttr)
      → NodupKeys m
      → ((k : Bytes) (a : FileAttr) → lookup k m ≡ some a → check_entry c k a ≡ true)
      → check_entries c m ≡ true
  unfolding check_entries lookup
  check_entries-intro [] u h = refl
  check_entries-intro ((j, v) ∷ m) (new, u) h = all _ _ (h j v (rw ((bytes_iff j j).1 refl) refl)) (
      check_entries-intro m u (λ k a e. elim (Bool-cases (k == j)) [
        | inl same ↦ absurd (grind (arith, (bytes_iff k j).0 same, new, e))
        | inr other ↦ h k a (rw other e)
      ]))

-- Where `verify` checks a cache and does not panic, the cache is linked, if its paths have the one slash before
-- their last components.
pub verify-IsLinked :
    (c : Cache)
    → ((k : Bytes) (a : FileAttr) → lookup k c.attributes ≡ some a → IsClean k)
    → verify true c ≡ true
    → IsLinked c.attributes
unfolding verify
verify-IsLinked c q h k a e =
    check_entry-IsEntry c k a (q k a e) (check_entries-lookup c c.attributes k a h e)

-- And where the cache is linked, no path of an entry is busy or unclean, and the names of children are in order,
-- then it does not panic.
pub IsLinked-verify :
    (c : Cache)
    → NodupKeys c.attributes
    → IsLinked c.attributes
    → ((k : Bytes) (a : FileAttr)
        → lookup k c.attributes ≡ some a
        → ((is_empty k || clean k == k) ≡ true)
          × (has k c.busy ≡ false)
          × (check_children a ≡ true))
    → verify true c ≡ true
unfolding verify
IsLinked-verify c u l h = check_entries-intro c c.attributes u (λ k a e.
    let (cleaned, idle, plain) = h k a e in IsEntry-check_entry c k a (l k a e) cleaned idle plain)

pub verify-rest :
    (c : Cache) (k : Bytes) (a : FileAttr)
    → verify true c ≡ true
    → lookup k c.attributes ≡ some a
    → ((is_empty k || clean k == k) ≡ true) × (has k c.busy ≡ false) × (check_children a ≡ true)
unfolding verify
verify-rest c k a h e = check_entry-rest c k a (check_entries-lookup c c.attributes k a h e)
