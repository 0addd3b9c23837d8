-- ===== src/Cba/Lru/Add.antt =====
-- `Add` of a new key.
use termite.Base.{
  ℕ, ◌≡◌, refl, sym, ◌∙◌, inl, inr, Bytes, [], ◌∷◌, none, some, ◌==◌, nat_eq, bytes_eq, bytes_iff,
  length, get_elem?, Dict, lookup, lookup-insert, lookup-insert_self, arith, length-set,
  get_elem?-set_self, get_elem?-set_ne, Bool-cases, ℕ_discrete, get_elem?-append_left,
  get_elem?-append_end,
}
use termite.Cba.Lru.{Entry, Cache, forget, add}
use termite.Cba.Lru.Invariant.{At, IsValid, Kept, forget-Kept, Kept-slot, Kept-map}

module _ {ℓ} {V : Type ℓ} where
  module _ (c : Cache V) (key : Bytes) (val : V) (v : IsValid c)
      (fresh : lookup key c.contents ≡ none) where
    kept_map : Dict Bytes ℕ
    kept_map = forget c.heap (get_elem? c.last_used_keys c.next_evict) c.contents

    fresh_entry : Entry V
    fresh_entry = record { key = key; val = val; index = c.next_evict }

    p0 : ℕ
    p0 = length c.heap

    open c use {last_used_keys as slots, next_evict as n}
    open v use {full_length, in_range, slots_agree, map_agrees}

    kept : Kept c kept_map
    unfolding kept_map
    kept = forget-Kept c v (get_elem? slots n) refl

    add-slots_agree :
        (i p : ℕ)
        → get_elem? (add c key val).last_used_keys i ≡ some (some p)
        → (e : Entry V) × At (add c key val).heap p e
          × (e.index ≡ i)
          × (lookup e.key (add c key val).contents ≡ some p)
    unfolding add fresh_entry kept_map p0
    add-slots_agree i p s = elim (ℕ_discrete i c.next_evict) [
      | yes here ↦ (
        fresh_entry,
        ground (
          arith,
          get_elem?-set_self slots n (some p0) (rw full_length in_range),
          get_elem?-append_end c.heap fresh_entry,
        ),
        sym here,
        ground (
          arith,
          get_elem?-set_self slots n (some p0) (rw full_length in_range),
          lookup-insert_self key p0 kept_map,
        ),
      )
      | no there ↦
          let (e, at, ix, mapped) =
            slots_agree i p (sym (get_elem?-set_ne slots n i (some p0) (λ x. there (sym x))) ∙ s) in
          (
            e,
            get_elem?-append_left c.heap (fresh_entry ∷ []) p at,
            ix,
            ground (
              arith,
              lookup-insert e.key key p0 kept_map,
              bytes_iff e.key key,
              Kept-slot c v kept_map kept i p e there at ix mapped,
            ),
          )
    ]

    add-map_agrees :
        (k : Bytes) (p : ℕ)
        → lookup k (add c key val).contents ≡ some p
        → (e : Entry V) × At (add c key val).heap p e
          × (e.key ≡ k)
          × (get_elem? (add c key val).last_used_keys e.index ≡ some (some p))
    unfolding add fresh_entry kept_map p0
    add-map_agrees k p s = elim (Bool-cases (k == key)) [
      | inl same ↦ (
        fresh_entry,
        ground (arith, lookup-insert k key p0 kept_map, get_elem?-append_end c.heap fresh_entry),
        ground (arith, bytes_iff k key),
        ground (
          arith,
          lookup-insert k key p0 kept_map,
          get_elem?-set_self slots n (some p0) (rw full_length in_range),
        ),
      )
      | inr other ↦
          let (mapped, elsewhere) =
            Kept-map c v kept_map kept k p (ground (arith, lookup-insert k key p0 kept_map)) in
          let (e, at, is_key, stands) = map_agrees k p mapped in
          (
            e,
            get_elem?-append_left c.heap (fresh_entry ∷ []) p at,
            is_key,
            get_elem?-set_ne slots n e.index (some p0) (λ x. elsewhere (rw x stands)) ∙ stands,
          )
    ]

-- `Add` of a key that the cache does not have keeps the cache valid.
pub add-IsValid {ℓ} :
    {V : Type ℓ} (c : Cache V) (key : Bytes) (val : V)
    → IsValid c
    → lookup key c.contents ≡ none
    → IsValid (add c key val)
unfolding add
add-IsValid c key val v fresh = record {
  positive = v.positive;
  full_length = length-set c.last_used_keys c.next_evict _ ∙ v.full_length;
  in_range = grind (arith, v.positive);
  slots_agree = add-slots_agree c key val v fresh;
  map_agrees = add-map_agrees c key val v fresh;
}
