-- ===== src/Cba/Lru/Invariant.antt =====
-- The buffer and the map agree about the entries; Lru/Add and Lru/Get are about what keeps it so.
use termite.Base.{
  ℕ, zero, suc, ◌<◌, ◌≡◌, ◌≢◌, refl, inl, inr, ◌⊎◌, Bytes, List, Option, none, some, nat_eq,
  bytes_eq, bytes_iff, length, get_elem?, replicate, Dict, lookup, erase, lookup-erase, arith,
  length-replicate,
}
use termite.Cba.Lru.{Entry, Cache, new, forget}

replicate-empty : (n i p : ℕ) → get_elem? (replicate {A = Option ℕ} n none) i ≢ some (some p)
replicate-empty zero i p e = cc
replicate-empty (suc n) zero p e = cc
replicate-empty (suc n) (suc i) p e = replicate-empty n i p e

module _ {ℓ} {V : Type ℓ} where
  -- The entry at a place of the heap.
  abbrev pub At : List (Entry V) → ℕ → Entry V → Type ℓ
  At heap p e = get_elem? heap p ≡ some e

  pub record IsValid (c : Cache V) : Type ℓ where
    pub positive : 0 < c.size
    pub full_length : length c.last_used_keys ≡ c.size
    pub in_range : c.next_evict < c.size
    -- What a slot points to knows its slot, and the map points to it under its key.
    pub slots_agree :
        (i p : ℕ)
        → get_elem? c.last_used_keys i ≡ some (some p)
        → (e : Entry V) × At c.heap p e × (e.index ≡ i) × (lookup e.key c.contents ≡ some p)
    -- What the map points to has that key, and stands in its slot.
    pub map_agrees :
        (k : Bytes) (p : ℕ)
        → lookup k c.contents ≡ some p
        → (e : Entry V) × At c.heap p e
          × (e.key ≡ k)
          × (get_elem? c.last_used_keys e.index ≡ some (some p))

  -- A new cache of a positive size is empty and valid.
  pub new-IsValid : (size : ℕ) → 0 < size → IsValid (new {V = V} size)
  unfolding new
  new-IsValid size h = record {
    positive = h;
    full_length = length-replicate size none;
    in_range = h;
    slots_agree = λ i p e. absurd (replicate-empty size i p e);
    map_agrees = λ k p e. absurd (unfold lookup in (let x : none ≡ some p = e in cc));
  }

  -- What `Add` leaves of the map before it enters the new key: all but the key of the entry in the
  -- slot, if the slot has one.
  abbrev pub Kept : Cache V → Dict Bytes ℕ → Type ℓ
  Kept c m =
      ((m ≡ c.contents) × ((p : ℕ) → get_elem? c.last_used_keys c.next_evict ≢ some (some p)))
      ⊎ ((p : ℕ) × (e : Entry V) × (get_elem? c.last_used_keys c.next_evict ≡ some (some p))
          × At c.heap p e
          × (e.index ≡ c.next_evict)
          × (lookup e.key c.contents ≡ some p)
          × (m ≡ erase e.key c.contents))

  pub forget-Kept :
      (c : Cache V)
      → IsValid c
      → (o : Option (Option ℕ)) → get_elem? c.last_used_keys c.next_evict ≡ o
      → Kept c (forget c.heap o c.contents)
  unfolding forget
  forget-Kept c v none q = inl (refl, λ p x. cc)
  forget-Kept c v (some none) q = inl (refl, λ p x. cc)
  forget-Kept c v (some (some p)) q =
      let (e, at, here, mapped) = v.slots_agree c.next_evict p q in
      inr (p, e, q, at, here, mapped, rw (at, forget) refl)

  module _ (c : Cache V) (v : IsValid c) (m : Dict Bytes ℕ) (kept : Kept c m) where
    -- The entries of the other slots stay in the map.
    pub Kept-slot :
        (i p : ℕ) (e : Entry V)
        → i ≢ c.next_evict
        → At c.heap p e
        → e.index ≡ i
        → lookup e.key c.contents ≡ some p
        → lookup e.key m ≡ some p
    Kept-slot i p e n at here mapped = elim kept [
      | inl (same, _) ↦ rw same mapped
      | inr (q, f, stands, at', here', mapped', same) ↦
          ground (arith, lookup-erase e.key f.key c.contents, bytes_iff e.key f.key)
    ]

    -- What stays in the map stands in another slot.
    pub Kept-map :
        (k : Bytes) (p : ℕ)
        → lookup k m ≡ some p
        → (lookup k c.contents ≡ some p) × (get_elem? c.last_used_keys c.next_evict ≢ some (some p))
    Kept-map k p mapped = elim kept [
      | inl (same, empty) ↦ (ground arith, empty p)
      | inr (q, f, stands, at', here', mapped', same) ↦
          let there : lookup k c.contents ≡ some p =
            ground (arith, lookup-erase k f.key c.contents) in
          (
            there,
            λ x.
                ground (
                  arith,
                  lookup-erase k f.key c.contents,
                  bytes_iff k f.key,
                  v.map_agrees k p there,
                ),
          )
    ]
