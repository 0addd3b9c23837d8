-- ===== src/Cba/Lru/Get.antt =====
-- `Get`: that the buffer and the map still agree, and the age that it records.
use termite.Base.{
  ℕ, suc, ◌+◌, ◌-◌, ◌%◌, ◌<◌, ◌≡◌, ◌≢◌, ◌⊎◌, inl, inr, ℕ_discrete, refl, sym, ap, ◌∙◌, Bytes,
  Option, none, some, bytes_eq, List, length, get_elem?, set, lookup, arith, length-set,
  get_elem?-set_self, get_elem?-set_ne, get_elem?-lt, ltb, Bool-cases, Option-cases,
}
use termite.Cba.Lru.{Entry, Cache, slot, set_index, swap, age_of, found, get}
use termite.Cba.Lru.Invariant.{At, IsValid}
use termite.Cba.Lru.Order.{swapped, swapped_self, swapped-other, get-found}

unpack : {p q : ℕ} → some (some p) ≡ some (some q) → p ≡ q
unpack e = cc

some-injective {ℓ} : {A : Type ℓ} {x y : A} → some x ≡ some y → x ≡ y
some-injective e = cc

Slot-cases : (p : ℕ) (o : Option (Option ℕ)) → (o ≡ some (some p)) ⊎ (o ≢ some (some p))
Slot-cases p none = inr (λ e. cc)
Slot-cases p (some none) = inr (λ e. cc)
Slot-cases p (some (some q)) = elim (ℕ_discrete q p) [
  | yes e ↦ inl (ap (λ x. some (some x)) e)
  | no n ↦ inr (λ e. n (unpack e))
]

module _ {ℓ} {V : Type ℓ} where
  set_index_self :
      (heap : List (Entry V)) (o : Option (Option ℕ)) (p i : ℕ) (e : Entry V)
      → o ≡ some (some p)
      → At heap p e
      → At (set_index o i heap) p (record e { index = i })
  unfolding set_index
  set_index_self heap o p i e s at =
      rw (s, at, set_index)
        (get_elem?-set_self heap p (record e { index = i }) (get_elem?-lt heap p at))

  set_index-ne :
      (heap : List (Entry V)) (o : Option (Option ℕ)) (i q : ℕ)
      → o ≢ some (some q)
      → get_elem? (set_index o i heap) q ≡ get_elem? heap q
  unfolding set_index
  set_index-ne heap none i q n = refl
  set_index-ne heap (some none) i q n = refl
  set_index-ne heap (some (some p)) i q n = elim (Option-cases (get_elem? heap p)) [
    | inl gone ↦ rw (gone, set_index) refl
    | inr (e, at) ↦
        rw (at, set_index)
          (get_elem?-set_ne heap p q (record e { index = i }) (λ x. n (ap (λ y. some (some y)) x)))
  ]

  module _ (c : Cache V) (v : IsValid c) (p : ℕ) (e : Entry V) (at : At c.heap p e)
      (stands : get_elem? c.last_used_keys e.index ≡ some (some p))
      (mapped : lookup e.key c.contents ≡ some p) where
    open c use {last_used_keys as slots, next_evict as n}

    abbrev i : ℕ
    i = e.index

    abbrev slots' : List (Option ℕ)
    slots' = swapped slots n i

    abbrev heap' : List (Entry V)
    heap' = set_index (get_elem? slots' i) i (set_index (get_elem? slots' n) n c.heap)

    n-lt : n < length slots
    n-lt = rw v.full_length v.in_range

    i-lt : i < length slots
    i-lt = get_elem?-lt slots i stands

    at_i : get_elem? slots' i ≡ get_elem? slots n
    at_i = swapped_self slots n i n-lt i-lt

    at_n : get_elem? slots' n ≡ some (some p)
    at_n = elim (ℕ_discrete i n) [
      | yes q ↦ ap (λ x. get_elem? slots' x) (sym q) ∙ at_i ∙ ap (get_elem? slots) (sym q) ∙ stands
      | no ne ↦ swapped-other slots n i (some p) n-lt ne stands
    ]

    at_other : (j : ℕ) → j ≢ n → j ≢ i → get_elem? slots' j ≡ get_elem? slots j
    at_other j a b =
        get_elem?-set_ne (set slots n (slot slots i)) i j (slot slots n) (λ x. b (sym x))
        ∙ get_elem?-set_ne slots n j (slot slots i) (λ x. a (sym x))

    abbrev heap₁ : List (Entry V)
    heap₁ = set_index (get_elem? slots' n) n c.heap

    heap₁_other : (q : ℕ) → q ≢ p → get_elem? heap₁ q ≡ get_elem? c.heap q
    heap₁_other q a = set_index-ne c.heap (get_elem? slots' n) n q (λ x. a (unpack (sym x ∙ at_n)))

    heap₁_self : At heap₁ p (record e { index = n })
    heap₁_self = set_index_self c.heap (get_elem? slots' n) p n e at_n at

    -- The entry that stood in the slot to be evicted next.
    heap_evict :
        (q : ℕ) (f : Entry V)
        → get_elem? slots n ≡ some (some q)
        → At c.heap q f
        → (g : Entry V) × At heap' q g × (g.index ≡ i) × (g.key ≡ f.key)
    heap_evict q f s a = elim (ℕ_discrete q p) [
      | yes same ↦
          let e-f : e ≡ f = some-injective (sym at ∙ ap (get_elem? c.heap) (sym same) ∙ a) in
          (
            record e { index = i },
            set_index_self heap₁ (get_elem? slots' i) q i (record e { index = n }) (at_i ∙ s)
                (ap (get_elem? heap₁) same ∙ heap₁_self),
            refl,
            ap (λ (x : Entry V). x.key) e-f,
          )
      | no other ↦ (
        record f { index = i },
        set_index_self heap₁ (get_elem? slots' i) q i f (at_i ∙ s) (heap₁_other q other ∙ a),
        refl,
        refl,
      )
    ]

    heap_self : (g : Entry V) × At heap' p g × (g.index ≡ n) × (g.key ≡ e.key)
    heap_self = elim (Slot-cases p (get_elem? slots n)) [
      | inl here ↦
          let (g, a, k, q) = heap_evict p e here at in
          let (f, a', k', _) = v.slots_agree n p here in
          let same : e ≡ f = some-injective (sym at ∙ a') in
          (g, a, k ∙ ap (λ (x : Entry V). x.index) same ∙ k', q)
      | inr there ↦ (
        record e { index = n },
        set_index-ne heap₁ (get_elem? slots' i) i p (λ x. there (sym at_i ∙ x)) ∙ heap₁_self,
        refl,
        refl,
      )
    ]

    heap_other :
        (q : ℕ) → q ≢ p → get_elem? slots n ≢ some (some q) → get_elem? heap' q ≡ get_elem? c.heap q
    heap_other q a b =
        set_index-ne heap₁ (get_elem? slots' i) i q (λ x. b (sym at_i ∙ x)) ∙ heap₁_other q a

    swapped-slots_agree :
        (j q : ℕ)
        → get_elem? slots' j ≡ some (some q)
        → (g : Entry V) × At heap' q g × (g.index ≡ j) × (lookup g.key c.contents ≡ some q)
    swapped-slots_agree j q s = elim (ℕ_discrete j n) [
      | yes jn ↦
          let q-p : p ≡ q = unpack (sym at_n ∙ ap (get_elem? slots') (sym jn) ∙ s) in
          let (g, a, k, key) = heap_self in
          (
            g,
            ap (get_elem? heap') (sym q-p) ∙ a,
            k ∙ sym jn,
            ap (λ x. lookup x c.contents) key ∙ mapped ∙ ap some q-p,
          )
      | no jn ↦ elim (ℕ_discrete j i) [
        | yes ji ↦
            let old : get_elem? slots n ≡ some (some q) =
              sym at_i ∙ ap (get_elem? slots') (sym ji) ∙ s in
            let (f, a, _, m) = v.slots_agree n q old in
            let (g, a', k, key) = heap_evict q f old a in
            (g, a', k ∙ sym ji, ap (λ x. lookup x c.contents) key ∙ m)
        | no ji ↦
            let old : get_elem? slots j ≡ some (some q) = sym (at_other j jn ji) ∙ s in
            let (f, a, k, m) = v.slots_agree j q old in
            (
              f,
              heap_other q
                    (λ x. ji (
                      sym k
                      ∙ ap (λ (y : Entry V). y.index)
                          (some-injective (sym a ∙ ap (get_elem? c.heap) x ∙ at))))
                    (λ x.
                      let (h, b, l, _) = v.slots_agree n q x in
                      jn (sym k ∙ ap (λ (y : Entry V). y.index) (some-injective (sym a ∙ b)) ∙ l))
                  ∙ a,
              k,
              m,
            )
      ]
    ]

    swapped-map_agrees :
        (k : Bytes) (q : ℕ)
        → lookup k c.contents ≡ some q
        → (g : Entry V) × At heap' q g × (g.key ≡ k) × (get_elem? slots' g.index ≡ some (some q))
    swapped-map_agrees k q m =
        let (f, a, key, s) = v.map_agrees k q m in
        elim (ℕ_discrete q p) [
          | yes same ↦
              let (g, a', j, key') = heap_self in
              let f-e : f ≡ e = some-injective (sym a ∙ ap (get_elem? c.heap) same ∙ at) in
              (
                g,
                ap (get_elem? heap') same ∙ a',
                key' ∙ sym (ap (λ (y : Entry V). y.key) f-e) ∙ key,
                ap (get_elem? slots') j ∙ at_n ∙ ap (λ x. some (some x)) (sym same),
              )
          | no other ↦ elim (Slot-cases q (get_elem? slots n)) [
            | inl here ↦
                let (g, a', j, key') = heap_evict q f here a in
                (g, a', key' ∙ key, ap (get_elem? slots') j ∙ at_i ∙ here)
            | inr there ↦ (
              f,
              heap_other q other there ∙ a,
              key,
              at_other f.index (λ x. there (ap (get_elem? slots) (sym x) ∙ s))
                    (λ x. other (unpack (sym s ∙ ap (get_elem? slots) x ∙ stands)))
                  ∙ s,
            )
          ]
        ]

  -- How many slots stand in the order of eviction before the one in this slot.
  abbrev pub IsBefore : Cache V → ℕ → ℕ → Type 0
  IsBefore c i steps =
      (steps < c.size) × ((c.next_evict + steps ≡ i) ⊎ (c.next_evict + steps ≡ i + c.size))

  age_of-IsBefore :
      (c : Cache V) (i : ℕ)
      → c.next_evict < c.size
      → i < c.size
      → (steps : ℕ) × IsBefore c i steps × (age_of c i + steps + 1 ≡ c.size)
  unfolding age_of
  age_of-IsBefore c i h k = elim (Bool-cases (ltb i c.next_evict)) [
    | inl e ↦ (i + c.size - c.next_evict, (ground arith, inr (ground arith)), ground arith)
    | inr e ↦ (i - c.next_evict, (ground arith, inl (ground arith)), ground arith)
  ]

  -- `Get` of a key that a valid cache has leaves a valid cache, and returns the value of the key's entry. The entry
  -- trades places with the one that was next to be evicted, which so is evicted later though it was not used,
  -- and the slot after it is the next to be evicted. One lookup is counted, and the age that is recorded is the
  -- number of slots that would have been reused after that of the entry, in one round of evictions.
  pub get-IsValid :
      (c : Cache V) (key : Bytes) (p : ℕ)
      → IsValid c
      → lookup key c.contents ≡ some p
      → IsValid (get c key).0
        × (e : Entry V) × At c.heap p e
        × (e.key ≡ key)
        × ((get c key).1 ≡ some e.val)
        × (get_elem? (get c key).0.last_used_keys e.index ≡ get_elem? c.last_used_keys c.next_evict)
        × (get_elem? (get c key).0.last_used_keys c.next_evict ≡ some (some p))
        × ((get c key).0.next_evict ≡ (c.next_evict + 1) % c.size)
        × ((get c key).0.lookups ≡ suc c.lookups)
        × ((steps : ℕ) × IsBefore c e.index steps
            × ((get c key).0.ages + steps + 1 ≡ c.ages + c.size))
  unfolding found swap
  get-IsValid c key p v mapped =
      let (e, at, is_key, stands) = v.map_agrees key p mapped in
      let i-lt : e.index < c.size =
        rw v.full_length at (get_elem?-lt c.last_used_keys e.index stands) in
      let there : lookup e.key c.contents ≡ some p =
        ap (λ x. lookup x c.contents) is_key ∙ mapped in
      let (steps, before, age) = age_of-IsBefore c e.index v.in_range i-lt in
      rw (get-found c key p e mapped at) (
        record {
          positive = v.positive;
          full_length =
              length-set (set c.last_used_keys c.next_evict _) e.index _
              ∙ length-set c.last_used_keys c.next_evict _
              ∙ v.full_length;
          in_range = grind (arith, v.positive);
          slots_agree = swapped-slots_agree c v p e at stands there;
          map_agrees = swapped-map_agrees c v p e at stands there;
        },
        e,
        at,
        is_key,
        refl,
        at_i c v p e at stands there,
        at_n c v p e at stands there,
        refl,
        omega arith,
        (steps, before, omega (arith, age)),
      )
