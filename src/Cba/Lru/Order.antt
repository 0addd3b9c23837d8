-- ===== src/Cba/Lru/Order.antt =====
-- What `Get` returns, and where it puts the entry in the order of eviction.
use termite.Base.{
  ℕ, ◌+◌, ◌%◌, ◌<◌, ◌≡◌, ◌≢◌, ◌⊎◌, inl, inr, ℕ_discrete, refl, ◌∙◌, Bytes, Option, some, bytes_eq,
  length, get_elem?, set, lookup, lookup-insert_self, arith, length-set, get_elem?-set_self,
  get_elem?-set_ne, get_elem?-append_end, get_elem?-lt, get_elem?-some, List, ap,
}
use termite.Cba.Lru.{Entry, Cache, forget, add, slot, swap, found, get}
use termite.Cba.Lru.Invariant.{At, IsValid}

slot-get :
    (slots : List (Option ℕ)) (i : ℕ) → i < length slots → some (slot slots i) ≡ get_elem? slots i
unfolding slot
slot-get slots i h = let (o, e) = get_elem?-some slots i h in rw (e, slot)

abbrev pub swapped : List (Option ℕ) → ℕ → ℕ → List (Option ℕ)
swapped slots n i = set (set slots n (slot slots i)) i (slot slots n)

module _ (slots : List (Option ℕ)) (n i : ℕ) where
  pub swapped_self :
      n < length slots → i < length slots → get_elem? (swapped slots n i) i ≡ get_elem? slots n
  swapped_self hn hi =
      get_elem?-set_self (set slots n (slot slots i)) i (slot slots n)
        (rw (length-set slots n (slot slots i)) hi)
      ∙ slot-get slots n hn

  pub swapped-other :
      (o : Option ℕ)
      → n < length slots
      → i ≢ n
      → get_elem? slots i ≡ some o
      → get_elem? (swapped slots n i) n ≡ some o
  swapped-other o hn ne h =
      get_elem?-set_ne (set slots n (slot slots i)) i n (slot slots n) ne
      ∙ get_elem?-set_self slots n (slot slots i) hn
      ∙ slot-get slots i (get_elem?-lt slots i h)
      ∙ h

module _ {ℓ} {V : Type ℓ} where
  -- A `Get` right after an `Add` of the key returns the value that was added.
  pub get-add_self : (c : Cache V) (key : Bytes) (val : V) → (get (add c key val) key).1 ≡ some val
  unfolding get found add
  get-add_self c key val = ground (
    arith,
    lookup-insert_self key (length c.heap)
        (forget c.heap (get_elem? c.last_used_keys c.next_evict) c.contents),
    get_elem?-append_end c.heap (record { key = key; val = val; index = c.next_evict }),
  )

  pub get-found :
      (c : Cache V) (key : Bytes) (p : ℕ) (e : Entry V)
      → lookup key c.contents ≡ some p
      → At c.heap p e
      → get c key ≡ found c (some e)
  unfolding get
  get-found c key p e mapped at = rw (mapped, get, at) refl

  -- The value that `Get` returns, and the slots behind it.
  pub get-swap :
      (c : Cache V) (key : Bytes) (p : ℕ)
      → IsValid c
      → lookup key c.contents ≡ some p
      → (e : Entry V) × At c.heap p e
        × (e.key ≡ key)
        × ((get c key).1 ≡ some e.val)
        × (get_elem? (get c key).0.last_used_keys e.index ≡ get_elem? c.last_used_keys c.next_evict)
        × ((e.index ≡ c.next_evict)
            ⊎ (get_elem? (get c key).0.last_used_keys c.next_evict ≡ some (some p)))
        × ((get c key).0.next_evict ≡ (c.next_evict + 1) % c.size)
  get-swap c key p v mapped =
      let (e, at, is_key, stands) = v.map_agrees key p mapped in
      let slots = c.last_used_keys in
      let n = c.next_evict in
      let small : n < length slots = rw v.full_length v.in_range in
      let small' : e.index < length slots = get_elem?-lt slots e.index stands in
      (
        e,
        at,
        is_key,
        unfold found in ap (λ r. r.1) (get-found c key p e mapped at),
        ap (λ r. get_elem? r.0.last_used_keys e.index) (get-found c key p e mapped at)
            ∙ (unfold found swap in swapped_self slots n e.index small small'),
        elim (ℕ_discrete e.index n) [
          | yes q ↦ inl q
          | no ne ↦ inr (
              ap (λ r. get_elem? r.0.last_used_keys n) (get-found c key p e mapped at)
              ∙ (unfold found swap in swapped-other slots n e.index (some p) small ne stands))
        ],
        ap (λ r. r.0.next_evict) (get-found c key p e mapped at) ∙ (unfold found in refl),
      )
