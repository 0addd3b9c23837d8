-- ===== src/Cba/Lru.antt =====
-- cba/lrucache.go. An entry is a shared object, which the buffer and the map both point to: it is a
-- place in a heap.
pub mod Invariant
pub mod Add
pub mod Order
pub mod Get
mod Tests
use termite.Base.{
  ℕ, ◌+◌, ◌-◌, ◌%◌, Bytes, Bool, List, [], ◌∷◌, ◌++◌, Option, none, some, ltb, ◌==◌, nat_eq,
  bytes_eq, if◌then◌else◌, length, get_elem?, set, replicate, Dict, lookup, insert, erase, has,
}

pub record Entry {ℓ} (V : Type ℓ) : Type ℓ where
  pub key : Bytes
  pub val : V
  pub index : ℕ

pub record Cache {ℓ} (V : Type ℓ) : Type ℓ where
  pub size : ℕ
  pub last_used_keys : List (Option ℕ)
  pub next_evict : ℕ
  pub ages : ℕ
  pub lookups : ℕ
  pub contents : Dict Bytes ℕ
  pub heap : List (Entry V)

-- `me.lastUsedKeys[i]`
pub slot : List (Option ℕ) → ℕ → Option ℕ
slot slots i = elim (get_elem? slots i) [ none ↦ none | some o ↦ o ]

module _ {ℓ} {V : Type ℓ} where
  pub new : ℕ → Cache V
  new size = record {
    size = size;
    last_used_keys = replicate size none;
    next_evict = 0;
    ages = 0;
    lookups = 0;
    contents = [];
    heap = [];
  }

  -- The first lines of `Add`: the key of the entry in the slot leaves the map.
  pub forget : List (Entry V) → Option (Option ℕ) → Dict Bytes ℕ → Dict Bytes ℕ
  forget heap (some (some p)) m = elim (get_elem? heap p) [ none ↦ m | some e ↦ erase e.key m ]
  forget heap none m = m
  forget heap (some none) m = m

  -- A size of 0, at which the code panics, is ruled out by the invariant.
  pub add : Cache V → Bytes → V → Cache V
  unfolding forget
  add c key val =
      let p = length c.heap in
      let kept = forget c.heap (get_elem? c.last_used_keys c.next_evict) c.contents in
      record c {
        heap = c.heap ++ record { key = key; val = val; index = c.next_evict } ∷ [];
        contents = insert key p kept;
        last_used_keys = set c.last_used_keys c.next_evict (some p);
        next_evict = (c.next_evict + 1) % c.size;
      }

  -- `me.lastUsedKeys[i].index = i`, unless that is nil.
  pub set_index : Option (Option ℕ) → ℕ → List (Entry V) → List (Entry V)
  set_index (some (some p)) i heap = elim (get_elem? heap p) [
    | none ↦ heap
    | some e ↦ set heap p (record e { index = i })
  ]
  set_index none i heap = heap
  set_index (some none) i heap = heap

  pub swap : Cache V → ℕ → ℕ → Cache V
  unfolding slot set_index
  swap c i j =
      let slots =
        set (set c.last_used_keys i (slot c.last_used_keys j)) j (slot c.last_used_keys i) in
      record c {
        last_used_keys = slots;
        heap = set_index (get_elem? slots j) j (set_index (get_elem? slots i) i c.heap);
      }

  pub has_key : Cache V → Bytes → Bool
  has_key c key = has key c.contents

  -- The age that `Get` records for an entry in slot `i`.
  pub age_of : Cache V → ℕ → ℕ
  age_of c i =
      let i' = if ltb i c.next_evict then i + c.size else i in c.size - (i' - c.next_evict) - 1

  pub found : Cache V → Option (Entry V) → Cache V × Option V
  unfolding swap age_of
  found c none = (c, none)
  found c (some v) =
      let d =
        swap (record c { ages = c.ages + age_of c v.index; lookups = c.lookups + 1 }) c.next_evict
          v.index in
      (record d { next_evict = (c.next_evict + 1) % c.size }, some v.val)

  pub get : Cache V → Bytes → Cache V × Option V
  unfolding found
  get c key = elim (lookup key c.contents) [
    | none ↦ (c, none)
    | some p ↦ found c (get_elem? c.heap p)
  ]
