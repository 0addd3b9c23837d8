-- ===== src/Cba/Lru/Tests.antt =====
-- Examples for the cache of two entries.
use termite.Base.{
  ℕ, suc, ◌+◌, ◌%◌, ◌≡◌, refl, Bytes, codes, some, arith, lookup, insert, get_elem?, bytes_beq,
  bytes_eq,
}
use termite.Cba.Lru.{Entry, Cache, new, add, get, forget}
use termite.Cba.Lru.Invariant.{At, IsValid, new-IsValid}
use termite.Cba.Lru.Add.{add-IsValid}
use termite.Cba.Lru.Get.{IsBefore, get-IsValid}

abbrev key : Bytes
key = codes "a"

abbrev one : Cache ℕ
one = add (new {V = ℕ} 2) key 7

add-IsValid_example : IsValid one
unfolding new lookup
add-IsValid_example = add-IsValid (new {V = ℕ} 2) key 7 (new-IsValid 2 (omega arith)) refl

one-IsValid : IsValid one
unfolding new lookup
one-IsValid = add-IsValid (new {V = ℕ} 2) key 7 (new-IsValid 2 (omega arith)) refl

one_mapped : lookup key one.contents ≡ some 0
unfolding add new forget lookup insert bytes_beq
one_mapped = refl

get-IsValid_example :
    IsValid (get one key).0
    × (e : Entry ℕ) × At one.heap 0 e
    × (e.key ≡ key)
    × ((get one key).1 ≡ some e.val)
    × (get_elem? (get one key).0.last_used_keys e.index
        ≡ get_elem? one.last_used_keys one.next_evict)
    × (get_elem? (get one key).0.last_used_keys one.next_evict ≡ some (some 0))
    × ((get one key).0.next_evict ≡ (one.next_evict + 1) % one.size)
    × ((get one key).0.lookups ≡ suc one.lookups)
    × ((steps : ℕ) × IsBefore one e.index steps
        × ((get one key).0.ages + steps + 1 ≡ one.ages + one.size))
get-IsValid_example = get-IsValid one key 0 one-IsValid one_mapped
