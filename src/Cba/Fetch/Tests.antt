-- ===== src/Cba/Fetch/Tests.antt =====
-- An example of a transfer, in chunks of two bytes. The sums are not a real hash: one byte, the
-- length of the content.
use termite.Base.{
  ℕ, zero, suc, ◌%◌, ◌≡◌, refl, Bytes, codes, [], ◌∷◌, some, arith, length, lookup, ap,
}
use termite.Cba.Fetch.{Hash, Store, fetched, open_hash, save, serve_chunk, fetch}
use termite.Cba.Fetch.Integrity.{IsAddressed, open_hash-save, fetch-open_hash}
use termite.Cba.Fetch.Transfer.{IsServing, fetch-IsServing, fetch-serve_chunk}

abbrev length_hash : Hash
length_hash = record {
  sum = λ c. length c % 256 ∷ [];
  sum-IsBytes = λ c. (omega arith, tt);
  sum_pos = λ c. omega arith;
}

abbrev content : Bytes
content = codes "hello"

abbrev empty_store : Store
empty_store = record { dir = codes "/cas"; files = [] }

abbrev server : Store
server = save length_hash empty_store content

empty-IsAddressed : IsAddressed length_hash empty_store
unfolding lookup
empty-IsAddressed p c e = cc

whole_fetch :
    fetch (λ req. some (serve_chunk 2 server req)) length_hash empty_store (5 ∷ []) 3
    ≡ (save length_hash empty_store content, fetched)
whole_fetch =
    fetch-serve_chunk length_hash empty_store server (5 ∷ []) content 2 3 (omega arith) refl
      (open_hash-save length_hash empty_store content) (omega arith)

-- A first chunk of four bytes, then chunks of two.
abbrev sizes : ℕ → ℕ
sizes zero = 4
sizes (suc n) = 2

sizes-IsServing :
    IsServing 2 server (5 ∷ []) (λ req. some (serve_chunk (sizes req.start) server req))
sizes-IsServing zero = (4, omega arith, refl)
sizes-IsServing (suc n) = (2, omega arith, refl)

fetch-IsServing_example :
    fetch
      (λ req. some (serve_chunk (sizes req.start) server req))
      length_hash
      empty_store
      (5 ∷ [])
      3
    ≡ (save length_hash empty_store content, fetched)
fetch-IsServing_example =
    fetch-IsServing length_hash empty_store server (5 ∷ []) content 2 3
      (λ req. some (serve_chunk (sizes req.start) server req)) (omega arith) refl
      (open_hash-save length_hash empty_store content) sizes-IsServing (omega arith)

fetch-open_hash_example :
    (c : Bytes) × (length_hash.sum c ≡ 5 ∷ [])
    × (open_hash
          (fetch (λ req. some (serve_chunk 2 server req)) length_hash empty_store (5 ∷ []) 3).0
          (5 ∷ [])
        ≡ some c)
fetch-open_hash_example =
    fetch-open_hash length_hash (λ req. some (serve_chunk 2 server req)) empty_store (5 ∷ []) 3
      empty-IsAddressed (ap (λ r. r.1) whole_fetch)
