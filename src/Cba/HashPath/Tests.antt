-- ===== src/Cba/HashPath/Tests.antt =====
-- Examples for the paths of hashes.
use termite.Base.{◌≡◌, Bytes, codes, [], ◌∷◌, arith}
use termite.Cba.HashPath.Laws.{IsBytes, hash_path-some, hash_path-injective}

abbrev hash : Bytes
hash = 1 ∷ 171 ∷ 16 ∷ []

hash-IsBytes : IsBytes hash
hash-IsBytes = (omega arith, (omega arith, (omega arith, tt)))

hash_path-injective_example : ◌≡◌ {A = Bytes} hash hash
hash_path-injective_example =
    hash_path-injective (codes "/cas") hash hash
      (hash_path-some (codes "/cas") hash (omega arith)).0 hash-IsBytes hash-IsBytes
      (hash_path-some (codes "/cas") hash (omega arith)).1
      (hash_path-some (codes "/cas") hash (omega arith)).1
