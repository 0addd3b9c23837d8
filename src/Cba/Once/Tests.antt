-- ===== src/Cba/Once/Tests.antt =====
-- Two callers that want the same file: the second one waits for the first, and then finds the file.
use termite.Base.{
  ℕ, ◌≡◌, ◌%◌, refl, Bytes, codes, Bool, true, false, [], ◌∷◌, Option, some, none, length, arith,
  if◌then◌else◌, ◌==◌, nat_eq, bytes_eq, lookup,
}
use termite.Cba.Fetch.{Hash, Store, Request, Response, save, serve_chunk}
use termite.Cba.Fetch.Integrity.{IsAddressed}
use termite.Cba.Once.{
  Caller, idle, wants, fetches, told, Client, set_caller, look, finish_fetch, Reach, here, next,
  begins, looks, finishes, new_client,
}
use termite.Cba.Once.Safe.{IsOnce, Reach-IsOnce}

-- Not a real hash: one byte, the length of the content.
abbrev length_hash : Hash
length_hash = record {
  sum = λ c. length c % 256 ∷ [];
  sum-IsBytes = λ c. (omega arith, tt);
  sum_pos = λ c. omega arith;
}

abbrev no_files : Store
no_files = record { dir = codes "/cas"; files = [] }

abbrev call : Request → Option Response
call req = some (serve_chunk 2 (save length_hash no_files (codes "hello")) req)

abbrev begun : Client
begun = set_caller 1 (wants (5 ∷ [])) (set_caller 0 (wants (5 ∷ [])) (new_client no_files))

abbrev waiting : Client
waiting = look 1 (5 ∷ []) (look 0 (5 ∷ []) begun)

abbrev found : Client
found = look 1 (5 ∷ []) (finish_fetch length_hash call 4 0 (5 ∷ []) waiting)

no_files-IsAddressed : IsAddressed length_hash no_files
unfolding lookup
no_files-IsAddressed p c e = cc

run : Reach length_hash call 4 (new_client no_files) found
unfolding new_client set_caller look termite.Cba.Once.is_fetching termite.Cba.Fetch.has_hash
    termite.Cba.Fetch.open_hash termite.Cba.HashPath.hash_path termite.Paths.join lookup
    termite.Base.insert termite.Base.bytes_beq finish_fetch
run =
    next
      (next
        (next
          (next (next (next here (begins 0 (5 ∷ []) refl)) (begins 1 (5 ∷ []) refl))
            (looks 0 (5 ∷ []) refl))
          (looks 1 (5 ∷ []) refl))
        (finishes 0 (5 ∷ []) refl))
      (looks 1 (5 ∷ []) refl)

Reach-IsOnce_example : IsOnce length_hash found
Reach-IsOnce_example = Reach-IsOnce length_hash call 4 no_files no_files-IsAddressed run
