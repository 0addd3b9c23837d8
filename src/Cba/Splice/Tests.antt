-- ===== src/Cba/Splice/Tests.antt =====
-- A file of five bytes that is served in blocks of four: the second call gets what the first one left.
use termite.Base.{
  ℕ, zero, suc, ◌≡◌, ◌%◌, ◌+◌, refl, Bytes, codes, Bool, true, false, List, [], ◌∷◌, Option, some,
  none, length, arith, if◌then◌else◌, ◌==◌, nat_eq, bytes_eq, lookup, insert, ltb, take, drop,
}
use termite.Cba.HashPath.{hash_path}
use termite.Cba.Fetch.{Hash, Store, Request, Response, fetched, open_hash, save, serve_chunk, fetch}
use termite.Cba.Splice.{
  key_eq, Sequence, Call, idle, prepared, holds, answered, SpliceServer, set_call, prepare_serve,
  end_chunk, Reach, here, next, begins, takes, ends, remove_sequence, new_splice_server,
}
use termite.Cba.Splice.Same.{IsSame, Reach-IsSame}
use termite.Cba.Splice.Whole.{IsAnswered, fetch-IsAnswered}

-- Not a real hash: one byte, the length of the content.
abbrev length_hash : Hash
length_hash = record {
  sum = λ c. length c % 256 ∷ [];
  sum-IsBytes = λ c. (omega arith, tt);
  sum_pos = λ c. omega arith;
}

abbrev store : Store
store = record { dir = codes "/cas"; files = (codes "/cas/05/", codes "hello") ∷ [] }

abbrev first : Request
first = record { hash = 5 ∷ []; start = 0 }

abbrev second : Request
second = record { hash = 5 ∷ []; start = 4 }

abbrev hello : ℕ → Sequence
hello at = record { content = codes "hello"; off = at }

abbrev begun : SpliceServer
begun = remove_sequence 2 0 first (prepare_serve 0 first (new_splice_server store))

abbrev served : SpliceServer
served = end_chunk 2 4 0 first (hello 0) true begun

abbrev both : SpliceServer
both =
    end_chunk 2 4 1 second (hello 4) true
      (remove_sequence 2 1 second (prepare_serve 1 second served))

first_served : Reach 2 4 (new_splice_server store) served
unfolding new_splice_server prepare_serve end_chunk set_call open_hash hash_path lookup
    termite.Paths.join termite.Base.bytes_beq termite.Cba.Splice.insert_sequence remove_sequence
    termite.Cba.Splice.sequences insert termite.Cba.Splice.block
first_served =
    next (next (next here (begins 0 first refl)) (takes 0 first refl))
      (ends 0 first (hello 0) true refl)

run : Reach 2 4 (new_splice_server store) both
unfolding new_splice_server prepare_serve end_chunk set_call open_hash hash_path lookup
    termite.Paths.join termite.Base.bytes_beq termite.Cba.Splice.insert_sequence remove_sequence
    termite.Cba.Splice.sequences insert termite.Cba.Splice.block
run =
    next (next (next first_served (begins 1 second refl)) (takes 1 second refl))
      (ends 1 second (hello 4) true refl)

Reach-IsSame_example : IsSame 2 4 store both
Reach-IsSame_example = Reach-IsSame 2 4 store run

-- The second call gets the last byte.
second-answered :
    both.calls 1
    ≡ answered second (record { size = 1; have = true; last = true; chunk = codes "o" })
unfolding new_splice_server prepare_serve end_chunk set_call open_hash hash_path lookup
    termite.Paths.join termite.Base.bytes_beq termite.Cba.Splice.insert_sequence remove_sequence
    termite.Cba.Splice.sequences insert termite.Cba.Splice.block termite.Cba.Splice.response
second-answered = refl

-- Each byte but the first is read by a call of its own; the first four by the call above.
abbrev at : ℕ → Request
at start = record { hash = 5 ∷ []; start = start }

abbrev reply : ℕ → Response
reply zero = record { size = 4; have = true; last = false; chunk = codes "hell" }
reply (suc n) = serve_chunk 2 store (at (suc n))

abbrev later : ℕ → SpliceServer
later n = remove_sequence 2 0 (at (suc n)) (prepare_serve 0 (at (suc n)) (new_splice_server store))

later_prepared :
    (n : ℕ)
    → (prepare_serve 0 (at (suc n)) (new_splice_server store)).calls 0 ≡ prepared (at (suc n))
unfolding new_splice_server prepare_serve set_call
later_prepared n = let e : (suc n == 0) ≡ false = ground arith in rw (e, prepare_serve) refl

later_answered : (n : ℕ) → (later n).calls 0 ≡ answered (at (suc n)) (reply (suc n))
unfolding new_splice_server prepare_serve set_call remove_sequence termite.Cba.Splice.sequences
    lookup
later_answered n = let e : (suc n == 0) ≡ false = ground arith in rw (e, prepare_serve) refl

answers-IsAnswered : IsAnswered 2 4 store (5 ∷ []) (λ req. some (reply req.start))
unfolding new_splice_server prepare_serve end_chunk set_call open_hash hash_path lookup
    termite.Paths.join termite.Base.bytes_beq termite.Cba.Splice.insert_sequence remove_sequence
    termite.Cba.Splice.sequences insert termite.Cba.Splice.block termite.Cba.Splice.response
answers-IsAnswered zero = (served, first_served, 0, reply 0, refl, refl)
answers-IsAnswered (suc n) = (
  later n,
  next (next here (begins 0 (at (suc n)) refl)) (takes 0 (at (suc n)) (later_prepared n)),
  0,
  reply (suc n),
  later_answered n,
  refl,
)

abbrev empty_store : Store
empty_store = record { dir = codes "/other"; files = [] }

stored : open_hash store (5 ∷ []) ≡ some (codes "hello")
unfolding open_hash hash_path lookup termite.Paths.join termite.Base.bytes_beq
stored = refl

fetch-IsAnswered_example :
    fetch (λ req. some (reply req.start)) length_hash empty_store (5 ∷ []) 3
    ≡ (save length_hash empty_store (codes "hello"), fetched)
fetch-IsAnswered_example =
    fetch-IsAnswered length_hash empty_store store (5 ∷ []) (codes "hello") 2 4 2 3
      (λ req. some (reply req.start)) (omega arith) (omega arith) (omega arith) refl stored
      answers-IsAnswered (omega arith)
