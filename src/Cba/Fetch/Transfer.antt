-- ===== src/Cba/Fetch/Transfer.antt =====
-- A fetch from a store that has the file: it ends, and the client then has the same file.
use termite.Base.{
  ℕ, zero, suc, ◌*◌, ◌≡◌, ◌≢◌, ◌<◌, ◌≤◌, ◌∙◌, ap, refl, inl, inr, Bytes, true, false, [], ◌∷◌, ◌++◌,
  Option, none, some, bytes_eq, bytes_iff, arith, length, take, drop, ltb, ltb→lt, length-append,
  drop-length_append, take_of_length-le, take_of_short, length-take-le, length-drop,
  take-append-drop, append_assoc, Bool-cases,
}
use termite.Cba.Fetch.{
  Hash, Store, Request, Response, fetched, open_hash, save, compare_sum, finish, written, read_at,
  serve_chunk, fetch_loop, fetch,
}

-- A writer is made only for a chunk, and a full chunk is not empty.
abbrev IsStarted : Option Bytes → Type 0
IsStarted none = Unit {0}
IsStarted (some part) = part ≢ []

append-ne-nil : (s t : Bytes) → 0 < length t → s ++ t ≢ []
append-ne-nil s t h e = omega (arith, ap length e, length-append s t)

short_of_full : (sz : ℕ) (rest : Bytes) → ltb (length (take sz rest)) sz ≡ false → sz ≤ length rest
short_of_full sz rest h =
    ground
      (arith, ap length (take-append-drop sz rest), length-append (take sz rest) (drop sz rest))

-- The answers of a server that has the file: those of `ServeChunk`, each in chunks of a size of its own,
-- of `lo` bytes at least.
abbrev pub IsServing : ℕ → Store → Bytes → (Request → Option Response) → Type 0
IsServing lo server want call =
    (start : ℕ)
    → (sz : ℕ) × (lo ≤ sz)
      × (call (record { hash = want; start = start })
          ≡ some (serve_chunk sz server (record { hash = want; start = start })))

module _ (h : Hash) (client : Store) (want content : Bytes) (same : h.sum content ≡ want) where
  finish-whole :
      (out : Option Bytes) (chunk : Bytes)
      → IsStarted out
      → written out ++ chunk ≡ content
      → finish h client want out chunk ≡ (save h client content, fetched)
  unfolding finish compare_sum written
  finish-whole none chunk s e = ground (arith, bytes_iff want (h.sum content))
  finish-whole (some []) chunk s e = absurd (s refl)
  finish-whole (some (b ∷ part)) chunk s e = ground (arith, bytes_iff want (h.sum content))

  module _ (server : Store) (stored : open_hash server want ≡ some content) where
    serve-rest :
        (sz : ℕ) (out : Option Bytes) (rest : Bytes)
        → written out ++ rest ≡ content
        → serve_chunk sz server (record { hash = want; start = length (written out) }) ≡ record {
          size = length (take sz rest);
          have = true;
          last = ltb (length (take sz rest)) sz;
          chunk = take sz rest;
        }
    unfolding serve_chunk read_at
    serve-rest sz out rest e =
        let d : drop (length (written out)) content ≡ rest =
          rw (← e) (drop-length_append (written out) rest) in
        rw (stored, serve_chunk, d) refl

    fetch_loop-whole :
        (lo : ℕ) (call : Request → Option Response)
        → 0 < lo
        → IsServing lo server want call
        → (fuel : ℕ) (out : Option Bytes) (rest : Bytes) → IsStarted out
        → written out ++ rest ≡ content
        → length rest < fuel * lo
        → fetch_loop call h client want fuel out ≡ (save h client content, fetched)
    unfolding fetch_loop
    fetch_loop-whole lo call pos serving zero out rest s e f = absurd (omega arith)
    fetch_loop-whole lo call pos serving (suc fuel) out rest s e f =
        let (sz, large, answer) = serving (length (written out)) in
        let chunk = take sz rest in
        rw
          (
            answer,
            fetch_loop,
            serve-rest sz out rest e,
            take_of_length-le (length chunk) chunk (omega arith),
          )
          (elim (Bool-cases (ltb (length chunk) sz)) [
            | inl short ↦ rw short (
                let all : chunk ≡ rest = take_of_short sz rest (ltb→lt _ _ short) in
                finish-whole out chunk s (rw all e))
            | inr full ↦ rw full (
                fetch_loop-whole lo call pos serving fuel (some (written out ++ chunk))
                  (drop sz rest) (append-ne-nil (written out) chunk (ground arith))
                  (unfold written in
                    append_assoc (written out) chunk (drop sz rest)
                    ∙ ap (◌++◌ (written out)) (take-append-drop sz rest)
                    ∙ e)
                  (omega (
                    arith,
                    length-drop sz rest,
                    length-take-le sz rest,
                    short_of_full sz rest full,
                  )))
          ])

-- A client that fetches a file from a server which has it under its right hash, and which answers in chunks
-- of whatever sizes, each of them at least a given positive one, ends with that file saved, when it is given
-- a round for each full chunk of the given size and one more.
pub fetch-IsServing :
    (h : Hash) (client server : Store) (want content : Bytes) (lo fuel : ℕ)
    (call : Request → Option Response)
    → 0 < lo
    → h.sum content ≡ want
    → open_hash server want ≡ some content
    → IsServing lo server want call
    → length content < fuel * lo
    → fetch call h client want fuel ≡ (save h client content, fetched)
unfolding fetch
fetch-IsServing h client server want content lo fuel call pos same stored serving f =
    fetch_loop-whole h client want content same server stored lo call pos serving fuel none content
      tt (unfold written in refl) f

-- So with chunks of one size.
pub fetch-serve_chunk :
    (h : Hash) (client server : Store) (want content : Bytes) (sz fuel : ℕ)
    → 0 < sz
    → h.sum content ≡ want
    → open_hash server want ≡ some content
    → length content < fuel * sz
    → fetch (λ req. some (serve_chunk sz server req)) h client want fuel
      ≡ (save h client content, fetched)
fetch-serve_chunk h client server want content sz fuel pos same stored f =
    fetch-IsServing h client server want content sz fuel (λ req. some (serve_chunk sz server req))
      pos same stored (λ start. (sz, omega arith, refl)) f
