-- ===== src/Cba/Fetch.antt =====
-- The transfer of a file between two content stores: cba/client.go (`fetch`), cba/net.go
-- (`ServeChunk`), cba/store.go (`Has`, `Save`) and cba/hashwriter.go. The hash function is a
-- parameter; a store is the files of its directory.
pub mod Integrity
pub mod Transfer
pub mod Kept
mod Tests
use termite.Base.{
  ℕ, zero, suc, ◌+◌, ◌≡◌, ◌≤◌, Bytes, Bool, true, false, ◌&&◌, List, [], ◌∷◌, ◌++◌, Option, none,
  some, ltb, length, take, drop, ◌==◌, nat_eq, bytes_eq, if◌then◌else◌, Dict, lookup, insert,
}
use termite.Cba.HashPath.{hash_path}
use termite.Cba.HashPath.Laws.{IsBytes}

-- What the code relies on of a `crypto.Hash`: a sum is made of bytes, one at least.
pub record Hash : Type 0 where
  pub sum : Bytes → Bytes
  pub sum-IsBytes : (c : Bytes) → IsBytes (sum c)
  pub sum_pos : (c : Bytes) → 1 ≤ length (sum c)

pub record Store : Type 0 where
  pub dir : Bytes
  pub files : Dict Bytes Bytes

-- The file that `os.Open(st.Path(hash))` finds.
unfoldable pub open_hash : Store → Bytes → Option Bytes
open_hash st hash = elim (hash_path st.dir hash) [ none ↦ none | some p ↦ lookup p st.files ]

-- `Has`
unfoldable pub has_hash : Store → Bytes → Bool
unfolding open_hash
has_hash st hash = elim (open_hash st hash) [ none ↦ false | some c ↦ true ]

-- `Save`, and `Close` of a `HashWriter` that was given this content: the temporary file is renamed
-- to the path of its sum.
pub save : Hash → Store → Bytes → Store
save h st content = elim (hash_path st.dir (h.sum content)) [
  | none ↦ st
  | some p ↦ record st { files = insert p content st.files }
]

pub record Request : Type 0 where
  pub hash : Bytes
  pub start : ℕ

pub record Response : Type 0 where
  pub size : ℕ
  pub have : Bool
  pub last : Bool
  pub chunk : Bytes

pub missing : Response
missing = record { size = 0; have = false; last = false; chunk = [] }

-- `f.ReadAt(rep.Chunk, start)` into a buffer of `sz` bytes, which fails with `io.EOF` if it does
-- not fill it.
unfoldable pub read_at : ℕ → Bytes → ℕ → Response
read_at sz content start =
    let chunk = take sz (drop start content) in
    record { size = length chunk; have = true; last = ltb (length chunk) sz; chunk = chunk }

-- `Store.ServeChunk`; `sz` is `defaultServeSize`.
pub serve_chunk : ℕ → Store → Request → Response
unfolding missing read_at open_hash
serve_chunk sz st req = elim (open_hash st req.hash) [
  | none ↦ missing
  | some content ↦ read_at sz content req.start
]

pub data Outcome : Type 0 where
  -- `(false, err)`, from the call or the server; `(false, nil)`; `log.Fatalf`; `(true, nil)`
  failed absent corrupt fetched : Outcome
  -- the fuel ran out
  running : Outcome

-- The comparison that ends `fetch`: the store, and whether the saved hash is the wanted one.
pub compare_sum : Hash → Store → Bytes → Bytes → Store × Outcome
compare_sum h st want content = (st, if want == h.sum content then fetched else corrupt)

-- The last chunk. If nothing was written so far it is given to `Save`; a writer that was made before
-- is closed in any case, and then its sum counts.
pub finish : Hash → Store → Bytes → Option Bytes → Bytes → Store × Outcome
unfolding save compare_sum
finish h st want none content = compare_sum h (save h st content) want content
finish h st want (some []) content = compare_sum h (save h (save h st content) []) want []
finish h st want (some (b ∷ part)) content =
    compare_sum h (save h st (b ∷ part ++ content)) want (b ∷ part ++ content)

-- The deferred `Close` of a transfer that stops early, if a writer had been made.
pub abandon : Hash → Store → Option Bytes → Outcome → Store × Outcome
unfolding save
abandon h st none o = (st, o)
abandon h st (some partial) o = (save h st partial, o)

pub written : Option Bytes → Bytes
written none = []
written (some partial) = partial

-- The loop of `fetch`. `call` is the remote procedure, `none` an error of it; `output` is what the
-- writer was given so far.
pub fetch_loop :
    (Request → Option Response) → Hash → Store → Bytes → ℕ → Option Bytes → Store × Outcome
unfolding finish abandon written
fetch_loop call h st want zero output = (st, running)
fetch_loop call h st want (suc fuel) output =
    elim (call (record { hash = want; start = length (written output) })) [
      | none ↦ abandon h st output failed
      | some rep ↦
          let content = take rep.size rep.chunk in
          let all = written output ++ content in
          let rest = fetch_loop call h st want fuel (some all) in
          if rep.have
          then (if rep.last then finish h st want output content else rest)
          else abandon h st output absent
    ]

-- `fetch` of a file of at most the given number of bytes; a server that fills no chunk may keep the
-- loop going for ever.
pub fetch : (Request → Option Response) → Hash → Store → Bytes → ℕ → Store × Outcome
unfolding fetch_loop
fetch call h st want fuel = fetch_loop call h st want fuel none
