-- ===== src/Cba/Splice.antt =====
-- cba/spliceserver.go: a server that reads each file once, in order, and keeps the reading between two chunks
-- under the hash and the offset of the next one. The channel of a reading is the content and how far it is;
-- pipes are left out. A number stands for a call; each of its parts holds the mutex, and other calls run
-- between them. The store is as it is.
pub mod Same
pub mod Whole
mod Tests
use termite.Base.{
  ℕ, ◌+◌, ◌≡◌, ◌↔◌, Bytes, Bool, true, false, ◌&&◌, List, [], ◌∷◌, Option, none, some,
  if◌then◌else◌, ltb, length, ◌==◌, Eq, nat_eq, nat_iff, bytes_eq, bytes_iff, Dict, lookup, insert,
  take, drop, arith,
}
use termite.Cba.Fetch.{Store, Request, Response, open_hash, missing, serve_chunk}

-- `serverKey`
abbrev pub ServerKey : Type 0
ServerKey = Bytes × ℕ

abbrev pub key_beq : ServerKey → ServerKey → Bool
key_beq (h, off) (k, at) = h == k && off == at

pub key_iff : (a b : ServerKey) → (key_beq a b ≡ true) ↔ (a ≡ b)
key_iff (h, off) (k, at) = ground (arith, bytes_iff h k, nat_iff off at)

instance abbrev pub key_eq : Eq ServerKey
key_eq = record { beq = key_beq; beq_iff = key_iff }

-- A channel that `fill` sends to, for a file that is open: what is in the file, and `off`.
pub record Sequence : Type 0 where
  pub content : Bytes
  pub off : ℕ

pub record ServeSplice : Type 0 where
  pub chunk : Bytes
  pub size : ℕ
  pub last : Bool

pub data Call : Type 0 where
  idle : Call
  -- the sequence is not looked for yet
  prepared : Request → Call
  -- the sequence was removed from the table
  holds : Request → Sequence → Call
  answered : Request → Response → Call

pub record SpliceServer : Type 0 where
  pub store : Store
  pub pending : Dict ServerKey (List Sequence)
  pub calls : ℕ → Call

pub set_call : ℕ → Call → SpliceServer → SpliceServer
set_call i a s = record s { calls = λ j. if j == i then a else s.calls j }

-- `s.pending[k]`; the one that was appended last stands first.
pub sequences : ServerKey → SpliceServer → List Sequence
sequences k s = elim (lookup k s.pending) [ none ↦ [] | some l ↦ l ]

pub insert_sequence : Bytes → ℕ → Sequence → SpliceServer → SpliceServer
insert_sequence h off q s = record s {
  pending = insert (h, off) (q ∷ sequences (h, off) s) s.pending;
}

-- `remove`, and the store's own answer where there is no sequence; `sz` is its size of chunks.
pub remove_sequence : ℕ → ℕ → Request → SpliceServer → SpliceServer
remove_sequence sz i req s = elim (sequences (req.hash, req.start) s) [
  | [] ↦ set_call i (answered req (serve_chunk sz s.store req)) s
  | q ∷ rest ↦
      set_call i (holds req q) (record s { pending = insert (req.hash, req.start) rest s.pending })
]

-- `prepareServe`, which `serveChunk` calls for the start of a file
pub prepare_serve : ℕ → Request → SpliceServer → SpliceServer
prepare_serve i req s =
    if req.start == 0
    then elim (open_hash s.store req.hash) [
      | none ↦ set_call i (answered req missing) s
      | some c ↦
          set_call i (prepared req) (insert_sequence req.hash 0 (record { content = c; off = 0 }) s)
    ]
    else set_call i (prepared req) s

-- What `fill` sends next, in blocks of `n` bytes.
pub block : ℕ → Sequence → ServeSplice
block n q =
    let chunk = take n (drop q.off q.content) in
    record { chunk = chunk; size = length chunk; last = ltb (length chunk) n }

pub response : ServeSplice → Response
response d = record { size = d.size; have = true; last = d.last; chunk = d.chunk }

-- The rest of `serveChunk`; `ok` is whether the pipe can be read.
pub end_chunk : ℕ → ℕ → ℕ → Request → Sequence → Bool → SpliceServer → SpliceServer
end_chunk sz n i req q ok s =
    let d = block n q in
    let s' = set_call i (answered req (if ok then response d else serve_chunk sz s.store req)) s in
    if d.last
    then s'
    else insert_sequence req.hash (req.start + d.size) (record q { off = q.off + d.size }) s'

-- `Close`: the sequences that no call holds are read to their ends and thrown away.
pub close : SpliceServer → SpliceServer
close s = record s { pending = [] }

module _ (sz n : ℕ) where
  pub data Step (s : SpliceServer) : SpliceServer → Type 0 where
    begins : (i : ℕ) (req : Request) → s.calls i ≡ idle → Step s (prepare_serve i req s)
    takes : (i : ℕ) (req : Request) → s.calls i ≡ prepared req → Step s (remove_sequence sz i req s)
    ends :
        (i : ℕ) (req : Request) (q : Sequence) (ok : Bool)
        → s.calls i ≡ holds req q
        → Step s (end_chunk sz n i req q ok s)
    returns :
        (i : ℕ) (req : Request) (rep : Response)
        → s.calls i ≡ answered req rep
        → Step s (set_call i idle s)
    closes : Step s (close s)

  pub data Reach (s : SpliceServer) : SpliceServer → Type 0 where
    here : Reach s s
    next : {t u : SpliceServer} → Reach s t → Step t u → Reach s u

-- `newSpliceServer`
pub new_splice_server : Store → SpliceServer
new_splice_server st = record { store = st; pending = []; calls = λ i. idle }
