-- ===== src/Cba/Splice/Same.antt =====
-- The splicing server answers what the store would, whatever calls are under way.
use termite.Base.{
  ℕ, ◌+◌, ◌≡◌, ◌⊎◌, inl, inr, refl, sym, ap, ◌∙◌, subst, Bytes, Bool, true, false, List, [], ◌∷◌,
  some, if◌then◌else◌, ◌==◌, nat_eq, bytes_eq, lookup, insert, lookup-insert, All, arith,
  Bool-cases, Option-cases,
}
use termite.Cba.Fetch.{Store, Request, Response, open_hash, missing, read_at, serve_chunk}
use termite.Cba.Fetch.Kept.{serve_chunk-none, serve_chunk-some}
use termite.Cba.Splice.{
  ServerKey, key_beq, key_iff, key_eq, Sequence, Call, idle, prepared, holds, answered,
  SpliceServer, set_call, sequences, insert_sequence, remove_sequence, prepare_serve, block,
  response, end_chunk, close, Step, begins, takes, ends, returns, closes, Reach, here, next,
  new_splice_server,
}

module _ (sz n : ℕ) (st : Store) where
  -- A sequence that was made for the file under the hash, and has come to the offset.
  abbrev pub IsReading : ServerKey → Sequence → Type 0
  IsReading k q = (open_hash st k.0 ≡ some q.content) × (q.off ≡ k.1)

  -- What the store itself answers, in chunks of either size.
  abbrev pub IsServed : Request → Response → Type 0
  IsServed req rep = (rep ≡ serve_chunk sz st req) ⊎ (rep ≡ serve_chunk n st req)

  abbrev pub IsAllowed : Call → Type 0
  IsAllowed idle = Unit
  IsAllowed (prepared req) = Unit
  IsAllowed (holds req q) = IsReading (req.hash, req.start) q
  IsAllowed (answered req rep) = IsServed req rep

  pub record IsSame (s : SpliceServer) : Type 0 where
    pub store : s.store ≡ st
    pub reading : (k : ServerKey) → All (IsReading k) (sequences k s)
    pub allowed : (i : ℕ) → IsAllowed (s.calls i)

  sequences-insert :
      (k j : ServerKey) (l : List Sequence) (s : SpliceServer)
      → sequences k (record s { pending = insert j l s.pending })
        ≡ (if key_beq k j then l else sequences k s)
  unfolding sequences
  sequences-insert k j l s = ground (arith, lookup-insert k j l s.pending)

  set_call-IsSame :
      (i : ℕ) (a : Call) (s : SpliceServer) → IsSame s → IsAllowed a → IsSame (set_call i a s)
  unfolding set_call sequences
  set_call-IsSame i a s o h = record {
    store = o.store;
    reading = o.reading;
    allowed = λ j. elim (Bool-cases (j == i)) [ inl e ↦ rw e h | inr e ↦ rw e (o.allowed j) ];
  }

  -- Other sequences under one key.
  replaced-IsSame :
      (k : ServerKey) (l : List Sequence) (s : SpliceServer)
      → IsSame s
      → All (IsReading k) l
      → IsSame (record s { pending = insert k l s.pending })
  replaced-IsSame k l s o h = record {
    store = o.store;
    reading = λ j. elim (Bool-cases (key_beq j k)) [
      | inl e ↦
          rw (sequences-insert j k l s, e)
            (subst (λ q. All (IsReading q) l) (sym ((key_iff j k).0 e)) h)
      | inr e ↦ rw (sequences-insert j k l s, e) (o.reading j)
    ];
    allowed = o.allowed;
  }

  insert_sequence-IsSame :
      (h : Bytes) (off : ℕ) (q : Sequence) (s : SpliceServer)
      → IsSame s
      → IsReading (h, off) q
      → IsSame (insert_sequence h off q s)
  unfolding insert_sequence
  insert_sequence-IsSame h off q s o r =
      replaced-IsSame (h, off) (q ∷ sequences (h, off) s) s o (r, o.reading (h, off))

  remove_sequence-IsSame :
      (i : ℕ) (req : Request) (s : SpliceServer) → IsSame s → IsSame (remove_sequence sz i req s)
  unfolding remove_sequence
  remove_sequence-IsSame i req s o =
      split (sequences (req.hash, req.start) s) (o.reading (req.hash, req.start))
    where
      split :
          (l : List Sequence)
          → All (IsReading (req.hash, req.start)) l
          → IsSame (elim l [
            | [] ↦ set_call i (answered req (serve_chunk sz s.store req)) s
            | q ∷ rest ↦
                set_call i
                  (holds req q)
                  (record s { pending = insert (req.hash, req.start) rest s.pending })
          ])
      split [] h =
          set_call-IsSame i (answered req (serve_chunk sz s.store req)) s o
            (inl (ap (λ t. serve_chunk sz t req) o.store))
      split (q ∷ rest) (r, h) =
          set_call-IsSame i (holds req q) _ (replaced-IsSame (req.hash, req.start) rest s o h) r

  prepare_serve-IsSame :
      (i : ℕ) (req : Request) (s : SpliceServer) → IsSame s → IsSame (prepare_serve i req s)
  unfolding prepare_serve
  prepare_serve-IsSame i req s o = elim (Bool-cases (req.start == 0)) [
    | inr e ↦ rw e (set_call-IsSame i (prepared req) s o tt)
    | inl e ↦ elim (Option-cases (open_hash s.store req.hash)) [
      | inl gone ↦
          rw (e, gone, prepare_serve)
            (set_call-IsSame i (answered req missing) s o (
              inl (
                sym (
                  serve_chunk-none sz st req
                    (ap (λ t. open_hash t req.hash) (sym o.store) ∙ gone)))))
      | inr (c, there) ↦
          rw (e, there, prepare_serve)
            (set_call-IsSame i (prepared req) _
              (insert_sequence-IsSame req.hash 0 (record { content = c; off = 0 }) s o
                (ap (λ t. open_hash t req.hash) (sym o.store) ∙ there, refl))
              tt)
    ]
  ]

  close-IsSame : (s : SpliceServer) → IsSame s → IsSame (close s)
  unfolding close sequences lookup
  close-IsSame s o = record { store = o.store; reading = λ k. tt; allowed = o.allowed }

  block-served :
      (req : Request) (q : Sequence)
      → IsReading (req.hash, req.start) q
      → response (block n q) ≡ serve_chunk n st req
  unfolding response block read_at
  block-served req q (there, at) =
      ap (read_at n q.content) at ∙ sym (serve_chunk-some n st req q.content there)

  IsSame-if : (b : Bool) (s t : SpliceServer) → IsSame s → IsSame t → IsSame (if b then s else t)
  IsSame-if true s t o p = o
  IsSame-if false s t o p = p

  end_chunk-IsSame :
      (i : ℕ) (req : Request) (q : Sequence) (ok : Bool) (s : SpliceServer)
      → IsSame s
      → s.calls i ≡ holds req q
      → IsSame (end_chunk sz n i req q ok s)
  unfolding end_chunk
  end_chunk-IsSame i req q ok s o e =
      let r : IsReading (req.hash, req.start) q = subst IsAllowed e (o.allowed i) in
      let d = block n q in
      let rep = if ok then response d else serve_chunk sz s.store req in
      let served : IsServed req rep = elim (Bool-cases ok) [
        | inl t ↦ rw t (inr (block-served req q r))
        | inr f ↦ rw f (inl (ap (λ t. serve_chunk sz t req) o.store))
      ] in
      let s' = set_call-IsSame i (answered req rep) s o served in
      IsSame-if d.last _ _ s' (
        insert_sequence-IsSame req.hash (req.start + d.size) _ _ s' (r.0, ap (λ a. a + d.size) r.1))

  Step-IsSame : {s t : SpliceServer} → Step sz n s t → IsSame s → IsSame t
  Step-IsSame {s} (begins i req e) o = prepare_serve-IsSame i req s o
  Step-IsSame {s} (takes i req e) o = remove_sequence-IsSame i req s o
  Step-IsSame {s} (ends i req q ok e) o = end_chunk-IsSame i req q ok s o e
  Step-IsSame {s} (returns i req rep e) o = set_call-IsSame i idle s o tt
  Step-IsSame {s} closes o = close-IsSame s o

-- The splicing server refines the plain one: over a store that stays as it is, whatever the calls under way
-- do, in any order, whenever it is closed, and whether or not its pipes can be read, each call is answered
-- as `ServeChunk` of the store answers it, in chunks of the store's size or of that of a pipe; and each
-- reading that it keeps is of the file that stands under its hash and has come to its offset.
pub Reach-IsSame :
    (sz n : ℕ) (st : Store) {s : SpliceServer}
    → Reach sz n (new_splice_server st) s
    → IsSame sz n st s
unfolding new_splice_server sequences lookup
Reach-IsSame sz n st here = record { store = refl; reading = λ k. tt; allowed = λ i. tt }
Reach-IsSame sz n st (next r t) = Step-IsSame sz n st t (Reach-IsSame sz n st r)
