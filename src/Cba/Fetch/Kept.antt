-- ===== src/Cba/Fetch/Kept.antt =====
-- A fetch takes nothing out of the store, whatever the server answers.
use termite.Base.{
  ℕ, zero, suc, ◌≡◌, refl, inl, inr, Bytes, Bool, true, false, Option, none, some, if◌then◌else◌,
  bytes_eq, [], ◌∷◌, ◌++◌, has, has-insert, length, arith, Option-cases,
}
use termite.Cba.HashPath.{hash_path}
use termite.Cba.Fetch.{
  Hash, Store, Request, Response, Outcome, open_hash, has_hash, save, compare_sum, finish, abandon,
  written, failed, absent, fetch_loop, fetch, missing, read_at, serve_chunk,
}

-- The second store has every file of the first, in the same directory.
abbrev Keeps : Store → Store → Type 0
Keeps st st' = (st'.dir ≡ st.dir) × ((p : Bytes) → has p st.files ≡ true → has p st'.files ≡ true)

module _ (h : Hash) where
  save-Keeps : (st₀ st : Store) (c : Bytes) → Keeps st₀ st → Keeps st₀ (save h st c)
  unfolding save
  save-Keeps st₀ st c (d, k) = elim (Option-cases (hash_path st.dir (h.sum c))) [
    | inl e ↦ rw (e, save) (d, k)
    | inr (q, e) ↦ rw (e, save) (d, λ p f. ground (arith, k p f, has-insert p q c st.files))
  ]

  -- What the store had, it has after something is saved.
  pub has_hash-save :
      (st : Store) (c k : Bytes) → has_hash st k ≡ true → has_hash (save h st c) k ≡ true
  unfolding has_hash open_hash has
  has_hash-save st c k f =
      let (d, kept) = save-Keeps st st c (refl, λ p f. f) in
      elim (Option-cases (hash_path st.dir k)) [
        | inl e ↦ absurd (ground (arith, e, f))
        | inr (p, e) ↦ ground (arith, e, f, d, kept p)
      ]

  abandon-Keeps : (st : Store) (out : Option Bytes) (o : Outcome) → Keeps st (abandon h st out o).0
  unfolding abandon
  abandon-Keeps st none o = (refl, λ p f. f)
  abandon-Keeps st (some part) o = save-Keeps st st part (refl, λ p f. f)

  finish-Keeps :
      (st : Store) (want : Bytes) (out : Option Bytes) (c : Bytes)
      → Keeps st (finish h st want out c).0
  unfolding finish compare_sum
  finish-Keeps st want none c = save-Keeps st st c (refl, λ p f. f)
  finish-Keeps st want (some []) c =
      save-Keeps st (save h st c) [] (save-Keeps st st c (refl, λ p f. f))
  finish-Keeps st want (some (b ∷ part)) c = save-Keeps st st (b ∷ part ++ c) (refl, λ p f. f)

  Keeps-if :
      (st : Store) (t : Bool) (x y : Store × Outcome)
      → Keeps st x.0
      → Keeps st y.0
      → Keeps st (if t then x else y).0
  Keeps-if st true x y kx ky = kx
  Keeps-if st false x y kx ky = ky

  fetch_loop-Keeps :
      (call : Request → Option Response) (st : Store) (want : Bytes) (fuel : ℕ) (out : Option Bytes)
      → Keeps st (fetch_loop call h st want fuel out).0
  unfolding fetch_loop
  fetch_loop-Keeps call st want zero out = (refl, λ p f. f)
  fetch_loop-Keeps call st want (suc fuel) out =
      elim (Option-cases (call (record { hash = want; start = length (written out) }))) [
        | inl e ↦ rw (e, fetch_loop) (abandon-Keeps st out failed)
        | inr (rep, e) ↦
            rw (e, fetch_loop)
              (Keeps-if st rep.have _ _
                (Keeps-if st rep.last _ _ (finish-Keeps st want out _)
                  (fetch_loop-Keeps call st want fuel _))
                (abandon-Keeps st out absent))
      ]

  -- What the store had, it has after a fetch.
  pub fetch-has_hash :
      (call : Request → Option Response) (st : Store) (want : Bytes) (fuel : ℕ) (k : Bytes)
      → has_hash st k ≡ true
      → has_hash (fetch call h st want fuel).0 k ≡ true
  unfolding fetch has_hash open_hash has
  fetch-has_hash call st want fuel k f =
      let (d, kept) = fetch_loop-Keeps call st want fuel none in
      elim (Option-cases (hash_path st.dir k)) [
        | inl e ↦ absurd (ground (arith, e, f))
        | inr (p, e) ↦ ground (arith, e, f, d, kept p)
      ]

  pub fetch-dir :
      (call : Request → Option Response) (st : Store) (want : Bytes) (fuel : ℕ)
      → (fetch call h st want fuel).0.dir ≡ st.dir
  unfolding fetch
  fetch-dir call st want fuel = (fetch_loop-Keeps call st want fuel none).0

pub open_hash-has_hash : (st : Store) (k c : Bytes) → open_hash st k ≡ some c → has_hash st k ≡ true
unfolding has_hash
open_hash-has_hash st k c e = rw (e, has_hash) refl

pub has_hash-open_hash :
    (st : Store) (k : Bytes) → has_hash st k ≡ true → (c : Bytes) × (open_hash st k ≡ some c)
unfolding has_hash
has_hash-open_hash st k f = elim (Option-cases (open_hash st k)) [
  | inl e ↦ absurd (ground (arith, e, f))
  | inr (c, e) ↦ (c, e)
]

pub serve_chunk-none :
    (sz : ℕ) (st : Store) (req : Request)
    → open_hash st req.hash ≡ none
    → serve_chunk sz st req ≡ missing
unfolding serve_chunk
serve_chunk-none sz st req e = ground (arith, e)

pub serve_chunk-some :
    (sz : ℕ) (st : Store) (req : Request) (c : Bytes)
    → open_hash st req.hash ≡ some c
    → serve_chunk sz st req ≡ read_at sz c req.start
unfolding serve_chunk
serve_chunk-some sz st req c e = ground (arith, e)
