-- ===== src/Cba/Fetch/Integrity.antt =====
-- Whatever the server answers, a store holds only files named by their own sums, and a fetch that
-- succeeds has stored the file that was asked for.
use termite.Base.{
  refl, is_empty, ℕ, zero, suc, ◌≡◌, inl, inr, Bytes, Bool, true, false, Option, none, some,
  bytes_eq, bytes_iff, arith, if◌then◌else◌, lookup, lookup-insert, lookup-insert_self,
  Option-cases, length, ◌≢◌, [], ◌∷◌,
}
use termite.Cba.HashPath.{hash_path}
use termite.Cba.HashPath.Laws.{IsBytes, hash_path-injective, hash_path-some, hash_path-nil}
use termite.Cba.Fetch.{
  has_hash, Hash, Store, Request, Response, Outcome, fetched, open_hash, save, finish, abandon,
  written, compare_sum, failed, absent, fetch_loop, fetch,
}

module _ (h : Hash) where
  -- Each file stands at the path of the sum of its content.
  abbrev pub IsAddressed : Store → Type 0
  IsAddressed st = (p c : Bytes) → lookup p st.files ≡ some c → hash_path st.dir (h.sum c) ≡ some p

  pub save-IsAddressed : (st : Store) (c : Bytes) → IsAddressed st → IsAddressed (save h st c)
  unfolding save
  save-IsAddressed st c a = elim (Option-cases (hash_path st.dir (h.sum c))) [
    | inl e ↦ rw (e, save) a
    | inr (q, e) ↦
        rw (e, save) (λ p d f. ground (arith, lookup-insert p q c st.files, bytes_iff p q, a p d))
  ]

  abandon-IsAddressed :
      (st : Store) (out : Option Bytes) (o : Outcome)
      → IsAddressed st
      → IsAddressed (abandon h st out o).0
  unfolding abandon
  abandon-IsAddressed st none o a = a
  abandon-IsAddressed st (some part) o a = save-IsAddressed st part a

  -- What was saved can be opened by its sum.
  pub open_hash-save : (st : Store) (c : Bytes) → open_hash (save h st c) (h.sum c) ≡ some c
  unfolding save open_hash
  open_hash-save st c =
      let (p, e) = hash_path-some st.dir (h.sum c) (h.sum_pos c) in
      ground (arith, e, lookup-insert_self p c st.files)

  module _ (want : Bytes) where
    -- A result whose store is addressed, and which reports success only with the file in place.
    abbrev IsSound : Store × Outcome → Type 0
    IsSound r =
        IsAddressed r.0
        × (r.1 ≡ fetched → (c : Bytes) × (h.sum c ≡ want) × (open_hash r.0 want ≡ some c))

    IsSound-if :
        (t : Bool) (x y : Store × Outcome) → IsSound x → IsSound y → IsSound (if t then x else y)
    IsSound-if true x y sx sy = sx
    IsSound-if false x y sx sy = sy

    compare_sum-IsSound :
        (st : Store) (c : Bytes)
        → IsAddressed st
        → open_hash st (h.sum c) ≡ some c
        → IsSound (compare_sum h st want c)
    unfolding compare_sum
    compare_sum-IsSound st c a o = (
      a,
      λ e. (c, ground (arith, bytes_iff want (h.sum c)), ground (arith, bytes_iff want (h.sum c))),
    )

    finish-IsSound :
        (st : Store) (out : Option Bytes) (c : Bytes)
        → IsAddressed st
        → IsSound (finish h st want out c)
    unfolding finish
    finish-IsSound st none c a =
        compare_sum-IsSound _ c (save-IsAddressed st c a) (open_hash-save st c)
    finish-IsSound st (some []) c a =
        compare_sum-IsSound _ [] (save-IsAddressed _ [] (save-IsAddressed st c a))
          (open_hash-save _ [])
    finish-IsSound st (some (b ∷ part)) c a =
        compare_sum-IsSound _ _ (save-IsAddressed st _ a) (open_hash-save st _)

    abandon-IsSound :
        (st : Store) (out : Option Bytes) (o : Outcome)
        → o ≢ fetched
        → IsAddressed st
        → IsSound (abandon h st out o)
    unfolding abandon
    abandon-IsSound st none o n a = (a, λ e. absurd (n e))
    abandon-IsSound st (some part) o n a = (save-IsAddressed st part a, λ e. absurd (n e))

    module _ (call : Request → Option Response) (st : Store) (a : IsAddressed st) where
      fetch_loop-IsSound :
          (fuel : ℕ) (out : Option Bytes) → IsSound (fetch_loop call h st want fuel out)
      unfolding fetch_loop
      fetch_loop-IsSound zero out = (a, λ e. cc)
      fetch_loop-IsSound (suc fuel) out =
          elim (Option-cases (call (record { hash = want; start = length (written out) }))) [
            | inl e ↦ rw (e, fetch_loop) (abandon-IsSound st out failed (λ x. cc) a)
            | inr (rep, e) ↦
                rw (e, fetch_loop)
                  (IsSound-if rep.have _ _
                    (IsSound-if rep.last _ _ (finish-IsSound st out _ a)
                      (fetch_loop-IsSound fuel _))
                    (abandon-IsSound st out absent (λ x. cc) a))
          ]

-- Whatever a server answers, and however long it goes on, a store in which each file stands at the
-- path of its sum stays so.
pub fetch-IsAddressed :
    (h : Hash) (call : Request → Option Response) (st : Store) (want : Bytes) (fuel : ℕ)
    → IsAddressed h st
    → IsAddressed h (fetch call h st want fuel).0
unfolding fetch
fetch-IsAddressed h call st want fuel a = (fetch_loop-IsSound h want call st a fuel none).0

-- Whatever a server answers, if a fetch reports success, into a store in which each file stands at
-- the path of its sum, then a file with the wanted sum is in the store under that hash.
pub fetch-open_hash :
    (h : Hash) (call : Request → Option Response) (st : Store) (want : Bytes) (fuel : ℕ)
    → IsAddressed h st
    → (fetch call h st want fuel).1 ≡ fetched
    → (c : Bytes) × (h.sum c ≡ want) × (open_hash (fetch call h st want fuel).0 want ≡ some c)
unfolding fetch
fetch-open_hash h call st want fuel a = (fetch_loop-IsSound h want call st a fuel none).1

-- In an addressed store a hash opens only a file of that sum.
pub open_hash-sum :
    (h : Hash) (st : Store) (want c : Bytes)
    → IsAddressed h st
    → IsBytes want
    → open_hash st want ≡ some c
    → h.sum c ≡ want
unfolding open_hash
open_hash-sum h st want c a b o = elim (Option-cases (hash_path st.dir want)) [
  | inl e ↦ absurd (ground arith)
  | inr (p, e) ↦
      hash_path-injective st.dir (h.sum c) want p (h.sum-IsBytes c) b (a p c (ground arith)) e
]

-- The store has nothing under the empty hash.
pub has_hash-empty : (st : Store) (h : Bytes) → has_hash st h ≡ true → is_empty h ≡ false
unfolding has_hash open_hash is_empty
has_hash-empty st [] e = absurd (ground (arith, e, hash_path-nil st.dir))
has_hash-empty st (b ∷ h) e = refl
