-- ===== src/Master/Fetching/Prepared.antt =====
-- Once the files are fetched, the master has the content of each: preparing them does not panic.
use termite.Base.{
  ℕ, ◌≡◌, inl, inr, refl, sym, ap, ◌∙◌, subst, Bytes, true, ◌||◌, List, [], ◌∷◌, Option, some,
  is_empty, All, arith, Bool-cases,
}
use termite.Attr.FileAttr.{FileAttr}
use termite.Cba.Fetch.{
  Hash, Store, Request, Response, Outcome, failed, absent, corrupt, fetched, running, has_hash,
  fetch,
}
use termite.Cba.Fetch.Integrity.{IsAddressed, fetch-IsAddressed, fetch-open_hash}
use termite.Cba.Fetch.Kept.{fetch-has_hash, open_hash-has_hash}
use termite.Master.Replay.{Prepared, prepare}
use termite.Master.Replay.Stores.{IsThere, prepare-some}
use termite.Master.Fetching.{
  Fetching, complete, stopped, died, unfinished, fetching, go_on, fetch_files,
}

module _ (h : Hash) (call : Request → Option Response) (rounds : ℕ) where
  fetching-complete : (o : Outcome) → fetching o ≡ complete → o ≡ fetched
  unfolding fetching
  fetching-complete failed e = ground (arith, e)
  fetching-complete absent e = ground (arith, e)
  fetching-complete corrupt e = ground (arith, e)
  fetching-complete fetched e = refl
  fetching-complete running e = ground (arith, e)

  go_on-kept :
      (x : Fetching) (st : Store) (k : Bytes) (later : Store × Fetching)
      → has_hash st k ≡ true
      → has_hash later.0 k ≡ true
      → has_hash (go_on x st later).0 k ≡ true
  unfolding go_on
  go_on-kept complete st k later f g = g
  go_on-kept stopped st k later f g = f
  go_on-kept died st k later f g = f
  go_on-kept unfinished st k later f g = f

  go_on-complete :
      (x : Fetching) (st : Store) (later : Store × Fetching)
      → (go_on x st later).1 ≡ complete
      → (x ≡ complete) × (later.1 ≡ complete) × (go_on x st later ≡ later)
  unfolding go_on
  go_on-complete complete st later e = (refl, e, refl)
  go_on-complete stopped st later e = absurd (ground (arith, e))
  go_on-complete died st later e = absurd (ground (arith, e))
  go_on-complete unfinished st later e = absurd (ground (arith, e))

  fetch_files-kept :
      (files : List FileAttr) (st : Store) (k : Bytes)
      → has_hash st k ≡ true
      → has_hash (fetch_files h call rounds files st).0 k ≡ true
  unfolding fetch_files
  fetch_files-kept [] st k f = f
  fetch_files-kept (info ∷ files) st k f =
      elim (Bool-cases (is_empty info.hash || has_hash st info.hash)) [
        | inl c ↦ rw c (fetch_files-kept files st k f)
        | inr c ↦
            let st' = (fetch call h st info.hash rounds).0 in
            let f' = fetch-has_hash h call st info.hash rounds k f in
            rw c (
              go_on-kept (fetching (fetch call h st info.hash rounds).1) st' k
                (fetch_files h call rounds files st') f' (fetch_files-kept files st' k f'))
      ]

  fetch_files-IsThere :
      (files : List FileAttr) (st : Store)
      → IsAddressed h st
      → (fetch_files h call rounds files st).1 ≡ complete
      → All (IsThere (fetch_files h call rounds files st).0) files
  unfolding fetch_files
  fetch_files-IsThere [] st a e = tt
  fetch_files-IsThere (info ∷ files) st a e =
      elim (Bool-cases (is_empty info.hash || has_hash st info.hash)) [
        | inl c ↦
            let same : fetch_files h call rounds (info ∷ files) st
                ≡ fetch_files h call rounds files st =
              rw (c, fetch_files) refl in
            subst (λ r. All (IsThere r.0) (info ∷ files)) (sym same)
              (
                λ z. fetch_files-kept files st info.hash (ground (arith, c, z)),
                fetch_files-IsThere files st a (sym (ap (λ r. r.1) same) ∙ e),
              )
        | inr c ↦
            let got : Store × Outcome = fetch call h st info.hash rounds in
            let later : Store × Fetching = fetch_files h call rounds files got.0 in
            let step : fetch_files h call rounds (info ∷ files) st
                ≡ go_on (fetching got.1) got.0 later =
              rw (c, fetch_files) refl in
            let (o, l, same) =
              go_on-complete (fetching got.1) got.0 later (sym (ap (λ r. r.1) step) ∙ e) in
            let (x, _, there) =
              fetch-open_hash h call st info.hash rounds a (fetching-complete got.1 o) in
            subst (λ r. All (IsThere r.0) (info ∷ files)) (sym (step ∙ same))
              (
                λ z.
                    fetch_files-kept files got.0 info.hash
                      (open_hash-has_hash got.0 info.hash x there),
                fetch_files-IsThere files got.0 (fetch-IsAddressed h call st info.hash rounds a) l,
              )
      ]

-- Whatever the worker's content server answers, if all fetches succeed, into a store in which each file
-- stands at the path of its sum, then `replay` finds in the store the content of every file that it copies: it
-- does not panic for a missing cache path.
pub fetch_files-prepare :
    (h : Hash) (call : Request → Option Response) (rounds : ℕ) (get : Bytes → FileAttr)
    (files : List FileAttr) (st : Store) (s : Prepared)
    → IsAddressed h st
    → (fetch_files h call rounds files st).1 ≡ complete
    → (t : Prepared) × (prepare get (fetch_files h call rounds files st).0 files s ≡ some t)
fetch_files-prepare h call rounds get files st s a e =
    prepare-some get (fetch_files h call rounds files st).0 files s
      (fetch_files-IsThere h call rounds files st a e)
