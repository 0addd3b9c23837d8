-- ===== src/Cba/Splice/Whole.antt =====
-- A client and the splicing server: a fetch whose requests are answered by calls of the server.
use termite.Base.{ℕ, ◌*◌, ◌≡◌, ◌<◌, ◌≤◌, ◌∙◌, ap, subst, inl, inr, Bytes, Option, some, length}
use termite.Cba.Fetch.{Hash, Store, Request, Response, fetched, open_hash, save, fetch}
use termite.Cba.Fetch.Transfer.{IsServing, fetch-IsServing}
use termite.Cba.Splice.{SpliceServer, answered, Reach, new_splice_server}
use termite.Cba.Splice.Same.{IsAllowed, Reach-IsSame}

module _ (sz n : ℕ) (st : Store) (want : Bytes) (call : Request → Option Response) where
  -- Each request for the hash gets what some call of the server is answered, after whatever others.
  abbrev pub IsAnswered : Type 0
  IsAnswered =
      (start : ℕ)
      → (s : SpliceServer) × Reach sz n (new_splice_server st) s
        × (i : ℕ) × (rep : Response) × (s.calls i
            ≡ answered (record { hash = want; start = start }) rep)
        × (call (record { hash = want; start = start }) ≡ some rep)

  IsAnswered-IsServing : (lo : ℕ) → lo ≤ sz → lo ≤ n → IsAnswered → IsServing lo st want call
  IsAnswered-IsServing lo p q answers start =
      let (s, r, i, rep, e, c) = answers start in
      elim (subst (IsAllowed sz n st) e ((Reach-IsSame sz n st r).allowed i)) [
        | inl store ↦ (sz, p, c ∙ ap some store)
        | inr pipe ↦ (n, q, c ∙ ap some pipe)
      ]

-- A client that fetches from a splicing server a file which the server has, under its right hash, each of its
-- requests answered as a call of the server is in some state that the server can come to, ends with that file
-- saved: given a positive number that neither the chunks of the store nor those of a pipe are below, and a
-- round for each full chunk of that size and one more.
pub fetch-IsAnswered :
    (h : Hash) (client st : Store) (want content : Bytes) (sz n lo fuel : ℕ)
    (call : Request → Option Response)
    → 0 < lo
    → lo ≤ sz
    → lo ≤ n
    → h.sum content ≡ want
    → open_hash st want ≡ some content
    → IsAnswered sz n st want call
    → length content < fuel * lo
    → fetch call h client want fuel ≡ (save h client content, fetched)
fetch-IsAnswered h client st want content sz n lo fuel call pos p q same stored answers f =
    fetch-IsServing h client st want content lo fuel call pos same stored
      (IsAnswered-IsServing sz n st want call lo p q answers) f
