-- ===== src/Master/Replay/Rounds.antt =====
-- What one round of `replay` does to the counts of temporary files and of deletions.
use termite.Base.{
  ℕ, suc, ◌+◌, ◌-◌, ◌≤◌, ◌≡◌, ◌⊎◌, inl, inr, subst, Bytes, true, List, [], ◌∷◌, none, some,
  if◌then◌else◌, ◌==◌, bytes_eq, bytes_iff, Dict, lookup, insert, lookup-insert, is_empty, length,
  arith, Bool-cases, Option-cases,
}
use termite.Attr.FileAttr.{FileAttr, deletion}
use termite.Cba.Fetch.{Store, open_hash}
use termite.Master.Disk.{Node, file}
use termite.Master.Replay.{
  Prepared, files_of, count_of, hash_of, is_kept, note_deletion, add_file, copy_contents,
  prepare_one, prepare, Replaying,
}

pub files_of-insert :
    (h k : Bytes) (l : List Node) (m : Dict Bytes (List Node))
    → files_of h (insert k l m) ≡ (if h == k then l else files_of h m)
unfolding files_of
files_of-insert h k l m = ground (arith, lookup-insert h k l m)

count_of-insert :
    (h k : Bytes) (n : ℕ) (m : Dict Bytes ℕ)
    → count_of h (insert k n m) ≡ (if h == k then n else count_of h m)
unfolding count_of
count_of-insert h k n m = ground (arith, lookup-insert h k n m)

-- How many temporary files there are for a hash.
abbrev pub supply : Bytes → Dict Bytes (List Node) → ℕ
supply h m = length (files_of h m)

pub supply-add_file :
    (h k : Bytes) (n : Node) (m : Dict Bytes (List Node))
    → supply h (add_file k n m) ≡ (if h == k then suc (supply h m) else supply h m)
unfolding add_file
supply-add_file h k n m = ground (arith, files_of-insert h k (n ∷ files_of k m) m, bytes_iff h k)

module _ (get : Bytes → FileAttr) (st : Store) where
  -- The deletions that were noted are those of files that have a hash.
  abbrev pub Noted : Prepared → Bytes → Type 0
  Noted s p =
      (lookup p s.del_file_hashes ≡ none)
      ⊎ ((lookup p s.del_file_hashes ≡ some (get p).hash) × (is_kept (get p) ≡ true))

  -- What one round of `replay` does to the counts.
  pub record Round (info : FileAttr) (s s' : Prepared) : Type 0 where
    pub grows : (h : Bytes) → supply h s.new_files ≤ supply h s'.new_files
    pub balance :
        (h : Bytes)
        → supply h s'.new_files
            + count_of h s.have_hashes
            + (if deletion info
                then (if is_kept (get info.path)
                    then (if h == (get info.path).hash then 1 else 0)
                    else 0)
                else 0)
          ≡ supply h s.new_files
            + count_of h s'.have_hashes
            + (if deletion info
                then 0
                else if is_empty info.hash
                then 0
                else if h == info.hash
                then 1
                else 0)
    pub noted : (p : Bytes) → Noted s p → Noted s' p
    pub kept :
        (p : Bytes)
        → lookup p s.del_file_hashes ≡ some (get p).hash
        → lookup p s'.del_file_hashes ≡ some (get p).hash
    pub notes :
        deletion info ≡ true
        → is_kept (get info.path) ≡ true
        → lookup info.path s'.del_file_hashes ≡ some (get info.path).hash

  note_deletion-Round :
      (info : FileAttr) (s : Prepared)
      → deletion info ≡ true
      → Round info s (note_deletion info.path (get info.path) s)
  unfolding note_deletion
  note_deletion-Round info s e = record {
    grows = λ h. ground arith;
    balance = λ h. ground (
      arith,
      bytes_iff h (get info.path).hash,
      count_of-insert h (get info.path).hash (suc (count_of (get info.path).hash s.have_hashes))
          s.have_hashes,
    );
    noted = λ p n. ground (
      arith,
      bytes_iff p info.path,
      lookup-insert p info.path (get info.path).hash s.del_file_hashes,
    );
    kept = λ p n. ground (
      arith,
      bytes_iff p info.path,
      lookup-insert p info.path (get info.path).hash s.del_file_hashes,
    );
    notes = λ d k. ground (
      arith,
      bytes_iff info.path info.path,
      lookup-insert info.path info.path (get info.path).hash s.del_file_hashes,
    );
  }

  copy_contents-supply :
      (h k : Bytes) (s s' : Prepared)
      → copy_contents st k s ≡ some s'
      → (supply h s'.new_files
          ≡ (if h == k then suc (supply h s.new_files) else supply h s.new_files))
        × (s'.have_hashes ≡ s.have_hashes)
        × (s'.del_file_hashes ≡ s.del_file_hashes)
  unfolding copy_contents
  copy_contents-supply h k s s' e = elim (Option-cases (open_hash st k)) [
    | inl n ↦ absurd (ground arith)
    | inr (c, n) ↦ ground (arith, supply-add_file h k (file c) s.new_files)
  ]

  pub prepare_one-Round :
      (info : FileAttr) (s s' : Prepared) → prepare_one get st info s ≡ some s' → Round info s s'
  unfolding prepare_one
  prepare_one-Round info s s' e = elim (Bool-cases (deletion info)) [
    | inl d ↦
        let same : note_deletion info.path (get info.path) s ≡ s' = ground arith in
        subst (Round info s) same (note_deletion-Round info s d)
    | inr d ↦ record {
      grows = λ h. ground (arith, copy_contents-supply h info.hash s s');
      balance = λ h. ground (
        arith,
        copy_contents-supply h info.hash s s',
        bytes_iff h info.hash,
        count_of-insert h info.hash (count_of info.hash s.have_hashes - 1) s.have_hashes,
      );
      noted = λ p n. ground (arith, copy_contents-supply p info.hash s s');
      kept = λ p n. ground (arith, copy_contents-supply p info.hash s s');
      notes = λ q. cc;
    }
  ]

  -- What the whole loop does.
  pub record Rounds (s t : Prepared) : Type 0 where
    pub grows : (h : Bytes) → supply h s.new_files ≤ supply h t.new_files
    pub noted : (p : Bytes) → Noted s p → Noted t p
    pub kept :
        (p : Bytes)
        → lookup p s.del_file_hashes ≡ some (get p).hash
        → lookup p t.del_file_hashes ≡ some (get p).hash

  pub prepare-split :
      (info : FileAttr) (files : List FileAttr) (s t : Prepared)
      → prepare get st (info ∷ files) s ≡ some t
      → (s' : Prepared) × (prepare_one get st info s ≡ some s') × (prepare get st files s' ≡ some t)
  unfolding prepare
  prepare-split info files s t e = elim (Option-cases (prepare_one get st info s)) [
    | inl n ↦ absurd (ground arith)
    | inr (s', n) ↦ (s', n, ground arith)
  ]

  pub prepare-Rounds :
      (files : List FileAttr) (s t : Prepared) → prepare get st files s ≡ some t → Rounds s t
  prepare-Rounds [] s t e =
      let same : s ≡ t = unfold prepare in (let f : some s ≡ some t = e in cc) in
      subst (Rounds s) same (record { grows = λ h. omega arith; noted = λ p n. n; kept = λ p n. n })
  prepare-Rounds (info ∷ files) s t e =
      let (s', one, rest) = prepare-split info files s t e in
      let r = prepare_one-Round info s s' one in
      let rs = prepare-Rounds files s' t rest in
      record {
        grows = λ h. omega (arith, r.grows h, rs.grows h);
        noted = λ p n. rs.noted p (r.noted p n);
        kept = λ p n. rs.kept p (r.kept p n);
      }

  -- Between the two loops: what the second still has, against what the first still makes.
  abbrev pub Balanced : Prepared → Prepared → Replaying → Type 0
  Balanced s t r =
      (h : Bytes)
      → supply h r.new_files + supply h s.new_files
        ≡ count_of h s.have_hashes + supply h t.new_files

  pub hash_of-Noted :
      (t : Prepared) (p : Bytes)
      → Noted t p
      → (lookup p t.del_file_hashes ≡ some (get p).hash)
        ⊎ (is_empty (hash_of p t.del_file_hashes) ≡ true)
  unfolding hash_of is_empty
  hash_of-Noted t p (inl n) = ground arith
  hash_of-Noted t p (inr n) = inl n.0
