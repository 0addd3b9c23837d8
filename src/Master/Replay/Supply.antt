-- ===== src/Master/Replay/Supply.antt =====
-- Each file that is placed finds a temporary file under its hash: one that `replay` copied, or one that
-- an earlier deletion moved away.
use termite.Base.{
  ◌+◌, ◌≡◌, ◌≢◌, inl, inr, refl, subst, Bytes, true, false, List, [], ◌∷◌, Option, some,
  if◌then◌else◌, ◌==◌, bytes_eq, bytes_iff, lookup, is_empty, arith, Bool-cases, Option-cases,
}
use termite.Attr.FileAttr.{Attr, FileAttr, deletion}
use termite.Cba.Fetch.{Store}
use termite.Master.Disk.{Node, Disk}
use termite.Master.Replay.{
  out_of_range, Prepared, files_of, count_of, hash_of, is_kept, prepare, nothing_prepared,
  Replaying, replay_one, replay_files, replay,
}
use termite.Master.Replay.Rounds.{
  supply, Noted, Round, prepare_one-Round, Rounds, prepare-split, prepare-Rounds, Balanced,
}
use termite.Master.Replay.Steps.{Ensures, Ensures->>=, uses, Ready, frees, replay_one-Ensures}

-- What a deletion frees is what `replay` counted for it.
frees-Noted :
    (get : Bytes → FileAttr) (st : Store) (t : Prepared) (info : FileAttr) (h : Bytes)
    → Noted get st t info.path
    → (is_kept (get info.path) ≡ true
        → lookup info.path t.del_file_hashes ≡ some (get info.path).hash)
    → frees h t.del_file_hashes info
      ≡ (if is_kept (get info.path) then (if h == (get info.path).hash then 1 else 0) else 0)
unfolding hash_of is_kept is_empty
frees-Noted get st t info h n k = ground (arith, n, k)

module _ (get : Bytes → FileAttr) (st : Store) (info : FileAttr) (s s' t : Prepared) (r : Replaying)
    (a : Round get st info s s') (rest : Rounds get st s' t) (b : Balanced get st s t r) where
  Balanced-Ready : deletion info ≡ false → Ready info r.new_files
  unfolding Ready
  Balanced-Ready e = ground (
    arith,
    b info.hash,
    a.balance info.hash,
    rest.grows info.hash,
    e,
    bytes_iff info.hash info.hash,
  )

  Balanced-next :
      (u : Replaying) (h : Bytes)
      → Noted get st t info.path
      → supply h u.new_files + (if deletion info then 0 else uses h info)
        ≡ supply h r.new_files + (if deletion info then frees h t.del_file_hashes info else 0)
      → supply h u.new_files + supply h s'.new_files
        ≡ count_of h s'.have_hashes + supply h t.new_files
  Balanced-next u h n p = elim (Bool-cases (deletion info)) [
    | inl e ↦
        let f = frees-Noted get st t info h n (λ k. rest.kept info.path (a.notes e k)) in
        grind (arith, f, p, a.balance h, b h, e)
    | inr e ↦ grind (arith, p, a.balance h, b h, e)
  ]

pub nothing_prepared-Noted :
    (get : Bytes → FileAttr) (st : Store) (p : Bytes) → Noted get st nothing_prepared p
unfolding nothing_prepared lookup
nothing_prepared-Noted get st p = inl refl

nothing_prepared-Balanced :
    (get : Bytes → FileAttr) (st : Store) (t : Prepared) (d : Disk)
    → Balanced get st nothing_prepared t (record { disk = d; new_files = t.new_files })
unfolding nothing_prepared lookup files_of count_of
nothing_prepared-Balanced get st t d h = omega arith

module _ (get : Bytes → FileAttr) (st : Store) (to_attr : Option Node → Option Attr) where
  replay_files-Ensures :
      (files : List FileAttr) (s t : Prepared) (r : Replaying)
      → prepare get st files s ≡ some t
      → Balanced get st s t r
      → ((p : Bytes) → Noted get st t p)
      → Ensures (λ z. Unit {0}) (replay_files to_attr t.del_file_hashes files r)
  unfolding replay_files
  replay_files-Ensures [] s t r e b n = tt
  replay_files-Ensures (info ∷ files) s t r e b n =
      let (s', one, rest) = prepare-split get st info files s t e in
      let a = prepare_one-Round get st info s s' one in
      let bs = prepare-Rounds get st files s' t rest in
      Ensures->>= _ _ (replay_one t.del_file_hashes info r) _
        (replay_one-Ensures t.del_file_hashes info r (Balanced-Ready get st info s s' t r a bs b))
        (λ u p.
          Ensures->>= (λ z. Unit {0}) _ (replay_files to_attr t.del_file_hashes files u) _
            (replay_files-Ensures files s' t u rest
              (λ h. Balanced-next get st info s s' t r a bs b u h (n info.path) (p h)) n)
            (λ z q. tt))

  replay-Ensures :
      (files : List FileAttr) (d : Disk) → Ensures (λ z. Unit {0}) (replay get st to_attr files d)
  unfolding replay
  replay-Ensures files d = elim (Option-cases (prepare get st files nothing_prepared)) [
    | inl e ↦ rw (e, replay) tt
    | inr (t, e) ↦
        rw (e, replay)
          (replay_files-Ensures files nothing_prepared t _ e (nothing_prepared-Balanced get st t d)
            (λ p.
              (prepare-Rounds get st files nothing_prepared t e).noted p
                (nothing_prepared-Noted get st p)))
  ]

  -- No order of the files makes `replay` take a temporary file from an empty list: for each file of the
  -- set with a hash that is not a deletion, one was copied or moved away from a deletion before it.
  pub replay-safe :
      (files : List FileAttr) (d : Disk) → replay get st to_attr files d ≢ out_of_range
  replay-safe files d e = subst (Ensures (λ z. Unit {0})) e (replay-Ensures files d)
