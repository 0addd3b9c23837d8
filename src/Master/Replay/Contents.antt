-- ===== src/Master/Replay/Contents.antt =====
-- `replay` as a whole: afterwards the disk has what the file set says.
use termite.Base.{
  ◌≡◌, ◌≢◌, ◌⊎◌, inl, inr, refl, sym, ◌∙◌, subst, Bytes, true, false, List, [], ◌∷◌, Option, none,
  some, ltb, bytes_eq, Dict, lookup, is_empty, slash, All, arith, Bool-cases, Option-cases,
}
use termite.Attr.FileAttr.{Attr, FileAttr, deletion}
use termite.Cba.Fetch.{Store, open_hash}
use termite.Master.Disk.{Node, file, Disk}
use termite.Master.Replay.{
  done, Prepared, files_of, count_of, hash_of, is_kept, note_deletion, copy_contents, add_file,
  prepare_one, prepare, nothing_prepared, Replaying, full_name, replay_one, replay_files, replay,
}
use termite.Master.Replay.Rounds.{Noted, prepare-split, prepare-Rounds}
use termite.Master.Replay.Supply.{nothing_prepared-Noted}
use termite.Master.Replay.Changes.{Yields, Yields->>=, Elsewhere}
use termite.Master.Replay.Yields.{
  Holds, IsStocked, IsReplayed, IsIntact, add_file-IsStocked, replay_one-Yields,
}

-- No two changes are of the same path.
abbrev pub IsDistinct : List FileAttr → Type 0
IsDistinct [] = Unit {0}
IsDistinct (info ∷ files) = All (λ j. j.path ≢ info.path) files × IsDistinct files

full_name-differ : (i j : FileAttr) → j.path ≢ i.path → full_name j ≢ full_name i
unfolding full_name
full_name-differ i j n e = n (ground (arith, e))

hash_of-none :
    (p : Bytes) (m : Dict Bytes Bytes) → lookup p m ≡ none → is_empty (hash_of p m) ≢ false
unfolding hash_of is_empty
hash_of-none p m z h = ground (arith, z, h)

hash_of-some : (p h : Bytes) (m : Dict Bytes Bytes) → lookup p m ≡ some h → hash_of p m ≡ h
unfolding hash_of
hash_of-some p h m z = ground (arith, z)

module _ (sum : Bytes → Bytes) where
  All-IsIntact :
      (del : Dict Bytes Bytes) (info : FileAttr) (d d' : Disk) (files : List FileAttr)
      → Elsewhere (full_name info) d d'
      → All (λ j. j.path ≢ info.path) files
      → All (IsIntact sum del d) files
      → All (IsIntact sum del d') files
  All-IsIntact del info d d' [] o n a = tt
  All-IsIntact del info d d' (j ∷ files) o n a = (
    λ e h m l. a.0 e h m (sym (o (full_name j) (full_name-differ info j n.0)) ∙ l),
    All-IsIntact del info d d' files o n.1 a.1,
  )

  -- What the rest of the files leave alone.
  abbrev Leaves : List FileAttr → Disk → Disk → Type 0
  Leaves files d d' = (m : Bytes) → All (λ j. m ≢ full_name j) files → lookup m d' ≡ lookup m d

  All-differ :
      (info : FileAttr) (files : List FileAttr)
      → All (λ j. j.path ≢ info.path) files
      → All (λ j. full_name info ≢ full_name j) files
  All-differ info [] n = tt
  All-differ info (j ∷ files) n =
      (λ e. full_name-differ info j n.0 (sym e), All-differ info files n.1)

  IsReplayed-same :
      (info : FileAttr) (d d' : Disk)
      → lookup (full_name info) d' ≡ lookup (full_name info) d
      → IsReplayed sum info d
      → IsReplayed sum info d'
  IsReplayed-same info d d' e (gone, there) =
      (λ g. e ∙ gone g, λ g f l. let (n, found, held) = there g f l in (n, e ∙ found, held))

  replay_files-Yields :
      (to_attr : Option Node → Option Attr) (del : Dict Bytes Bytes) (files : List FileAttr)
      (r : Replaying)
      → IsStocked sum r.new_files
      → All (IsIntact sum del r.disk) files
      → IsDistinct files
      → Yields
          (λ z. Leaves files r.disk z.0.disk × All (λ j. IsReplayed sum j z.0.disk) files)
          (replay_files to_attr del files r)
  unfolding replay_files
  replay_files-Yields to_attr del [] r k i u = (λ m a. refl, tt)
  replay_files-Yields to_attr del (info ∷ files) r k i u =
      Yields->>= _ _ (replay_one del info r) _ (replay_one-Yields sum del info r k i.0) (λ s p.
        Yields->>= _ _ (replay_files to_attr del files s) _
          (replay_files-Yields to_attr del files s p.0.0
            (All-IsIntact del info r.disk s.disk files p.0.1 u.0 i.1) u.1)
          (λ z q. (
            λ m a. q.0 m a.1 ∙ p.0.1 m a.0,
            (
              IsReplayed-same info s.disk z.0.disk
                  (q.0 (full_name info) (All-differ info files u.0)) p.1,
              q.1,
            ),
          )))

  module _ (get : Bytes → FileAttr) (st : Store) where
    -- The content store has each content under its sum.
    abbrev pub IsSummed : Type 0
    IsSummed = (h c : Bytes) → open_hash st h ≡ some c → sum c ≡ h

    prepare_one-new_files :
        (info : FileAttr) (s s' : Prepared)
        → prepare_one get st info s ≡ some s'
        → (s'.new_files ≡ s.new_files)
          ⊎ ((c : Bytes) × (open_hash st info.hash ≡ some c)
              × (s'.new_files ≡ add_file info.hash (file c) s.new_files))
    unfolding prepare_one note_deletion copy_contents
    prepare_one-new_files info s s' e = elim (Bool-cases (deletion info)) [
      | inl d ↦ inl (ground (arith, d, e))
      | inr d ↦ elim (Bool-cases (is_empty info.hash)) [
        | inl h ↦ inl (ground (arith, d, h, e))
        | inr h ↦ elim (Bool-cases (ltb 0 (count_of info.hash s.have_hashes))) [
          | inl l ↦ inl (ground (arith, d, h, l, e))
          | inr l ↦ elim (Option-cases (open_hash st info.hash)) [
            | inl o ↦ absurd (ground (arith, d, h, l, o, e))
            | inr (c, o) ↦ inr (c, o, ground (arith, d, h, l, o, e))
          ]
        ]
      ]
    ]

    prepare_one-IsStocked :
        (info : FileAttr) (s s' : Prepared)
        → IsSummed
        → prepare_one get st info s ≡ some s'
        → IsStocked sum s.new_files
        → IsStocked sum s'.new_files
    prepare_one-IsStocked info s s' a e k = elim (prepare_one-new_files info s s' e) [
      | inl same ↦ subst (IsStocked sum) (sym same) k
      | inr (c, o, same) ↦
          subst (IsStocked sum) (sym same)
            (add_file-IsStocked sum info.hash (file c) s.new_files (c, refl, a info.hash c o) k)
    ]

    prepare-IsStocked :
        (files : List FileAttr) (s t : Prepared)
        → IsSummed
        → prepare get st files s ≡ some t
        → IsStocked sum s.new_files
        → IsStocked sum t.new_files
    prepare-IsStocked [] s t a e k =
        let same : s ≡ t = unfold prepare in (let f : some s ≡ some t = e in cc) in
        subst (λ x. IsStocked sum x.new_files) same k
    prepare-IsStocked (info ∷ files) s t a e k =
        let (s', one, rest) = prepare-split get st info files s t e in
        prepare-IsStocked files s' t a rest (prepare_one-IsStocked info s s' a one k)

    -- What the cache has of a file is what is on the disk.
    abbrev pub IsCached : Disk → Type 0
    IsCached d =
        (p : Bytes)
        → is_kept (get p) ≡ true
        → (n : Node) → lookup (slash ∷ p) d ≡ some n
        → Holds sum (get p).hash n

    Noted-IsIntact :
        (t : Prepared) (d : Disk) (info : FileAttr)
        → IsCached d
        → Noted get st t info.path
        → IsIntact sum t.del_file_hashes d info
    unfolding full_name
    Noted-IsIntact t d info c n e h m l = elim n [
      | inl z ↦ absurd (hash_of-none info.path t.del_file_hashes z h)
      | inr (z, k) ↦
          subst (λ x. Holds sum x m)
            (sym (hash_of-some info.path (get info.path).hash t.del_file_hashes z))
            (c info.path k m l)
    ]

    All-Noted :
        (t : Prepared) (d : Disk) (files : List FileAttr)
        → IsCached d
        → ((p : Bytes) → Noted get st t p)
        → All (IsIntact sum t.del_file_hashes d) files
    All-Noted t d [] c n = tt
    All-Noted t d (info ∷ files) c n =
        (Noted-IsIntact t d info c (n info.path), All-Noted t d files c n)

    nothing_prepared-IsStocked : IsStocked sum nothing_prepared.new_files
    unfolding nothing_prepared files_of lookup
    nothing_prepared-IsStocked h = tt

    replay-Yields :
        (to_attr : Option Node → Option Attr) (files : List FileAttr) (d : Disk)
        → IsSummed
        → IsCached d
        → IsDistinct files
        → Yields
            (λ z. Leaves files d z.0.disk × All (λ j. IsReplayed sum j z.0.disk) files)
            (replay get st to_attr files d)
    unfolding replay
    replay-Yields to_attr files d a c u =
        elim (Option-cases (prepare get st files nothing_prepared)) [
          | inl e ↦ rw (e, replay) tt
          | inr (t, e) ↦
              let noted : (p : Bytes) → Noted get st t p = λ p.
                (prepare-Rounds get st files nothing_prepared t e).noted p
                  (nothing_prepared-Noted get st p) in
              rw (e, replay)
                (replay_files-Yields to_attr t.del_file_hashes files
                  (record { disk = d; new_files = t.new_files })
                  (prepare-IsStocked files nothing_prepared t a e nothing_prepared-IsStocked)
                  (All-Noted t d files c noted) u)
        ]

    -- Where `replay` does not end the program, each deleted path is gone from the disk, each file that has a
    -- hash and is not a link is there with content of that sum, whether it was copied or moved from a deleted
    -- path, and no other path has changed. The paths of the file set must differ, the content store have each
    -- content under its sum, and a file that the cache has a hash for be on the disk with that sum.
    pub replay-IsReplayed :
        (to_attr : Option Node → Option Attr) (files infos : List FileAttr) (d : Disk)
        (r : Replaying)
        → IsSummed
        → IsCached d
        → IsDistinct files
        → replay get st to_attr files d ≡ done (r, infos)
        → ((m : Bytes) → All (λ j. m ≢ full_name j) files → lookup m r.disk ≡ lookup m d)
          × All (λ j. IsReplayed sum j r.disk) files
    replay-IsReplayed to_attr files infos d r a c u e =
        subst (Yields (λ z. Leaves files d z.0.disk × All (λ j. IsReplayed sum j z.0.disk) files)) e
          (replay-Yields to_attr files d a c u)
