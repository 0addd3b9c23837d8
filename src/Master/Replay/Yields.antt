-- ===== src/Master/Replay/Yields.antt =====
-- What each step of `replayFileModifications` leaves on the disk and among the temporary files, where it does
-- not end the program.
use termite.Base.{
  ◌≡◌, inl, inr, refl, sym, ◌∙◌, subst, Bytes, true, false, not, ◌&&◌, List, ◌∷◌, none, some, ◌==◌,
  bytes_eq, bytes_iff, Dict, lookup, insert, is_empty, All, arith, Bool-cases, Option-cases,
}
use termite.Attr.FileAttr.{FileAttr, deletion, is_dir, is_symlink}
use termite.Master.Disk.{Node, file, Disk, put_at, take_away, remove, mkdir, is_directory}
use termite.Master.Replay.{
  Outcome, done, fatal, out_of_range, ◌>>=◌, files_of, hash_of, add_file, Replaying, full_name,
  delete_file, make_dir, place_file, make_link, set_mode, on_disk, with_dir, with_file, with_link,
  with_mode, replay_one,
}
use termite.Master.Replay.Rounds.{files_of-insert}
use termite.Master.Replay.Steps.{List-cases}
use termite.Master.Replay.Changes.{
  Yields, Yields->>=, Yields-map, or_fatal-Yields, Elsewhere, mkdir-Elsewhere, remove-Elsewhere,
  make_symlink-Elsewhere, take_away-Elsewhere, put_at-Elsewhere,
}

-- The sum of a content is a parameter; a node has the sum `h`.
module _ (sum : Bytes → Bytes) where
  abbrev pub Holds : Bytes → Node → Type 0
  Holds h n = (c : Bytes) × (n ≡ file c) × (sum c ≡ h)

  -- Every temporary file has the sum under which it is kept.
  abbrev pub IsStocked : Dict Bytes (List Node) → Type 0
  IsStocked m = (h : Bytes) → All (Holds h) (files_of h m)

  pub insert-IsStocked :
      (h : Bytes) (l : List Node) (m : Dict Bytes (List Node))
      → All (Holds h) l
      → IsStocked m
      → IsStocked (insert h l m)
  insert-IsStocked h l m a k g = elim (Bool-cases (g == h)) [
    | inl e ↦
        let same : g ≡ h = ground (arith, e, bytes_iff g h) in
        let files : files_of g (insert h l m) ≡ l = ground (arith, e, files_of-insert g h l m) in
        subst (All (Holds g)) (sym files) (subst (λ x. All (Holds x) l) (sym same) a)
    | inr e ↦
        let files : files_of g (insert h l m) ≡ files_of g m =
          ground (arith, e, files_of-insert g h l m) in
        subst (All (Holds g)) (sym files) (k g)
  ]

  pub add_file-IsStocked :
      (h : Bytes) (n : Node) (m : Dict Bytes (List Node))
      → Holds h n
      → IsStocked m
      → IsStocked (add_file h n m)
  unfolding add_file
  add_file-IsStocked h n m a k = insert-IsStocked h (n ∷ files_of h m) m (a, k h) k

  abbrev pub HoldsAt : Bytes → Bytes → Disk → Type 0
  HoldsAt name h d = (n : Node) × (lookup name d ≡ some n) × Holds h n

  -- The name alone has changed, and what is left of the temporary files has its sums.
  abbrev pub Steps : Bytes → Disk → Replaying → Type 0
  Steps name d s = IsStocked s.new_files × Elsewhere name d s.disk

  Elsewhere-trans :
      (name : Bytes) (d d' d'' : Disk)
      → Elsewhere name d d'
      → Elsewhere name d' d''
      → Elsewhere name d d''
  Elsewhere-trans name d d' d'' a b m n = b m n ∙ a m n

  on_disk-Yields :
      (name : Bytes) (r : Replaying) (o : Outcome Disk)
      → IsStocked r.new_files
      → Yields (Elsewhere name r.disk) o
      → Yields (Steps name r.disk) (on_disk r o)
  unfolding on_disk
  on_disk-Yields name r (done d) k h = (k, h)
  on_disk-Yields name r fatal k h = tt
  on_disk-Yields name r out_of_range k h = tt

  make_dir-Yields :
      (info : FileAttr) (d : Disk) → Yields (Elsewhere (full_name info) d) (make_dir info d)
  unfolding make_dir
  make_dir-Yields info d = elim (Option-cases (mkdir (full_name info) d)) [
    | inr (e, n) ↦ rw (n, make_dir) (mkdir-Elsewhere (full_name info) d e n)
    | inl n ↦ elim (Bool-cases (is_directory (lookup (full_name info) d))) [
      | inl q ↦ rw (n, q, make_dir) (λ m k. refl)
      | inr q ↦ rw (n, q, make_dir) tt
    ]
  ]

  make_link-Yields :
      (info : FileAttr) (d : Disk) → Yields (Elsewhere (full_name info) d) (make_link info d)
  unfolding make_link
  make_link-Yields info d = elim (Option-cases (remove (full_name info) d)) [
    | inl n ↦
        rw (n, make_link)
          (or_fatal-Yields _ _ (make_symlink-Elsewhere info.link (full_name info) d))
    | inr (e, n) ↦
        rw (n, make_link)
          (or_fatal-Yields _ _ (λ d' q.
            Elsewhere-trans (full_name info) d e d' (remove-Elsewhere (full_name info) d e n).1
              (make_symlink-Elsewhere info.link (full_name info) e d' q)))
  ]

  set_mode-Yields : (info : FileAttr) (d : Disk) → Yields (λ e. e ≡ d) (set_mode info d)
  unfolding set_mode
  set_mode-Yields info d = elim (Option-cases (lookup (full_name info) d)) [
    | inr (e, n) ↦ rw (n, set_mode) refl
    | inl n ↦ rw (n, set_mode) tt
  ]

  with_dir-Yields :
      (info : FileAttr) (r : Replaying)
      → IsStocked r.new_files
      → Yields (Steps (full_name info) r.disk) (with_dir info r)
  unfolding with_dir
  with_dir-Yields info r k = elim (Bool-cases (is_dir info)) [
    | inl e ↦
        rw e
          (on_disk-Yields (full_name info) r (make_dir info r.disk) k (make_dir-Yields info r.disk))
    | inr e ↦ rw e (k, λ m n. refl)
  ]

  place_file-Yields :
      (info : FileAttr) (r : Replaying)
      → IsStocked r.new_files
      → Yields
          (λ s. Steps (full_name info) r.disk s × HoldsAt (full_name info) info.hash s.disk)
          (place_file info r)
  unfolding place_file
  place_file-Yields info r k = elim (List-cases (files_of info.hash r.new_files)) [
    | inl n ↦ rw (n, place_file) tt
    | inr (n, rest, q) ↦ elim (Option-cases (put_at n (full_name info) r.disk)) [
      | inl z ↦ rw (q, z, place_file) tt
      | inr (d, z) ↦
          let (there, other) = put_at-Elsewhere n (full_name info) r.disk d z in
          let stock : All (Holds info.hash) (n ∷ rest) =
            subst (All (Holds info.hash)) q (k info.hash) in
          rw (q, z, place_file)
            ((insert-IsStocked info.hash rest r.new_files stock.1 k, other), (n, there, stock.0))
    ]
  ]

  -- The file that is placed, where there is one, is there.
  abbrev Filed : FileAttr → Disk → Replaying → Type 0
  Filed info d s =
      Steps (full_name info) d s
      × (is_empty info.hash ≡ false
          → is_empty info.link ≡ true
          → HoldsAt (full_name info) info.hash s.disk)

  with_file-Yields :
      (info : FileAttr) (r : Replaying)
      → IsStocked r.new_files
      → Yields (Filed info r.disk) (with_file info r)
  unfolding with_file
  with_file-Yields info r k = elim (Bool-cases (is_empty info.hash)) [
    | inl e ↦ rw e ((k, λ m n. refl), λ f. absurd (ground (arith, e, f)))
    | inr e ↦
        let same : with_file info r ≡ place_file info r = rw (e, with_file) refl in
        subst (Yields (Filed info r.disk)) (sym same) (
          Yields-map _ (Filed info r.disk) (place_file info r) (λ s p. (p.0, λ f l. p.1))
            (place_file-Yields info r k))
  ]

  with_link-Yields :
      (info : FileAttr) (r : Replaying)
      → IsStocked r.new_files
      → Yields
          (λ s. Steps (full_name info) r.disk s × (is_empty info.link ≡ true → s.disk ≡ r.disk))
          (with_link info r)
  unfolding with_link
  with_link-Yields info r k = elim (Bool-cases (is_empty info.link)) [
    | inl e ↦ rw e ((k, λ m n. refl), λ l. refl)
    | inr e ↦
        let same : with_link info r ≡ on_disk r (make_link info r.disk) = rw (e, with_link) refl in
        subst (Yields _) (sym same) (
          Yields-map _ _ (on_disk r (make_link info r.disk))
            (λ s p. (p, λ l. absurd (ground (arith, e, l))))
            (on_disk-Yields (full_name info) r (make_link info r.disk) k
              (make_link-Yields info r.disk)))
  ]

  with_mode-Yields :
      (info : FileAttr) (r : Replaying)
      → Yields (λ s. (s.disk ≡ r.disk) × (s.new_files ≡ r.new_files)) (with_mode info r)
  unfolding with_mode on_disk
  with_mode-Yields info r = elim (Bool-cases (is_empty info.hash && not (is_symlink info))) [
    | inl e ↦ rw e (
        Yields->>= (λ d. d ≡ r.disk) _ (set_mode info r.disk) _ (set_mode-Yields info r.disk)
          (λ d q. (q, refl)))
    | inr e ↦ rw e (refl, refl)
  ]

  file-Yields :
      (info : FileAttr) (r : Replaying)
      → IsStocked r.new_files
      → Yields
          (Filed info r.disk)
          (with_dir info r >>= with_file info >>= with_link info >>= with_mode info)
  file-Yields info r k =
      Yields->>= _ _ (with_dir info r >>= with_file info >>= with_link info) (with_mode info)
        (Yields->>= _ _ (with_dir info r >>= with_file info) (with_link info)
          (Yields->>= _ (Filed info r.disk) (with_dir info r) (with_file info)
            (with_dir-Yields info r k)
            (λ s p.
              Yields-map _ (Filed info r.disk) (with_file info s)
                (λ t q.
                  ((q.0.0, Elsewhere-trans (full_name info) r.disk s.disk t.disk p.1 q.0.1), q.1))
                (with_file-Yields info s p.0)))
          (λ s p.
            Yields-map _ (Filed info r.disk) (with_link info s)
              (λ t q. (
                (q.0.0, Elsewhere-trans (full_name info) r.disk s.disk t.disk p.0.1 q.0.1),
                λ f l. subst (HoldsAt (full_name info) info.hash) (sym (q.1 l)) (p.1 f l),
              ))
              (with_link-Yields info s p.0.0)))
        (λ s p.
          Yields-map _ (Filed info r.disk) (with_mode info s)
            (λ t q. (
              (
                subst IsStocked (sym q.1) p.0.0,
                subst (Elsewhere (full_name info) r.disk) (sym q.0) p.0.1,
              ),
              λ f l. subst (HoldsAt (full_name info) info.hash) (sym q.0) (p.1 f l),
            ))
            (with_mode-Yields info s))

  delete_file-Yields :
      (del : Dict Bytes Bytes) (info : FileAttr) (r : Replaying)
      → IsStocked r.new_files
      → (is_empty (hash_of info.path del) ≡ false
          → (n : Node) → lookup (full_name info) r.disk ≡ some n
          → Holds (hash_of info.path del) n)
      → Yields
          (λ s. Steps (full_name info) r.disk s × (lookup (full_name info) s.disk ≡ none))
          (delete_file del info r)
  unfolding delete_file
  delete_file-Yields del info r k i = elim (Bool-cases (is_empty (hash_of info.path del))) [
    | inl e ↦ elim (Option-cases (remove (full_name info) r.disk)) [
      | inl z ↦ rw (e, z, delete_file) tt
      | inr (d, z) ↦
          let (gone, other) = remove-Elsewhere (full_name info) r.disk d z in
          rw (e, z, delete_file) ((k, other), gone)
    ]
    | inr e ↦ elim (Option-cases (take_away (full_name info) r.disk)) [
      | inl z ↦ rw (e, z, delete_file) tt
      | inr ((n, d), z) ↦
          let (there, gone, other) = take_away-Elsewhere (full_name info) r.disk d n z in
          rw (e, z, delete_file)
            (
              (add_file-IsStocked (hash_of info.path del) n r.new_files (i e n there) k, other),
              gone,
            )
    ]
  ]

  -- What `replay` is to leave of a change on the disk: nothing of a deletion, and the content of a file that
  -- has a hash and is not a link.
  abbrev pub IsReplayed : FileAttr → Disk → Type 0
  IsReplayed info d =
      (deletion info ≡ true → lookup (full_name info) d ≡ none)
      × (deletion info ≡ false
          → is_empty info.hash ≡ false
          → is_empty info.link ≡ true
          → HoldsAt (full_name info) info.hash d)

  -- What is to be deleted is as the cache has it.
  abbrev pub IsIntact : Dict Bytes Bytes → Disk → FileAttr → Type 0
  IsIntact del d info =
      deletion info ≡ true
      → is_empty (hash_of info.path del) ≡ false
      → (n : Node) → lookup (full_name info) d ≡ some n
      → Holds (hash_of info.path del) n

  pub replay_one-Yields :
      (del : Dict Bytes Bytes) (info : FileAttr) (r : Replaying)
      → IsStocked r.new_files
      → IsIntact del r.disk info
      → Yields
          (λ s. Steps (full_name info) r.disk s × IsReplayed info s.disk)
          (replay_one del info r)
  unfolding replay_one
  replay_one-Yields del info r k i = elim (Bool-cases (deletion info)) [
    | inl e ↦
        let same : replay_one del info r ≡ delete_file del info r = rw (e, replay_one) refl in
        subst (Yields _) (sym same) (
          Yields-map _ _ (delete_file del info r)
            (λ s p. (p.0, (λ g. p.1, λ f. absurd (ground (arith, e, f)))))
            (delete_file-Yields del info r k (i e)))
    | inr e ↦
        let steps : Outcome Replaying =
          with_dir info r >>= with_file info >>= with_link info >>= with_mode info in
        let same : replay_one del info r ≡ steps = rw (e, replay_one) refl in
        subst (Yields _) (sym same) (
          Yields-map _ _ steps (λ s p. (p.0, (λ g. absurd (ground (arith, e, g)), λ f. p.1)))
            (file-Yields info r k))
  ]
