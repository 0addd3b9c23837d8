-- ===== src/Master/Commands/Parents.antt =====
-- `mkdir -p`: afterwards each directory of the path is on the disk.
use termite.Base.{
  ℕ, ◌≡◌, ◌≢◌, ◌⊎◌, inl, inr, refl, sym, ap, ◌∙◌, subst, Bytes, Bool, true, false, not, List, [],
  ◌∷◌, ◌++◌, Option, none, some, ◌==◌, if◌then◌else◌, bytes_eq, bytes_iff, lookup, insert,
  lookup-insert, has, is_empty, slash, trim_left, split_slash, join_slash, All, All-append, arith,
  Bool-cases, Option-cases,
}
use termite.Attr.FileAttr.{Attr, FileAttr, deletion, is_dir, copy, has_type}
use termite.Cba.Fetch.{Store}
use termite.Master.Disk.{Node, file, directory, symlink, Disk, is_directory, has_parent}
use termite.Master.Replay.{full_name}
use termite.Master.Replay.Directories.{IsPlain, replay-directories}
use termite.Master.Commands.{
  Ran, ran, WorkResponse, lines, set_times, replay_set, mkdir_entry, make_entry, mkdir_parents,
  mkdir_parent,
}
use termite.Master.Commands.Components.{
  IsComponent, split_slash-join_slash, split_path-join_slash, trim_left-join_slash,
}

-- What `attributes.GetDir` is relied on for: it answers for each path what is on the disk.
pub record Agrees (view : Disk → Bytes → FileAttr) : Type 0 where
  pub named : (d : Disk) (p : Bytes) → (view d p).path ≡ p
  pub there : (d : Disk) (p : Bytes) → deletion (view d p) ≡ not (has (slash ∷ p) d)
  pub dirs : (d : Disk) (p : Bytes) → is_dir (view d p) ≡ is_directory (lookup (slash ∷ p) d)
  pub plain : (d : Disk) (p : Bytes) → is_dir (view d p) ≡ true → IsPlain (view d p)

is_directory-eq : (o : Option Node) → is_directory o ≡ true → o ≡ some directory
unfolding is_directory
is_directory-eq (some directory) e = refl
is_directory-eq (some (file c)) e = cc
is_directory-eq (some (symlink l)) e = cc
is_directory-eq none e = cc

pub set_times-IsPlain :
    (now : ℕ) (a : FileAttr)
    → IsPlain a
    → (a' : FileAttr) × (set_times now a ≡ ran a') × IsPlain a' × (a'.path ≡ a.path)
unfolding set_times
set_times-IsPlain now a p = elim (Option-cases a.attr) [
  | inl e ↦ absurd (unfold is_dir has_type in ground (arith, p.dir, e))
  | inr (b, e) ↦ (
    record a { attr = some (record b { mtime = now; mtimensec = 0 }) },
    rw (e, set_times) refl,
    record {
      dir = unfold is_dir has_type in ground (arith, p.dir, e);
      no_hash = p.no_hash;
      no_link = p.no_link;
    },
    refl,
  )
]

mkdir_entry-IsPlain :
    (now : ℕ) (p : Bytes) → IsPlain (mkdir_entry now p) × ((mkdir_entry now p).path ≡ p)
unfolding mkdir_entry is_dir has_type is_empty termite.Attr.FileAttr.file_type
mkdir_entry-IsPlain now p = (record { dir = refl; no_hash = refl; no_link = refl }, refl)

-- The path of each component, and those before it, has a directory.
abbrev pub AllDirectories : List Bytes → List Bytes → Disk → Type 0
AllDirectories before [] d = Unit
AllDirectories before (c ∷ rest) d =
    (lookup (slash ∷ join_slash (before ++ c ∷ [])) d ≡ some directory)
    × AllDirectories (before ++ c ∷ []) rest d

-- At the path of one of them is something else.
abbrev pub IsBlocked : List Bytes → List Bytes → Disk → Type 0
IsBlocked before [] d = ⊥
IsBlocked before (c ∷ rest) d =
    ((n : Node) × (lookup (slash ∷ join_slash (before ++ c ∷ [])) d ≡ some n) × (n ≢ directory))
    ⊎ IsBlocked (before ++ c ∷ []) rest d

-- The path is of one of them.
abbrev pub IsPrefix : Bytes → List Bytes → List Bytes → Type 0
IsPrefix q before [] = ⊥
IsPrefix q before (c ∷ rest) =
    (q ≡ slash ∷ join_slash (before ++ c ∷ [])) ⊎ IsPrefix q (before ++ c ∷ []) rest

-- What was there is as it was, and only these paths are new.
abbrev pub Adds : List Bytes → List Bytes → Disk → Disk → Type 0
Adds before rest d d' =
    (q : Bytes) → (lookup q d' ≡ lookup q d) ⊎ ((lookup q d ≡ none) × IsPrefix q before rest)

IsBlocked-insert :
    (before rest : List Bytes) (p : Bytes) (d : Disk)
    → IsBlocked before rest (insert p directory d)
    → IsBlocked before rest d
IsBlocked-insert before [] p d h = h
IsBlocked-insert before (c ∷ rest) p d (inr h) =
    inr (IsBlocked-insert (before ++ c ∷ []) rest p d h)
IsBlocked-insert before (c ∷ rest) p d (inl (n, e, other)) = inl (
  n,
  ground (arith, e, other, lookup-insert (slash ∷ join_slash (before ++ c ∷ [])) p directory d),
  other,
)

has-none : (q : Bytes) (d : Disk) → has q d ≡ false → lookup q d ≡ none
unfolding has
has-none q d e = elim (Option-cases (lookup q d)) [
  | inl n ↦ n
  | inr (v, n) ↦ absurd (ground (arith, e, n))
]

has-some : (q : Bytes) (d : Disk) → has q d ≡ true → (n : Node) × (lookup q d ≡ some n)
unfolding has
has-some q d e = elim (Option-cases (lookup q d)) [
  | inl n ↦ absurd (ground (arith, e, n))
  | inr (v, n) ↦ (v, n)
]

Adds-insert :
    (before rest : List Bytes) (c : Bytes) (d d' : Disk)
    → lookup (slash ∷ join_slash (before ++ c ∷ [])) d ≡ none
    → Adds (before ++ c ∷ []) rest (insert (slash ∷ join_slash (before ++ c ∷ [])) directory d) d'
    → Adds before (c ∷ rest) d d'
Adds-insert before rest c d d' new adds q =
    let p = slash ∷ join_slash (before ++ c ∷ []) in
    let at_q = lookup-insert q p directory d in
    elim (Bool-cases (q == p)) [
      | inl e ↦ let same = (bytes_iff q p).0 e in inr (ap (λ r. lookup r d) same ∙ new, inl same)
      | inr n ↦ elim (adds q) [
        | inl same ↦ inl (ground (arith, same, at_q, n))
        | inr (none_there, prefix) ↦ inr (ground (arith, none_there, at_q, n), inr prefix)
      ]
    ]

Adds-directory :
    (before rest : List Bytes) (d d' : Disk) (q : Bytes)
    → Adds before rest d d'
    → lookup q d ≡ some directory
    → lookup q d' ≡ some directory
Adds-directory before rest d d' q adds e = elim (adds q) [
  | inl same ↦ same ∙ e
  | inr (n, _) ↦ absurd (ground (arith, n, e))
]

Adds-there :
    (before rest : List Bytes) (c : Bytes) (d d' : Disk)
    → Adds (before ++ c ∷ []) rest d d'
    → Adds before (c ∷ rest) d d'
Adds-there before rest c d d' adds q = elim (adds q) [
  | inl same ↦ inl same
  | inr (n, prefix) ↦ inr (n, inr prefix)
]

-- `attributes.Get`
abbrev pub get : (Disk → Bytes → FileAttr) → Disk → Bytes → FileAttr
get view d p = copy (view d p) false

module _ (view : Disk → Bytes → FileAttr) (agrees : Agrees view) where
  pub get-dirs :
      (d : Disk) (p : Bytes) → is_dir (get view d p) ≡ is_directory (lookup (slash ∷ p) d)
  get-dirs d p = unfold copy is_dir has_type in agrees.dirs d p

  get-there : (d : Disk) (p : Bytes) → deletion (get view d p) ≡ not (has (slash ∷ p) d)
  get-there d p = unfold copy deletion in agrees.there d p

  pub get-named : (d : Disk) (p : Bytes) → (get view d p).path ≡ p
  get-named d p = unfold copy in agrees.named d p

  pub get-IsPlain : (d : Disk) (p : Bytes) → is_dir (get view d p) ≡ true → IsPlain (get view d p)
  get-IsPlain d p e =
      let plain = agrees.plain d p (unfold copy is_dir has_type in e) in
      unfold copy is_dir has_type in
      record { dir = plain.dir; no_hash = plain.no_hash; no_link = plain.no_link }

module _ (view : Disk → Bytes → FileAttr) (st : Store) (to_attr : Option Node → Option Attr)
    (now : ℕ) where
  make_entry-ran :
      (parent : FileAttr) (p : Bytes) (d : Disk)
      → IsPlain parent
      → lookup (slash ∷ parent.path) d ≡ some directory
      → has (slash ∷ p) d ≡ false
      → has_parent (slash ∷ p) d ≡ true
      → make_entry view st to_attr now parent p d ≡ ran (insert (slash ∷ p) directory d)
  unfolding make_entry replay_set full_name
  make_entry-ran parent p d plain known new above =
      let (parent', e, plain', same) = set_times-IsPlain now parent plain in
      let (entry, path) = mkdir_entry-IsPlain now p in
      let (r, infos, e', disk) =
        replay-directories (λ q. copy (view d q) false) st to_attr parent' (mkdir_entry now p) d
          plain' entry (rw same known) (rw path new) (rw path above) in
      rw (e, replay_set, e', disk, path) refl

  module _ (agrees : Agrees view) where
    has_parent-before :
        (before : List Bytes) (c : Bytes) (d : Disk)
        → All IsComponent before
        → IsComponent c
        → lookup (slash ∷ join_slash before) d ≡ some directory
        → has_parent (slash ∷ join_slash (before ++ c ∷ [])) d ≡ true
    unfolding has_parent is_empty is_directory
    has_parent-before [] c d h k known = rw (has_parent, split_path-join_slash [] c h k) refl
    has_parent-before (b ∷ before) c d h k known =
        rw (has_parent, split_path-join_slash (b ∷ before) c h k, known) refl

    -- What `mkdir -p` has done after the components to come.
    abbrev Made : List Bytes → List Bytes → Disk → Ran (Disk × List Bytes) → Type 0
    Made before rest d o =
        (d' : Disk) × (msgs : List Bytes) × (o ≡ ran (d', msgs))
        × Adds before rest d d'
        × (is_empty msgs ≡ true → AllDirectories before rest d')
        × (is_empty msgs ≡ false → IsBlocked before rest d)

    mkdir_parents-Made :
        (before rest : List Bytes) (parent : FileAttr) (d : Disk)
        → All IsComponent before
        → All IsComponent rest
        → IsPlain parent
        → parent.path ≡ join_slash before
        → lookup (slash ∷ join_slash before) d ≡ some directory
        → Made before rest d (mkdir_parents view st to_attr now before rest parent d)
    unfolding mkdir_parents
    mkdir_parents-Made before [] parent d hb hr plain path known =
        (d, [], refl, (λ q. inl refl), (λ _. tt), λ e. absurd (unfold is_empty in cc e))
    mkdir_parents-Made before (c ∷ rest) parent d hb (k, hr) plain path known =
        let p = join_slash (before ++ c ∷ []) in
        let before' = before ++ c ∷ [] in
        let hb' = All-append IsComponent before (c ∷ []) hb (k, tt) in
        elim (Bool-cases (has (slash ∷ p) d)) [
          | inr new ↦
              let d₁ = insert (slash ∷ p) directory d in
              let made =
                make_entry-ran parent p d plain (rw path known) new
                  (has_parent-before before c d hb k known) in
              let (entry, named) = mkdir_entry-IsPlain now p in
              let at_p = lookup-insert (slash ∷ p) (slash ∷ p) directory d in
              let (d', msgs, e, adds, all, blocked) =
                mkdir_parents-Made before' rest (mkdir_entry now p) d₁ hb' hr entry named
                  (ground (arith, at_p, bytes_iff (slash ∷ p) (slash ∷ p))) in
              (
                d',
                msgs,
                rw (get-there view agrees d p, new, made) e,
                Adds-insert before rest c d d' (has-none (slash ∷ p) d new) adds,
                (λ z. (
                  Adds-directory before' rest d₁ d' (slash ∷ p) adds
                      (ground (arith, at_p, bytes_iff (slash ∷ p) (slash ∷ p))),
                  all z,
                )),
                λ z. inr (IsBlocked-insert before' rest (slash ∷ p) d (blocked z)),
              )
          | inl old ↦ elim (Bool-cases (is_dir (get view d p))) [
            | inl dir ↦
                let here : lookup (slash ∷ p) d ≡ some directory =
                  is_directory-eq _ (sym (get-dirs view agrees d p) ∙ dir) in
                let (d', msgs, e, adds, all, blocked) =
                  mkdir_parents-Made before' rest (get view d p) d hb' hr
                    (get-IsPlain view agrees d p dir) (get-named view agrees d p) here in
                (
                  d',
                  msgs,
                  rw (get-there view agrees d p, old, dir) e,
                  Adds-there before rest c d d' adds,
                  (λ z. (Adds-directory before' rest d d' (slash ∷ p) adds here, all z)),
                  λ z. inr (blocked z),
                )
            | inr other ↦
                let (n, here) = has-some (slash ∷ p) d old in
                (
                  d,
                  (termite.Base.codes "Not a directory: /" ++ p) ∷ [],
                  rw (get-there view agrees d p, old, other) refl,
                  (λ q. inl refl),
                  (λ z. absurd (unfold is_empty in cc z)),
                  λ z. inl (
                    n,
                    here,
                    λ same.
                        unfold is_directory in
                        absurd (ground (arith, get-dirs view agrees d p, other, here, same)),
                  ),
                )
          ]
        ]

    -- `mkdir -p` of a path of components, from the root, which is a directory, where the attribute cache
    -- agrees with each disk that the command comes to: the master goes on, what was on the disk is as it
    -- was, and only directories of the path are new. If nothing is reported, each of them is there as a
    -- directory; if something is, one of them was something else before.
    pub mkdir_parent-AllDirectories :
        (c : Bytes) (rest : List Bytes) (d : Disk) (rep : WorkResponse)
        → All IsComponent (c ∷ rest)
        → lookup (slash ∷ []) d ≡ some directory
        → (d' : Disk) × (rep' : WorkResponse) × (mkdir_parent view st to_attr now
              (slash ∷ join_slash (c ∷ rest))
              d
              rep
            ≡ ran (d', rep'))
          × Adds [] (c ∷ rest) d d'
          × (((rep' ≡ rep) × AllDirectories [] (c ∷ rest) d')
              ⊎ ((rep'.exit ≡ 256) × IsBlocked [] (c ∷ rest) d))
    unfolding mkdir_parent
    mkdir_parent-AllDirectories c rest d rep h root =
        let at_root : is_directory (lookup (slash ∷ []) d) ≡ true =
          unfold is_directory in ap is_directory root in
        let dir = get-dirs view agrees d [] ∙ at_root in
        let (d', msgs, e, adds, all, blocked) =
          mkdir_parents-Made [] (c ∷ rest) (get view d []) d tt h (get-IsPlain view agrees d [] dir)
            (unfold join_slash in get-named view agrees d []) (unfold join_slash in root) in
        (
          d',
          (if is_empty msgs then rep else record { stderr = lines msgs; exit = 256 }),
          rw (trim_left-join_slash c rest h.0, split_slash-join_slash c rest h, e) refl,
          adds,
          elim (Bool-cases (is_empty msgs)) [
            | inl z ↦ inl (rw z refl, all z)
            | inr z ↦ inr (rw z refl, blocked z)
          ],
        )
