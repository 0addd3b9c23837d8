-- ===== src/Union/Names.antt =====
-- The names of a directory, as one map over both file systems: what `Lookup` and `OpenDir` show of it, and
-- what each operation of fs/memunionfs.go does to it.
use termite.Base.{
  ℕ, ◌≡◌, inl, inr, refl, sym, ap, ◌∙◌, Bytes, Bool, true, false, not, ◌&&◌, ◌||◌, List, [], ◌∷◌,
  Option, none, some, if◌then◌else◌, ◌==◌, nat_eq, bytes_eq, bytes_iff, Dict, lookup, has,
  has-insert, is_empty, slash, Lacks, trim_right, file_split-Lacks, arith, Bool-cases,
}
use termite.Paths.{join, split_path}
use termite.Paths.Laws.{split_path-join, join-trim}
use termite.Union.Tree.{Inodes}
use termite.Union.{
  ReadOnly, MemNode, MemUnionFs, shows_original, path_of, mark_deleted, open_dir, hide_deleted,
  with_children,
}

-- What a name stands for: an inode that was made, or a path below that none was made for.
pub data Source : Type 0 where
  child : ℕ → Source
  below : Bytes → Source

abbrev pub is_some : {A : Type 0} → Option A → Bool
is_some none = false
is_some (some a) = true

-- A path without slashes at its end, and a name: no two pairs are joined to one text.
split_path-path : (d b : Bytes) → trim_right d ≡ d → Lacks slash b → split_path (join d b) ≡ (d, b)
unfolding split_path is_empty trim_right
split_path-path [] b h l = ground (arith, join-trim [] b, file_split-Lacks b l)
split_path-path (c ∷ d) b h l = elim (Bool-cases (is_empty (trim_right (c ∷ d)))) [
  | inr e ↦ split_path-join (c ∷ d) b e l ∙ ap (λ a. (a, b)) h
  | inl e ↦ absurd (ground (arith, h, e))
]

module _ (I : Inodes) (ro : ReadOnly) where
  unfoldable pub resolves_below : ℕ → Bytes → MemUnionFs I.Table → Bool
  resolves_below p name s =
      shows_original I ro p s
      && not (has (path_of I ro p name s) s.deleted)
      && not (is_some (ro.get_attr (path_of I ro p name s)).0)

  unfoldable pub view : ℕ → MemUnionFs I.Table → Bytes → Option Source
  view p s name = elim (lookup name (I.children p s.table)) [
    | some c ↦ some (child c)
    | none ↦ if resolves_below p name s then some (below (path_of I ro p name s)) else none
  ]

  -- The listing of a directory below has the names that resolve there.
  abbrev pub Lists : Bytes → Type 0
  Lists dir =
      (name : Bytes)
      → Lacks slash name
      → has name (ro.open_dir dir) ≡ not (is_some (ro.get_attr (join dir name)).0)

  has-hide_deleted :
      (dir m : Bytes) (deleted : Dict Bytes Bool) (stream : List (Bytes × ℕ))
      → has m (hide_deleted I ro dir deleted stream)
        ≡ (has m stream && not (has (join dir m) deleted))
  unfolding hide_deleted has lookup
  has-hide_deleted dir m deleted [] = refl
  has-hide_deleted dir m deleted ((name, mode) ∷ stream) = ground (
    arith,
    has-hide_deleted dir m deleted stream,
    bytes_iff m name,
    has-insert m name mode (hide_deleted I ro dir deleted stream),
  )

  pub has-with_children :
      (nodes : ℕ → MemNode) (m : Bytes) (children ch : Dict Bytes ℕ)
      → has m (with_children I ro nodes children ch) ≡ (has m children || has m ch)
  unfolding with_children has lookup
  has-with_children nodes m [] ch = refl
  has-with_children nodes m ((name, c) ∷ children) ch = ground (
    arith,
    has-with_children nodes m children ch,
    bytes_iff m name,
    has-insert m name (nodes c).info.mode (with_children I ro nodes children ch),
  )

  -- `OpenDir` lists the names that stand for something, and no others.
  pub open_dir-view :
      (p : ℕ) (s : MemUnionFs I.Table) (m : Bytes)
      → Lists (s.nodes p).original
      → Lacks slash m
      → has m (open_dir I ro p s) ≡ is_some (view p s m)
  unfolding open_dir view resolves_below path_of has
  open_dir-view p s m l lm = ground (
    arith,
    l m lm,
    has-with_children s.nodes m (I.children p s.table) (
        if shows_original I ro p s
        then hide_deleted I ro (s.nodes p).original s.deleted (ro.open_dir (s.nodes p).original)
        else []),
    has-hide_deleted (s.nodes p).original m s.deleted (ro.open_dir (s.nodes p).original),
  )

  -- The directories are two, unless they show the same path below.
  abbrev pub Apart : ℕ → ℕ → MemUnionFs I.Table → Type 0
  Apart p q s =
      shows_original I ro p s ≡ true
      → shows_original I ro q s ≡ true
      → (s.nodes p).original ≡ (s.nodes q).original
      → p ≡ q

  -- What the view depends on.
  pub record Kept (q : ℕ) (s s' : MemUnionFs I.Table) : Type 0 where
    pub same_original : (s'.nodes q).original ≡ (s.nodes q).original
    pub same_root : s'.root ≡ s.root

  pub view-put :
      (q p c : ℕ) (m name : Bytes) (s s' : MemUnionFs I.Table)
      → Kept q s s'
      → s'.deleted ≡ s.deleted
      → lookup m (I.children q s'.table)
        ≡ (if q == p && m == name then some c else lookup m (I.children q s.table))
      → view q s' m ≡ (if q == p && m == name then some (child c) else view q s m)
  unfolding view resolves_below path_of shows_original
  view-put q p c m name s s' k d e = ground (arith, k.same_original, k.same_root, d, e)

  path_of-Kept :
      (q : ℕ) (m : Bytes) (s s' : MemUnionFs I.Table)
      → Kept q s s'
      → path_of I ro q m s' ≡ path_of I ro q m s
  unfolding path_of
  path_of-Kept q m s s' k = ap (λ o. join o m) k.same_original

  shows_original-Kept :
      (q : ℕ) (s s' : MemUnionFs I.Table)
      → Kept q s s'
      → shows_original I ro q s' ≡ shows_original I ro q s
  unfolding shows_original
  shows_original-Kept q s s' k = ground (arith, k.same_original, k.same_root)

  has-mark_deleted :
      (p : ℕ) (x name : Bytes) (s : MemUnionFs I.Table)
      → has x (mark_deleted I ro p name s).deleted
        ≡ (if shows_original I ro p s && x == path_of I ro p name s then true else has x s.deleted)
  unfolding mark_deleted
  has-mark_deleted p x name s = ground (arith, has-insert x (path_of I ro p name s) true s.deleted)

  pub view-same :
      (q : ℕ) (m : Bytes) (s s' : MemUnionFs I.Table)
      → Kept q s s'
      → s'.deleted ≡ s.deleted
      → I.children q s'.table ≡ I.children q s.table
      → view q s' m ≡ view q s m
  unfolding view resolves_below path_of shows_original
  view-same q m s s' k d e = ground (arith, k.same_original, k.same_root, d, e)

  -- No other name shows the path that is marked.
  abbrev pub Distinct : (q p : ℕ) (m name : Bytes) → MemUnionFs I.Table → Type 0
  Distinct q p m name s =
      path_of I ro q m s ≡ path_of I ro p name s
      → shows_original I ro p s ≡ true
      → shows_original I ro q s ≡ true
      → (q ≡ p) × (m ≡ name)

  pub resolves_below-drop :
      (q p : ℕ) (m name : Bytes) (s s' : MemUnionFs I.Table)
      → Kept q s s'
      → s'.deleted ≡ (mark_deleted I ro p name s).deleted
      → Distinct q p m name s
      → resolves_below q m s' ≡ (if q == p && m == name then false else resolves_below q m s)
  unfolding resolves_below
  resolves_below-drop q p m name s s' k d a = ground (
    arith,
    a,
    d,
    path_of-Kept q m s s' k,
    shows_original-Kept q s s' k,
    has-mark_deleted p (path_of I ro q m s) name s,
    bytes_iff (path_of I ro q m s) (path_of I ro p name s),
    bytes_iff m name,
  )

  pub view-drop :
      (q p : ℕ) (m name : Bytes) (s s' : MemUnionFs I.Table)
      → Kept q s s'
      → resolves_below q m s' ≡ (if q == p && m == name then false else resolves_below q m s)
      → lookup m (I.children q s'.table)
        ≡ (if q == p && m == name then none else lookup m (I.children q s.table))
      → view q s' m ≡ (if q == p && m == name then none else view q s m)
  unfolding view path_of
  view-drop q p m name s s' k r e = ground (arith, k.same_original, r, e)

  -- Paths without slashes at their ends and names without slashes, in directories that are apart.
  pub Apart-Distinct :
      (q p : ℕ) (m name : Bytes) (s : MemUnionFs I.Table)
      → Apart q p s
      → trim_right (s.nodes p).original ≡ (s.nodes p).original
      → trim_right (s.nodes q).original ≡ (s.nodes q).original
      → Lacks slash m
      → Lacks slash name
      → Distinct q p m name s
  unfolding path_of
  Apart-Distinct q p m name s a hp hq lm ln e sp sq =
      let split : ((s.nodes q).original, m) ≡ ((s.nodes p).original, name) =
        sym (split_path-path (s.nodes q).original m hq lm)
        ∙ ap split_path e
        ∙ split_path-path (s.nodes p).original name hp ln in
      (a sq sp (ap (λ (d, b). d) split), ap (λ (d, b). b) split)
