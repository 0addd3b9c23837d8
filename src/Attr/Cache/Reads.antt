-- ===== src/Attr/Cache/Reads.antt =====
-- A `Get` behind an update sees the update; a getter that fails blocks its name.
use termite.Base.{
  ◌≡◌, refl, ap, ◌∙◌, inl, inr, Bytes, Bool, true, false, ◌&&◌, [], ◌∷◌, Option, none, some, length,
  nat_eq, bytes_eq, bytes_iff, if◌then◌else◌, lookup, insert, lookup-insert_self, lookup-erase,
  is_empty, arith, Bool-cases, Option-cases,
}
use termite.Paths.{split_path}
use termite.Attr.FileAttr.{FileAttr, deleted, deletion, is_dir, copy, merge}
use termite.Attr.Cache.{
  Cache, child_mode, names_none, denied, local_get, list_names, list_in_parent, update_listed,
  update_one, got, waits, fetched, is_busy, get_here,
}
use termite.Attr.Cache.Update.{
  length-split_path, length_pos, dir-ne, entry_after, dir_after, update_one-lookup,
}

local_get-none :
    (c : Cache) (name : Bytes) (withdir : Bool)
    → is_empty name ≡ false
    → lookup name c.attributes ≡ none
    → local_get c name withdir
      ≡ denied (lookup (split_path name).0 c.attributes) name (split_path name).1
unfolding local_get
local_get-none c name withdir n e = ground arith

empty-parts : (s : Bytes) → is_empty s ≡ true → s ≡ []
unfolding is_empty
empty-parts [] e = refl
empty-parts (c ∷ s) e = cc

named-ne : (s : Bytes) → is_empty (split_path s).1 ≡ false → is_empty s ≡ false
named-ne s h = elim (Bool-cases (is_empty s)) [
  | inl e ↦ absurd (
      omega
        (arith, length-split_path s, length_pos (split_path s).1 h, ap length (empty-parts s e)))
  | inr e ↦ e
]

entry_after-deletion :
    (old : Option FileAttr) (r : FileAttr) → deletion r ≡ true → entry_after old r ≡ none
unfolding entry_after
entry_after-deletion old r gone = ground arith

-- The directory of a deleted path denies the name.
denied-dir_after :
    (c c' : Cache) (r d : FileAttr)
    → is_empty (split_path r.path).1 ≡ false
    → lookup (split_path r.path).0 c.attributes ≡ some d
    → deletion r ≡ true
    → update_one c r ≡ some c'
    → denied (some (dir_after d r)) r.path (split_path r.path).1 ≡ some (deleted r.path)
unfolding denied names_none child_mode dir_after list_names update_one list_in_parent update_listed
denied-dir_after c c' r d named cached gone u = elim (Option-cases d.names) [
  | inl bare ↦ absurd (ground arith)
  | inr (m, full) ↦ ground (
    arith,
    lookup-erase (split_path r.path).1 (split_path r.path).1 m,
    bytes_iff (split_path r.path).1 (split_path r.path).1,
  )
]

abbrev Same : FileAttr → FileAttr → Type 0
Same a r = (a.path ≡ r.path) × (a.attr ≡ r.attr) × (a.hash ≡ r.hash) × (a.link ≡ r.link)

merge-kept :
    (old r : FileAttr)
    → deletion r ≡ false
    → old.path ≡ r.path
    → (e : FileAttr) × (merge old r ≡ some e) × Same e r
unfolding merge
merge-kept old r stays q = (
  record r {
    names = if is_dir r then elim r.names [ none ↦ old.names | some m ↦ some m ] else none;
  },
  ground (arith, bytes_iff r.path old.path),
  (refl, refl, refl, refl),
)

entry_after-kept :
    (c : Cache) (r : FileAttr)
    → deletion r ≡ false
    → (is_dir r && names_none r) ≡ false
    → ((old : FileAttr) → lookup r.path c.attributes ≡ some old → old.path ≡ r.path)
    → (e : FileAttr) × (entry_after (lookup r.path c.attributes) r ≡ some e) × Same e r
unfolding entry_after
entry_after-kept c r stays whole keyed = elim (Option-cases (lookup r.path c.attributes)) [
  | inl q ↦ (r, ground arith, (refl, refl, refl, refl))
  | inr (old, q) ↦
      let (e, m, same) = merge-kept old r stays (keyed old q) in (e, ground arith, same)
]

-- A round of `update` that does not panic, with a deletion, at a path with a last component whose
-- directory is cached: a `Get` then answers from the cache that the file is not there.
pub local_get-deletion :
    (c c' : Cache) (r d : FileAttr) (withdir : Bool)
    → is_empty (split_path r.path).1 ≡ false
    → lookup (split_path r.path).0 c.attributes ≡ some d
    → deletion r ≡ true
    → update_one c r ≡ some c'
    → local_get c' r.path withdir ≡ some (deleted r.path)
local_get-deletion c c' r d withdir named cached gone u =
    let path = r.path in
    let dir = (split_path path).0 in
    let after = update_one-lookup c c' r named u d cached in
    local_get-none c' path withdir (named-ne path named) (
      ground (
        arith,
        after path,
        entry_after-deletion (lookup path c.attributes) r gone,
        bytes_iff path path,
      ))
    ∙ ap (λ o. denied o path (split_path path).1)
        (after dir ∙ ground (arith, bytes_iff dir path, bytes_iff dir dir, dir-ne path named))
    ∙ denied-dir_after c c' r d named cached gone u

-- A round of `update` that does not panic, with a file, or a directory that has its names, at a
-- path with a last component whose directory is cached, where what was cached under the path has
-- that path: a `Get` then answers from the cache with the attributes, the hash and the link of the
-- update.
pub local_get-update_one :
    (c c' : Cache) (r d : FileAttr) (withdir : Bool)
    → is_empty (split_path r.path).1 ≡ false
    → lookup (split_path r.path).0 c.attributes ≡ some d
    → deletion r ≡ false
    → (is_dir r && names_none r) ≡ false
    → ((old : FileAttr) → lookup r.path c.attributes ≡ some old → old.path ≡ r.path)
    → update_one c r ≡ some c'
    → (a : FileAttr) × (local_get c' r.path withdir ≡ some a)
      × (a.path ≡ r.path)
      × (a.attr ≡ r.attr)
      × (a.hash ≡ r.hash)
      × (a.link ≡ r.link)
unfolding local_get copy
local_get-update_one c c' r d withdir named cached stays whole keyed u =
    let after = update_one-lookup c c' r named u d cached in
    let (e, left, same) = entry_after-kept c r stays whole keyed in
    (
      copy e withdir,
      ground (arith, after r.path, bytes_iff r.path r.path),
      same.0,
      same.1,
      same.2,
      same.3,
    )

-- A getter that fails, for a name that is neither cached nor busy, leaves it busy and uncached:
-- `unsafeGet` answers that the file is not there, and from then on it waits at that name, whatever
-- a getter would say.
pub get_here-failed :
    (c : Cache) (name : Bytes) (withdir : Bool)
    → lookup name c.attributes ≡ none
    → is_busy (lookup name c.busy) ≡ false
    → (c' : Cache) × (get_here c name withdir none ≡ got c' (deleted name))
      × ((withdir' : Bool) (answer : Option FileAttr) → get_here c' name withdir' answer ≡ waits)
unfolding get_here fetched is_busy
get_here-failed c name withdir e b = (
  record c { busy = insert name true c.busy },
  ground arith,
  λ withdir' answer. ground (arith, lookup-insert_self name true c.busy),
)
