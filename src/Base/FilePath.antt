-- ===== src/Base/FilePath.antt =====
-- `Clean` and `Join` of Go's `path/filepath`, and `strings.Split` and `strings.Join` at slashes.
use termite.Base.Tests.{Bytes, codes, ◌==◌, if◌then◌else◌, nat_eq, bytes_eq}
use termite.Base.Strings.{slash, is_empty}
use Prim.Native.Nat.{ℕ}
use mathlib.Core.Bool.{Bool, true, false, ◌||◌}
use mathlib.Core.List.{List, [], ◌∷◌, ◌++◌}

-- A byte before a text that was split.
unfoldable pub onto_first : ℕ → List Bytes → List Bytes
onto_first c [] = (c ∷ []) ∷ []
onto_first c (s ∷ rest) = (c ∷ s) ∷ rest

-- `strings.Split(s, "/")`
unfoldable pub split_slash : Bytes → List Bytes
unfolding onto_first
split_slash [] = [] ∷ []
split_slash (c ∷ s) =
    let rest = split_slash s in if c == slash then [] ∷ rest else onto_first c rest

-- `strings.Join(components, "/")`
unfoldable pub join_slash : List Bytes → Bytes
join_slash [] = []
join_slash (s ∷ []) = s
join_slash (s ∷ t ∷ rest) = s ++ slash ∷ join_slash (t ∷ rest)

-- One component of a path that is cleaned; the last one that was kept stands first.
unfoldable pub clean_component : Bool → Bytes → List Bytes → List Bytes
unfolding is_empty
clean_component rooted s kept =
    if is_empty s || s == codes "."
    then kept
    else if s == codes ".."
    then up rooted kept
    else s ∷ kept
  where
    up : Bool → List Bytes → List Bytes
    up true [] = []
    up false [] = codes ".." ∷ []
    up rooted (t ∷ rest) = if t == codes ".." then codes ".." ∷ t ∷ rest else rest

unfoldable pub clean_components : Bool → List Bytes → List Bytes → List Bytes
unfolding clean_component
clean_components rooted [] kept = kept
clean_components rooted (s ∷ rest) kept =
    clean_components rooted rest (clean_component rooted s kept)

unfoldable pub reversed : List Bytes → List Bytes → List Bytes
reversed [] onto = onto
reversed (s ∷ rest) onto = reversed rest (s ∷ onto)

unfoldable pub is_rooted : Bytes → Bool
is_rooted [] = false
is_rooted (c ∷ s) = c == slash

-- `filepath.Clean`
unfoldable pub clean : Bytes → Bytes
unfolding clean_components reversed join_slash split_slash is_rooted is_empty
clean path =
    let rooted = is_rooted path in
    let text = join_slash (reversed (clean_components rooted (split_slash path) []) []) in
    if rooted then slash ∷ text else if is_empty text then codes "." else text

-- `filepath.Join` of two elements, of which the second is not empty
unfoldable pub file_join : Bytes → Bytes → Bytes
unfolding clean
file_join dir name = if is_empty dir then clean name else clean (dir ++ slash ∷ name)
