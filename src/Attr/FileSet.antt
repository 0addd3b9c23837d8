-- ===== src/Attr/FileSet.antt =====
-- attr/fileset.go: the order in which the changes of a task are applied.
pub mod Laws
pub mod Sorted
mod Tests
use termite.Base.{
  ℕ, Bytes, Bool, true, false, not, ◌&&◌, List, [], ◌∷◌, ltb, ◌==◌, nat_eq, if◌then◌else◌,
}
use termite.Attr.FileAttr.{FileAttr, deletion}

-- `a < b` on strings: byte by byte.
pub str_lt : Bytes → Bytes → Bool
str_lt s [] = false
str_lt [] (b ∷ t) = true
str_lt (a ∷ s) (b ∷ t) = if a == b then str_lt s t else ltb a b

pub less : FileAttr → FileAttr → Bool
less a b =
    if deletion a
    then (if deletion b then str_lt b.path a.path else true)
    else if deletion b
    then false
    else str_lt a.path b.path

unfoldable pub insert_sorted : FileAttr → List FileAttr → List FileAttr
unfolding less str_lt
insert_sorted a [] = a ∷ []
insert_sorted a (b ∷ l) = if less b a then b ∷ insert_sorted a l else a ∷ b ∷ l

-- `sort.Sort`. Where no two of the files agree in path and deletion, every sorting gives this list.
unfoldable pub sort : List FileAttr → List FileAttr
unfolding insert_sorted
sort [] = []
sort (a ∷ l) = insert_sorted a (sort l)
