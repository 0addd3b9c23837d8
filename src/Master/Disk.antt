-- ===== src/Master/Disk.antt =====
-- The calls of package os that termite/master.go makes, on a disk without links to directories: what
-- is under each path, modes and times left out. Each call is `none` where it fails. The root "" is a
-- directory.
use termite.Base.{
  Bytes, Bool, true, false, not, ◌&&◌, ◌||◌, [], ◌∷◌, ◌++◌, Option, none, some, if◌then◌else◌, Dict,
  bytes_eq, lookup, insert, erase, has, is_empty, has_prefix, slash,
}
use termite.Paths.{split_path}

pub data Node : Type 0 where
  file : Bytes → Node
  directory : Node
  symlink : Bytes → Node

abbrev pub Disk : Type 0
Disk = Dict Bytes Node

unfoldable pub is_directory : Option Node → Bool
is_directory (some directory) = true
is_directory (some (file c)) = false
is_directory (some (symlink l)) = false
is_directory none = false

unfoldable pub has_parent : Bytes → Disk → Bool
unfolding is_directory
has_parent name d = let dir = (split_path name).0 in is_empty dir || is_directory (lookup dir d)

-- Something is below the path.
unfoldable pub is_occupied : Bytes → Disk → Bool
is_occupied name [] = false
is_occupied name ((p, _) ∷ d) = has_prefix p (name ++ slash ∷ []) || is_occupied name d

unfoldable pub mkdir : Bytes → Disk → Option Disk
unfolding has_parent
mkdir name d =
    if not (has name d) && has_parent name d then some (insert name directory d) else none

unfoldable pub remove : Bytes → Disk → Option Disk
unfolding is_occupied
remove name d = if has name d && not (is_occupied name d) then some (erase name d) else none

unfoldable pub make_symlink : Bytes → Bytes → Disk → Option Disk
unfolding has_parent
make_symlink link name d =
    if not (has name d) && has_parent name d then some (insert name (symlink link) d) else none

-- `Rename` from a path to a name that nothing has: what is taken away, and the disk without it.
unfoldable pub take_away : Bytes → Disk → Option (Node × Disk)
take_away name d = elim (lookup name d) [ none ↦ none | some n ↦ some (n, erase name d) ]

-- `Rename` from such a name to a path.
unfoldable pub put_at : Node → Bytes → Disk → Option Disk
unfolding has_parent is_directory
put_at n name d =
    if has_parent name d && not (is_directory (lookup name d)) then some (insert name n d) else none
