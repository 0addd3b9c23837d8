-- ===== src/Paths.antt =====
-- Paths: `Join` of fastpath/path.go, `SplitPath` of attr/misc.go (termite/misc.go has the same
-- text) and `HasDirPrefix` of termite/misc.go.
pub mod Laws
use termite.Base.{
  ℕ, zero, suc, Bytes, Bool, true, false, ◌||◌, List, [], ◌∷◌, ◌++◌, Option, none, some, get_elem?,
  length, take, drop, ◌==◌, nat_eq, bytes_eq, if◌then◌else◌, slash, trim_right, has_prefix,
  file_split,
}

pub is_slash : Option ℕ → Bool
is_slash none = false
is_slash (some c) = c == slash

-- The loop over `end`. The argument is `end + 1`, which the code computes after the loop.
pub trim_end : Bytes → ℕ → ℕ
unfolding is_slash
trim_end a zero = 0
trim_end a (suc n) = if is_slash (get_elem? a n) then trim_end a n else suc n

-- The loop over `beg`, on what is left of `b`.
pub skip_slashes : ℕ → Bytes → ℕ
skip_slashes beg [] = beg
skip_slashes beg (c ∷ b) = if c == slash then skip_slashes (suc beg) b else beg

unfoldable pub join : Bytes → Bytes → Bytes
unfolding trim_end skip_slashes
join a b =
    let end = trim_end a (length a) in
    if end == 0 then b else take end a ++ slash ∷ drop (skip_slashes 0 b) b

unfoldable pub split_path : Bytes → Bytes × Bytes
split_path name = let (dir, base) = file_split name in (trim_right dir, base)

unfoldable pub has_dir_prefix : Bytes → Bytes → Bool
has_dir_prefix path prefix =
    let prefix' = trim_right prefix in
    let path' = trim_right path in path' == prefix' || has_prefix path' (prefix' ++ slash ∷ [])
