-- ===== src/Paths/Laws.antt =====
-- The index loops of `Join` against the text functions, and `SplitPath` as its inverse.
use termite.Base.{
  ℕ, zero, suc, ◌≡◌, refl, Bytes, true, false, [], ◌∷◌, ◌++◌, length, take, drop, ◌==◌, nat_eq,
  bytes_eq, if◌then◌else◌, arith, slash, is_empty, trim_left, trim_right, Lacks, trim_left-Lacks,
  bytes_iff, file_split-append, trim_right-snoc, trim_right_idem, trim_right-append, append_assoc,
  has_prefix-append,
}
use termite.Paths.{is_slash, trim_end, skip_slashes, join, split_path, has_dir_prefix}

trim_end-cons :
    (c : ℕ) (s : Bytes) (n : ℕ)
    → trim_end (c ∷ s) (suc n)
      ≡ (if trim_end s n == 0 then (if c == slash then 0 else 1) else suc (trim_end s n))
unfolding trim_end is_slash
trim_end-cons c s zero = ground arith
trim_end-cons c s (suc n) = ground (arith, trim_end-cons c s n)

trim_end-zero : (a : Bytes) → (trim_end a (length a) == 0) ≡ is_empty (trim_right a)
unfolding is_empty trim_right
trim_end-zero [] = unfold trim_end in refl
trim_end-zero (c ∷ s) = ground (arith, trim_end-cons c s (length s), trim_end-zero s)

take-trim_end : (s : Bytes) → take (trim_end s (length s)) s ≡ trim_right s
unfolding trim_right is_empty
take-trim_end [] = unfold trim_end in refl
take-trim_end (c ∷ s) =
    ground (arith, trim_end-cons c s (length s), take-trim_end s, trim_end-zero s)

skip_slashes-suc : (n : ℕ) (b : Bytes) → skip_slashes (suc n) b ≡ suc (skip_slashes n b)
unfolding skip_slashes
skip_slashes-suc n [] = refl
skip_slashes-suc n (c ∷ b) = ground (arith, skip_slashes-suc (suc n) b)

drop-skip_slashes : (b : Bytes) → drop (skip_slashes 0 b) b ≡ trim_left b
unfolding skip_slashes trim_left
drop-skip_slashes [] = refl
drop-skip_slashes (c ∷ b) = ground (arith, drop-skip_slashes b, skip_slashes-suc 0 b)

-- `Join` drops the slashes that end the first text and those that begin the second, and puts one
-- slash between what is left; if nothing is left of the first, the second is returned as it is.
pub join-trim :
    (a b : Bytes)
    → join a b ≡ (if is_empty (trim_right a) then b else trim_right a ++ slash ∷ trim_left b)
unfolding join
join-trim a b = ground (arith, trim_end-zero a, take-trim_end a, drop-skip_slashes b)

-- `SplitPath` undoes `Join` under a directory that is not made of slashes only: a last component
-- with no slash comes back as it was, and the directory without the slashes that end it.
pub split_path-join :
    (d b : Bytes)
    → is_empty (trim_right d) ≡ false
    → Lacks slash b
    → split_path (join d b) ≡ (trim_right d, b)
unfolding split_path
split_path-join d b h l = ground (
  arith,
  join-trim d b,
  trim_left-Lacks b l,
  file_split-append (trim_right d) b l,
  trim_right-snoc (trim_right d),
  trim_right_idem d,
)

is_empty-trim : (b : Bytes) → is_empty (trim_right (trim_left b)) ≡ is_empty (trim_left b)
unfolding is_empty trim_left trim_right
is_empty-trim [] = refl
is_empty-trim (c ∷ b) = ground (arith, is_empty-trim b)

is_empty-nil : (b : Bytes) → is_empty b ≡ true → b ≡ []
unfolding is_empty
is_empty-nil [] h = refl
is_empty-nil (c ∷ b) h = cc

trim_right-slash :
    (b : Bytes) → is_empty (trim_right b) ≡ false → trim_right (slash ∷ b) ≡ slash ∷ trim_right b
unfolding trim_right is_empty
trim_right-slash b h = ground arith

-- What `Join` makes under a directory, not made of slashes only, has that directory as prefix.
pub has_dir_prefix-join :
    (d b : Bytes) → is_empty (trim_right d) ≡ false → has_dir_prefix (join d b) d ≡ true
unfolding has_dir_prefix is_empty
has_dir_prefix-join d b h = ground (
  arith,
  join-trim d b,
  is_empty-trim b,
  trim_right_idem d,
  trim_right-snoc (trim_right d),
  trim_right-append (trim_right d) (slash ∷ trim_left b),
  is_empty-nil (trim_left b),
  trim_right-slash (trim_left b),
  bytes_iff (trim_right (join d b)) (trim_right d),
  has_prefix-append (trim_right d ++ slash ∷ []) (trim_right (trim_left b)),
  append_assoc (trim_right d) (slash ∷ []) (trim_right (trim_left b)),
)
