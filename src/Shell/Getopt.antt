-- ===== src/Shell/Getopt.antt =====
-- termite/getopt.go. Arguments are ASCII, where the rune that `range` yields is the byte.
pub mod Render
mod Tests
use termite.Base.{
  ℕ, suc, Bytes, codes, Bool, true, false, ◌||◌, ◌&&◌, not, List, [], ◌∷◌, ◌++◌, Option, none, some,
  ◌==◌, nat_eq, bytes_eq, ltb, if◌then◌else◌, Dict, insert, has, is_empty, has_prefix, drop, length,
}

pub record GetoptResult : Type 0 where
  pub long : Dict Bytes Bytes
  pub short : Dict ℕ Bytes
  pub args : List Bytes

pub has_long : GetoptResult → Bytes → Bool
has_long r name = has name r.long

pub has_short : GetoptResult → ℕ → Bool
has_short r name = has name r.short

pub has_options : GetoptResult → Bool
has_options r = ltb 0 (length r.short) || ltb 0 (length r.long)

abbrev pub dash : ℕ
dash = 45

abbrev pub equals : ℕ
equals = 61

-- `strings.SplitN(name, "=", 2)`, `none` for a name without `=`
pub split_equals : Bytes → Option (Bytes × Bytes)
split_equals [] = none
split_equals (c ∷ s) =
    let later = split_equals s in
    if c == equals
    then some ([], s)
    else elim later [ none ↦ none | some (name, value) ↦ some (c ∷ name, value) ]

-- What the options that take an argument are, and `r`, `nextLongArg` ([] for "") and `nextShortArg`.
pub record Reading : Type 0 where
  pub r : GetoptResult
  pub next_long : Bytes
  pub next_short : ℕ

pub set_long : Bytes → Bytes → Reading → Reading
set_long name value g = record g { r = record g.r { long = insert name value g.r.long } }

pub set_short : ℕ → Bytes → Reading → Reading
set_short o value g = record g { r = record g.r { short = insert o value g.r.short } }

pub read_long : Dict Bytes ℕ → Bytes → Reading → Reading
read_long long_opts name g = elim (split_equals name) [
  | some (key, value) ↦ if has key long_opts then set_long key value g else set_long name [] g
  | none ↦ if has name long_opts then record g { next_long = name } else set_long name [] g
]

-- The loop over the letters behind one dash.
pub read_shorts : Dict ℕ ℕ → Bytes → Reading → Reading
read_shorts sh_opts [] g = g
read_shorts sh_opts (o ∷ a) g =
    let later = read_shorts sh_opts a (set_short o [] g) in
    if has o sh_opts
    then (if is_empty a then record g { next_short = o } else set_short o a g)
    else later

pub is_long : Bytes → Bool
is_long a = ltb 2 (length a) && has_prefix a (codes "--")

pub is_short : Bytes → Bool
is_short a = ltb 1 (length a) && has_prefix a (codes "-")

pub with_args : List Bytes → Reading → GetoptResult
with_args args g = record g.r { args = args }

pub read_args : Dict Bytes ℕ → Dict ℕ ℕ → Bool → List Bytes → Reading → GetoptResult
read_args long_opts sh_opts reorder [] g = g.r
read_args long_opts sh_opts reorder (a ∷ args) g =
    let go = read_args long_opts sh_opts reorder args in
    if not (is_empty g.next_long)
    then go (record (set_long g.next_long a g) { next_long = [] })
    else if not (g.next_short == 0)
    then go (record (set_short g.next_short a g) { next_short = 0 })
    else if a == codes "--"
    then with_args args g
    else if is_long a
    then go (read_long long_opts (drop 2 a) g)
    else if is_short a
    then go (read_shorts sh_opts (drop 1 a) g)
    else if reorder
    then go (record g { r = record g.r { args = g.r.args ++ a ∷ [] } })
    else with_args (a ∷ args) g

pub options : {K : Type 0} → List K → Dict K ℕ
options [] = []
options (v ∷ vs) = (v, 1) ∷ options vs

pub getopt : List Bytes → List Bytes → Bytes → Bool → GetoptResult
getopt args long_take_arg short_take_arg reorder =
    read_args (options long_take_arg) (options short_take_arg) reorder args
      (record { r = record { long = []; short = []; args = [] }; next_long = []; next_short = 0 })
