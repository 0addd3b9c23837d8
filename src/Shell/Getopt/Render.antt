-- ===== src/Shell/Getopt/Render.antt =====
-- Options that are written out as arguments, read back.
use termite.Base.{
  ℕ, ◌≡◌, ◌≢◌, refl, ap, ◌∙◌, Bytes, codes, Bool, true, false, List, [], ◌∷◌, ◌++◌, none, some,
  nat_eq, bytes_eq, bytes_beq, bytes_iff, Dict, insert, has, is_empty, has_prefix, arith,
  append_assoc, Lacks,
}
use termite.Shell.Getopt.{
  GetoptResult, Reading, dash, equals, split_equals, set_long, set_short, read_long, read_shorts,
  is_long, is_short, with_args, read_args, options, getopt,
}

-- The ways to write an option: `--name`, `--name=value`, `--name value`, `-abc`, `-ovalue`, `-o value`.
pub data Opt : Type 0 where
  flag : Bytes → Opt
  assigned : Bytes → Bytes → Opt
  spaced : Bytes → Bytes → Opt
  letters : ℕ → Bytes → Opt
  attached : ℕ → Bytes → Opt
  apart : ℕ → Bytes → Opt

unfoldable pub render : Opt → List Bytes
render (flag name) = (dash ∷ dash ∷ name) ∷ []
render (assigned name value) = (dash ∷ dash ∷ name ++ equals ∷ value) ∷ []
render (spaced name value) = (dash ∷ dash ∷ name) ∷ value ∷ []
render (letters o os) = (dash ∷ o ∷ os) ∷ []
render (attached o value) = (dash ∷ o ∷ value) ∷ []
render (apart o value) = (dash ∷ o ∷ []) ∷ value ∷ []

abbrev pub without_argument : Bytes → GetoptResult → GetoptResult
without_argument [] r = r
without_argument (o ∷ os) r = without_argument os (record r { short = insert o [] r.short })

unfoldable pub add : Opt → GetoptResult → GetoptResult
add (flag name) r = record r { long = insert name [] r.long }
add (assigned name value) r = record r { long = insert name value r.long }
add (spaced name value) r = record r { long = insert name value r.long }
add (letters o os) r = without_argument (o ∷ os) r
add (attached o value) r = record r { short = insert o value r.short }
add (apart o value) r = record r { short = insert o value r.short }

abbrev pub AllFlags : Dict ℕ ℕ → Bytes → Type 0
AllFlags sh [] = Unit {0}
AllFlags sh (o ∷ os) = (has o sh ≡ false) × AllFlags sh os

unfoldable pub render_all : List Opt → List Bytes
render_all [] = []
render_all (o ∷ os) = render o ++ render_all os

unfoldable pub add_all : List Opt → GetoptResult → GetoptResult
add_all [] r = r
add_all (o ∷ os) r = add_all os (add o r)

-- Which options can be written so, given which take an argument.
abbrev pub CanRender : Dict Bytes ℕ → Dict ℕ ℕ → Opt → Type 0
CanRender lo sh (flag name) = (is_empty name ≡ false) × Lacks equals name × (has name lo ≡ false)
CanRender lo sh (assigned name value) = Lacks equals name × (has name lo ≡ true)
CanRender lo sh (spaced name value) =
    (is_empty name ≡ false) × Lacks equals name × (has name lo ≡ true)
CanRender lo sh (letters o os) = (o ≢ dash) × AllFlags sh (o ∷ os)
CanRender lo sh (attached o value) = (o ≢ dash) × (is_empty value ≡ false) × (has o sh ≡ true)
CanRender lo sh (apart o value) = (o ≢ dash) × (o ≢ 0) × (has o sh ≡ true)

abbrev pub AllRender : Dict Bytes ℕ → Dict ℕ ℕ → List Opt → Type 0
AllRender lo sh [] = Unit {0}
AllRender lo sh (o ∷ os) = CanRender lo sh o × AllRender lo sh os

abbrev pub reading : GetoptResult → Reading
reading r = record { r = r; next_long = []; next_short = 0 }

split_equals-Lacks : (name : Bytes) → Lacks equals name → split_equals name ≡ none
unfolding split_equals
split_equals-Lacks [] l = refl
split_equals-Lacks (c ∷ name) l = ground (arith, split_equals-Lacks name)

split_equals-append :
    (name value : Bytes)
    → Lacks equals name
    → split_equals (name ++ equals ∷ value) ≡ some (name, value)
unfolding split_equals
split_equals-append [] value l = refl
split_equals-append (c ∷ name) value l = ground (arith, split_equals-append name value)

read_shorts-flags :
    (sh : Dict ℕ ℕ) (os : Bytes) (r : GetoptResult)
    → AllFlags sh os
    → read_shorts sh os (reading r) ≡ reading (without_argument os r)
unfolding read_shorts set_short
read_shorts-flags sh [] r l = refl
read_shorts-flags sh (o ∷ os) r (h, l) =
    ground (arith, read_shorts-flags sh os (record r { short = insert o [] r.short }) l)

module _ (lo : Dict Bytes ℕ) (sh : Dict ℕ ℕ) (re : Bool) where
  long-step :
      (c : ℕ) (name : Bytes) (rest : List Bytes) (r : GetoptResult)
      → read_args lo sh re ((dash ∷ dash ∷ c ∷ name) ∷ rest) (reading r)
        ≡ read_args lo sh re rest (read_long lo (c ∷ name) (reading r))
  unfolding read_args is_long has_prefix is_empty
  long-step c name rest r = ground (arith, bytes_iff (dash ∷ dash ∷ c ∷ name) (dash ∷ dash ∷ []))

  short-step :
      (o : ℕ) (os : Bytes) (rest : List Bytes) (r : GetoptResult)
      → o ≢ dash
      → read_args lo sh re ((dash ∷ o ∷ os) ∷ rest) (reading r)
        ≡ read_args lo sh re rest (read_shorts sh (o ∷ os) (reading r))
  unfolding read_args is_long is_short has_prefix is_empty
  short-step o os rest r h = ground (arith, bytes_iff (dash ∷ o ∷ os) (dash ∷ dash ∷ []))

  value-step :
      (c : ℕ) (name value : Bytes) (rest : List Bytes) (r : GetoptResult)
      → read_args lo sh re (value ∷ rest) (record (reading r) { next_long = c ∷ name })
        ≡ read_args lo sh re rest (reading (record r { long = insert (c ∷ name) value r.long }))
  unfolding read_args set_long is_empty
  value-step c name value rest r = refl

  short_value-step :
      (o : ℕ) (value : Bytes) (rest : List Bytes) (r : GetoptResult)
      → o ≢ 0
      → read_args lo sh re (value ∷ rest) (record (reading r) { next_short = o })
        ≡ read_args lo sh re rest (reading (record r { short = insert o value r.short }))
  unfolding read_args set_short is_empty
  short_value-step o value rest r h = ground arith

  read_args-Opt :
      (o : Opt) (rest : List Bytes) (r : GetoptResult)
      → CanRender lo sh o
      → read_args lo sh re (render o ++ rest) (reading r)
        ≡ read_args lo sh re rest (reading (add o r))
  unfolding render add read_long set_long set_short is_empty read_shorts
  read_args-Opt (flag []) rest r h = absurd (cc)
  read_args-Opt (flag (c ∷ name)) rest r (h, l, n) =
      ground (arith, long-step c name rest r, split_equals-Lacks (c ∷ name) l)
  read_args-Opt (assigned [] value) rest r (l, h) =
      ground (arith, long-step equals value rest r, split_equals-append [] value l)
  read_args-Opt (assigned (c ∷ name) value) rest r (l, h) =
      ground
        (arith, long-step c (name ++ equals ∷ value) rest r, split_equals-append (c ∷ name) value l)
  read_args-Opt (spaced [] value) rest r h = absurd (cc)
  read_args-Opt (spaced (c ∷ name) value) rest r (e, l, h) = ground (
    arith,
    long-step c name (value ∷ rest) r,
    split_equals-Lacks (c ∷ name) l,
    value-step c name value rest r,
  )
  read_args-Opt (letters o os) rest r (d, l) =
      short-step o os rest r d ∙ ap (read_args lo sh re rest) (read_shorts-flags sh (o ∷ os) r l)
  read_args-Opt (attached o value) rest r (d, e, h) = ground (arith, short-step o value rest r)
  read_args-Opt (apart o value) rest r (d, z, h) =
      ground (arith, short-step o [] (value ∷ rest) r, short_value-step o value rest r)

  read_args-render :
      (os : List Opt) (args : List Bytes) (r : GetoptResult)
      → AllRender lo sh os
      → read_args lo sh re (render_all os ++ args) (reading r)
        ≡ read_args lo sh re args (reading (add_all os r))
  unfolding render_all add_all
  read_args-render [] args r h = refl
  read_args-render (o ∷ os) args r (h, hs) =
      rw (append_assoc (render o) (render_all os) args, read_args-Opt o (render_all os ++ args) r h)
        (read_args-render os args (add o r) hs)

abbrev empty_result : GetoptResult
empty_result = record { long = []; short = []; args = [] }

-- Options that are written in any of the six ways, each in one that suits its name and whether it
-- takes an argument, in any order, and then `--`, are read back: the result has what each option
-- sets, in order, and what follows `--` as its arguments, whether or not arguments are reordered.
pub getopt-render :
    (long_take_arg : List Bytes) (short_take_arg : Bytes) (reorder : Bool) (os : List Opt)
    (args : List Bytes)
    → AllRender (options long_take_arg) (options short_take_arg) os
    → getopt (render_all os ++ codes "--" ∷ args) long_take_arg short_take_arg reorder
      ≡ record (add_all os empty_result) { args = args }
unfolding getopt with_args read_args is_empty bytes_beq
getopt-render la sa reorder os args h =
    read_args-render (options la) (options sa) reorder os (codes "--" ∷ args) empty_result h ∙ refl
