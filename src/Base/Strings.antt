-- ===== src/Base/Strings.antt =====
-- What the program uses of Go's `strings` and `path/filepath`, on byte strings.
use termite.Base.Tests.{Bytes, ltb, ◌==◌, if◌then◌else◌, nat_eq}
use termite.Base.Lists.{All}
use Prim.Native.Nat.{ℕ, zero, suc, ◌+◌, ◌-◌, ◌*◌, ◌<◌, ◌/◌, ◌%◌}
use mathlib.Core.Path.{◌≡◌, refl, sym, ap, ◌∙◌}
use mathlib.Core.Logic.{◌≢◌}
use mathlib.Core.Bool.{Bool, true, false, ◌&&◌}
use mathlib.Core.List.{List, [], ◌∷◌, ◌++◌}
use native.Mathlib.Omega.{arith}

abbrev pub slash : ℕ
slash = 0x2f

-- No byte of the text is the given one.
abbrev pub Lacks : ℕ → Bytes → Type 0
Lacks b = All (λ c. c ≢ b)

unfoldable pub is_empty {ℓ} : {A : Type ℓ} → List A → Bool
is_empty [] = true
is_empty (c ∷ s) = false

-- `strings.TrimLeft(s, "/")`
unfoldable pub trim_left : Bytes → Bytes
trim_left [] = []
trim_left (c ∷ s) = if c == slash then trim_left s else c ∷ s

-- `strings.TrimRight(s, "/")`
unfoldable pub trim_right : Bytes → Bytes
unfolding is_empty
trim_right [] = []
trim_right (c ∷ s) = let rest = trim_right s in if is_empty rest && c == slash then [] else c ∷ rest

-- `strings.HasPrefix(s, p)`
unfoldable pub has_prefix : Bytes → Bytes → Bool
has_prefix s [] = true
has_prefix [] (b ∷ p) = false
has_prefix (a ∷ s) (b ∷ p) = a == b && has_prefix s p

-- `filepath.Split`: the text up to the last slash, that slash included, and the rest.
unfoldable pub file_split : Bytes → Bytes × Bytes
unfolding is_empty
file_split [] = ([], [])
file_split (c ∷ s) =
    let (d, b) = file_split s in
    if is_empty d then (if c == slash then (c ∷ [], b) else ([], c ∷ b)) else (c ∷ d, b)

pub trim_left-Lacks : (s : Bytes) → Lacks slash s → trim_left s ≡ s
unfolding trim_left
trim_left-Lacks [] h = refl
trim_left-Lacks (c ∷ s) h = ground arith

pub file_split-Lacks : (s : Bytes) → Lacks slash s → file_split s ≡ ([], s)
unfolding file_split is_empty
file_split-Lacks [] h = refl
file_split-Lacks (c ∷ s) h = ground (arith, file_split-Lacks s h.1)

-- The last component is split off at its slash.
pub file_split-append :
    (d b : Bytes) → Lacks slash b → file_split (d ++ slash ∷ b) ≡ (d ++ slash ∷ [], b)
unfolding file_split is_empty
file_split-append [] b h = ground (arith, file_split-Lacks b h)
file_split-append (c ∷ []) b h = ground (arith, file_split-append [] b h)
file_split-append (c ∷ c' ∷ d) b h = ground (arith, file_split-append (c' ∷ d) b h)

pub trim_right-snoc : (s : Bytes) → trim_right (s ++ slash ∷ []) ≡ trim_right s
unfolding trim_right is_empty
trim_right-snoc [] = ground arith
trim_right-snoc (c ∷ s) = ground (arith, trim_right-snoc s)

pub trim_right_idem : (s : Bytes) → trim_right (trim_right s) ≡ trim_right s
unfolding trim_right is_empty
trim_right_idem [] = refl
trim_right_idem (c ∷ s) = ground (arith, trim_right_idem s)

pub trim_right-append :
    (s t : Bytes) → is_empty (trim_right t) ≡ false → trim_right (s ++ t) ≡ s ++ trim_right t
unfolding trim_right is_empty
trim_right-append [] t h = refl
trim_right-append (x ∷ []) t h = ground (arith, trim_right-append [] t h)
trim_right-append (x ∷ y ∷ s) t h = ground (arith, trim_right-append (y ∷ s) t h)

pub has_prefix-append : (p s : Bytes) → has_prefix (p ++ s) p ≡ true
unfolding has_prefix
has_prefix-append [] s = refl
has_prefix-append (a ∷ p) s = ground (arith, has_prefix-append p s)

digits_of : ℕ → ℕ → Bytes
digits_of zero n = []
digits_of (suc fuel) n =
    let rest = digits_of fuel (n / 10) in
    if ltb n 10 then (0x30 + n) ∷ [] else rest ++ (0x30 + n % 10) ∷ []

-- `%d` of a number that is not negative.
unfoldable pub decimal : ℕ → Bytes
unfolding digits_of
decimal n = digits_of (suc n) n

-- What a text of digits stands for.
value_from : ℕ → Bytes → ℕ
value_from n [] = n
value_from n (c ∷ s) = value_from (n * 10 + (c - 0x30)) s

value_from-append : (n : ℕ) (s t : Bytes) → value_from n (s ++ t) ≡ value_from (value_from n s) t
unfolding value_from
value_from-append n [] t = refl
value_from-append n (c ∷ s) t = value_from-append (n * 10 + (c - 0x30)) s t

value_from-digits_of : (fuel n : ℕ) → n < fuel → value_from 0 (digits_of fuel n) ≡ n
unfolding value_from digits_of
value_from-digits_of zero n h = elim h [ ]
value_from-digits_of (suc fuel) n h = ground (
  arith,
  value_from-append 0 (digits_of fuel (n / 10)) ((0x30 + n % 10) ∷ []),
  value_from-digits_of fuel (n / 10),
)

pub decimal-injective : (m n : ℕ) → decimal m ≡ decimal n → m ≡ n
unfolding decimal
decimal-injective m n e =
    sym (value_from-digits_of (suc m) m (omega arith))
    ∙ ap (value_from 0) e
    ∙ value_from-digits_of (suc n) n (omega arith)
