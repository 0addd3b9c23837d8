-- ===== src/Shell/Command.antt =====
-- termite/misc.go: `ParseCommand`, `MakeUnescape`, `EscapeRegexp`, `IntToExponent`. The text of a
-- command that a loop reads is the runes that `range` yields, and what it appends are bytes: of a rune above 255
-- the lowest byte.
pub mod Pieces
pub mod Words
pub mod Exponent
mod Tests
use termite.Base.{
  ℕ, zero, suc, ◌/◌, ◌%◌, ◌^◌, Bytes, codes, Bool, true, false, ◌||◌, ◌&&◌, not, List, [], ◌∷◌,
  ◌++◌, Option, none, some, ◌==◌, nat_eq, ltb, if◌then◌else◌,
}

pub is_space : ℕ → Bool
is_space b = b == 32 || b == 10 || b == 12 || b == 9

pub is_control : ℕ → Bool
is_control b = mem b (codes "$><&|;*?(){}~`#")
  where
    mem : ℕ → Bytes → Bool
    mem b [] = false
    mem b (c ∷ cs) = b == c || mem b cs

abbrev pub quote : ℕ
quote = 39

abbrev pub dquote : ℕ
dquote = 34

abbrev pub backslash : ℕ
backslash = 92

abbrev pub dollar : ℕ
dollar = 36

-- `byte(ch)` of a rune
unfoldable pub byte_of : ℕ → ℕ
byte_of ch = ch % 256

-- The variables of `ParseCommand`; `spaced` says that there is no `cmd[i-1]` or that it is a space;
-- the last byte of a rune above 127 is none, and neither is the rune.
pub record Scan : Type 0 where
  pub escape : Bool
  pub in_single : Bool
  pub in_double : Bool
  pub word : Bytes
  pub result : List Bytes
  pub spaced : Bool

pub put : ℕ → Scan → Scan
put c s = record s { word = s.word ++ c ∷ [] }

-- One round of the loop; `none` is its `return nil`.
pub scan_plain : ℕ → Scan → Option Scan
scan_plain c s =
    if c == quote
    then some (record s { in_single = true })
    else if c == dquote
    then some (record s { in_double = true })
    else if c == backslash
    then some (record s { escape = true })
    else if is_control c
    then none
    else if is_space c
    then some (if s.spaced then s else record s { result = s.result ++ s.word ∷ []; word = [] })
    else some (put c s)

pub scan_double : ℕ → Scan → Option Scan
scan_double c s =
    if s.escape
    then some (record (put c s) { escape = false })
    else if c == dquote
    then some (record s { in_double = false })
    else if c == backslash
    then some (record s { escape = true })
    else if c == dollar
    then none
    else some (put c s)

pub scan_one : ℕ → Scan → Option Scan
scan_one c s =
    if s.in_single
    then some (if c == quote then record s { in_single = false } else put c s)
    else if s.in_double
    then scan_double c s
    else if s.escape
    then some (record (put c s) { escape = false })
    else scan_plain c s

pub passed : ℕ → Scan → Scan
passed c s = record s { spaced = is_space c }

pub scan : Scan → Bytes → Option Scan
scan s [] = some s
scan s (c ∷ cmd) = elim (scan_one (byte_of c) s) [ none ↦ none | some t ↦ scan (passed c t) cmd ]

pub start : Scan
start = record {
  escape = false;
  in_single = false;
  in_double = false;
  word = [];
  result = [];
  spaced = true;
}

pub last_word : Scan → List Bytes
last_word s = if s.spaced then s.result else s.result ++ s.word ∷ []

-- `none` for nil
pub parse_command : Bytes → Option (List Bytes)
parse_command cmd = elim (scan start cmd) [ none ↦ none | some s ↦ some (last_word s) ]

-- The loop of `MakeUnescape`; the Boolean is `lastSlash`. A backslash that ends the text is dropped.
pub unescape : Bool → Bytes → Bytes
unescape last_slash [] = []
unescape true (ch ∷ cmd) =
    let kept = unescape false cmd in
    if byte_of ch == 10 then kept else backslash ∷ byte_of ch ∷ kept
unescape false (ch ∷ cmd) =
    let kept = unescape false cmd in
    if byte_of ch == backslash then unescape true cmd else byte_of ch ∷ kept

pub make_unescape : Bytes → Bytes
make_unescape = unescape false

-- `strings.Replace` of one character by a backslash and itself
pub replace : ℕ → Bytes → Bytes
replace c [] = []
replace c (b ∷ s) = let rest = replace c s in if b == c then backslash ∷ b ∷ rest else b ∷ rest

pub escape_each : Bytes → Bytes → Bytes
escape_each [] s = s
escape_each (c ∷ special) s = escape_each special (replace c s)

pub escape_regexp : Bytes → Bytes
escape_regexp = escape_each (codes "[]()\\+*")

-- The loop of `IntToExponent`: how often `x` is halved before it is 1 or 0. The fuel is `z`.
pub halvings : ℕ → ℕ → ℕ
halvings zero x = 0
halvings (suc fuel) x = let rest = halvings fuel (x / 2) in if ltb 1 x then suc rest else 0

pub int_to_exponent : ℕ → ℕ
int_to_exponent z = let exp = halvings z z in if ltb (2 ^ exp) z then suc exp else exp
