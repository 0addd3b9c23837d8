-- ===== src/Shell/Command/Pieces.antt =====
-- The pieces that a word may be written in, and what the loop of `ParseCommand` makes of each.
use termite.Base.{
  ℕ, ◌<◌, ◌≡◌, refl, ap, ◌∙◌, Bytes, Bool, true, false, ◌||◌, [], ◌∷◌, ◌++◌, ◌==◌, nat_eq,
  append_assoc, arith, append-nil,
}
use termite.Shell.Command.{
  byte_of, Scan, quote, dquote, backslash, dollar, is_space, is_control, put, scan_plain,
  scan_double, scan_one, passed, scan,
}

-- A piece of a word: characters as they are, between quotes of either kind, or one after a backslash.
pub data Piece : Type 0 where
  plain : ℕ → Piece
  single : Bytes → Piece
  double : Bytes → Piece
  escaped : ℕ → Piece

unfoldable pub piece_text : Piece → Bytes
piece_text (plain c) = c ∷ []
piece_text (single s) = s
piece_text (double s) = s
piece_text (escaped c) = c ∷ []

abbrev pub written : Piece → Bytes
written (plain c) = c ∷ []
written (single s) = quote ∷ s ++ quote ∷ []
written (double s) = dquote ∷ s ++ dquote ∷ []
written (escaped c) = backslash ∷ c ∷ []

abbrev pub Free : (ℕ → Bool) → Bytes → Type 0
Free bad [] = Unit {0}
Free bad (c ∷ s) = (c < 128) × (bad c ≡ false) × Free bad s

unfoldable pub is_quote : ℕ → Bool
is_quote c = c == quote

unfoldable pub ends_double : ℕ → Bool
ends_double c = c == dquote || (c == backslash || c == dollar)

unfoldable pub is_special : ℕ → Bool
is_special c = (c == quote || (c == dquote || c == backslash)) || (is_control c || is_space c)

-- Which characters each quoting can hold, of those of ASCII.
abbrev pub CanHold : Piece → Type 0
CanHold (plain c) = (c < 128) × (is_special c ≡ false)
CanHold (single s) = Free is_quote s
CanHold (double s) = Free ends_double s
CanHold (escaped c) = (c < 128) × (is_space c ≡ false)

-- Between the pieces of a word.
pub record Outside (s : Scan) : Type 0 where
  pub escape : s.escape ≡ false
  pub in_single : s.in_single ≡ false
  pub in_double : s.in_double ≡ false

-- The state that has taken some more of a word, its last character not a space.
abbrev pub took : Bytes → Scan → Scan
took t s = record s { word = s.word ++ t; spaced = false }

byte_of-ascii : (c : ℕ) → c < 128 → byte_of c ≡ c
unfolding byte_of
byte_of-ascii c h = omega arith

plain-scan :
    (c : ℕ) (s : Scan) (rest : Bytes)
    → Outside s
    → (c < 128) × (is_special c ≡ false)
    → scan s (c ∷ rest) ≡ scan (took (c ∷ []) s) rest
unfolding scan scan_one scan_plain passed put is_special
plain-scan c s rest o (l, h) = ground (arith, byte_of-ascii c l, o.escape, o.in_single, o.in_double)

escaped-scan :
    (c : ℕ) (s : Scan) (rest : Bytes)
    → Outside s
    → (c < 128) × (is_space c ≡ false)
    → scan s (backslash ∷ c ∷ rest) ≡ scan (took (c ∷ []) s) rest
unfolding scan scan_one scan_plain passed put
escaped-scan c s rest o (l, h) = ground (
  arith,
  byte_of-ascii c l,
  byte_of-ascii backslash (omega arith),
  o.escape,
  o.in_single,
  o.in_double,
)

quote-dark : is_space quote ≡ false
unfolding is_space
quote-dark = refl

dquote-dark : is_space dquote ≡ false
unfolding is_space
dquote-dark = refl

inner-single :
    (t rest : Bytes) (s : Scan)
    → s.in_single ≡ true
    → Free is_quote t
    → scan s (t ++ quote ∷ rest)
      ≡ scan (record s { word = s.word ++ t; in_single = false; spaced = false }) rest
unfolding scan scan_one passed put is_quote
inner-single [] rest s o f = ground (
  arith,
  append-nil s.word,
  quote-dark,
  dquote-dark,
  byte_of-ascii quote (omega arith),
  byte_of-ascii dquote (omega arith),
)
inner-single (c ∷ t) rest s o (l, f, fs) =
    let later =
      inner-single t rest (record s { word = s.word ++ c ∷ []; spaced = is_space c }) o fs in
    ground (arith, byte_of-ascii c l, later, append_assoc s.word (c ∷ []) t)

inner-double :
    (t rest : Bytes) (s : Scan)
    → s.in_single ≡ false
    → s.in_double ≡ true
    → s.escape ≡ false
    → Free ends_double t
    → scan s (t ++ dquote ∷ rest)
      ≡ scan (record s { word = s.word ++ t; in_double = false; spaced = false }) rest
unfolding scan scan_one scan_double passed put ends_double
inner-double [] rest s o d e f = ground (
  arith,
  append-nil s.word,
  quote-dark,
  dquote-dark,
  byte_of-ascii quote (omega arith),
  byte_of-ascii dquote (omega arith),
)
inner-double (c ∷ t) rest s o d e (l, f, fs) =
    let later =
      inner-double t rest (record s { word = s.word ++ c ∷ []; spaced = is_space c }) o d e fs in
    ground (arith, byte_of-ascii c l, later, append_assoc s.word (c ∷ []) t)

single-scan :
    (t rest : Bytes) (s : Scan)
    → Outside s
    → Free is_quote t
    → scan s (quote ∷ t ++ quote ∷ rest) ≡ scan (took t s) rest
unfolding scan scan_one scan_plain passed
single-scan t rest s o f = ground (
  arith,
  quote-dark,
  dquote-dark,
  byte_of-ascii quote (omega arith),
  byte_of-ascii dquote (omega arith),
  inner-single t rest (record s { in_single = true; spaced = false }) refl f,
  o.escape,
  o.in_single,
  o.in_double,
)

double-scan :
    (t rest : Bytes) (s : Scan)
    → Outside s
    → Free ends_double t
    → scan s (dquote ∷ t ++ dquote ∷ rest) ≡ scan (took t s) rest
unfolding scan scan_one scan_plain passed
double-scan t rest s o f = ground (
  arith,
  quote-dark,
  dquote-dark,
  byte_of-ascii quote (omega arith),
  byte_of-ascii dquote (omega arith),
  inner-double t rest (record s { in_double = true; spaced = false }) o.in_single refl o.escape f,
  o.escape,
  o.in_single,
  o.in_double,
)

pub piece-scan :
    (p : Piece) (rest : Bytes) (s : Scan)
    → Outside s
    → CanHold p
    → scan s (written p ++ rest) ≡ scan (took (piece_text p) s) rest
unfolding piece_text
piece-scan (plain c) rest s o h = plain-scan c s rest o h
piece-scan (escaped c) rest s o h = escaped-scan c s rest o h
piece-scan (single t) rest s o h =
    ap (λ r. scan s (quote ∷ r)) (append_assoc t (quote ∷ []) rest) ∙ single-scan t rest s o h
piece-scan (double t) rest s o h =
    ap (λ r. scan s (dquote ∷ r)) (append_assoc t (dquote ∷ []) rest) ∙ double-scan t rest s o h
