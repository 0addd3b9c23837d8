-- ===== src/Shell/Command/Tests.antt =====
-- Examples for the command line.
use termite.Base.{◌≡◌, refl, arith, codes, List, [], ◌∷◌, some, is_empty}
use termite.Shell.Command.{
  byte_of, parse_command, scan, scan_one, scan_plain, passed, put, start, last_word, is_space,
  is_control, make_unescape, unescape, escape_regexp, escape_each, replace,
}
use termite.Shell.Command.Pieces.{
  plain, single, double, piece_text, is_special, is_quote, ends_double,
}
use termite.Shell.Command.Words.{Word, text, write_line, parse_command-write_line}

-- `a'x y' "b;"`
abbrev line : List Word
line = (plain 97 ∷ single (codes "x y") ∷ []) ∷ (double (codes "b;") ∷ []) ∷ []

parse_command-write_line_example :
    parse_command (write_line line) ≡ some (codes "ax y" ∷ codes "b;" ∷ [])
unfolding text piece_text is_special is_quote ends_double is_space is_control is_empty
parse_command-write_line_example = parse_command-write_line line (
  refl,
  ((omega arith, refl), ((omega arith, refl, (omega arith, refl, (omega arith, refl, tt))), tt)),
  (refl, ((omega arith, refl, (omega arith, refl, tt)), tt), tt),
)

-- A space behind a backslash that ends the line: the word is lost.
escaped_space_lost : parse_command (codes "a\\ ") ≡ some []
unfolding parse_command byte_of scan scan_one scan_plain passed put start last_word is_space
    is_control
escaped_space_lost = refl

-- A space behind a backslash, and one that separates: the words become one.
escaped_space_joined : parse_command (codes "a\\  b") ≡ some (codes "a b" ∷ [])
unfolding parse_command byte_of scan scan_one scan_plain passed put start last_word is_space
    is_control
escaped_space_joined = refl

-- The backslash of an escaped bracket is escaped itself.
bracket_escaped_twice : escape_regexp (codes "[") ≡ codes "\\\\["
unfolding escape_regexp escape_each replace
bracket_escaped_twice = refl

continued_line : make_unescape (codes "a\\\nb\\c") ≡ codes "ab\\c"
unfolding make_unescape unescape byte_of
continued_line = refl

-- A quoted letter with an accent, U+00E9, which is two bytes in the text, comes back as one.
accent_cut : parse_command (39 ∷ 0xe9 ∷ 39 ∷ []) ≡ some ((0xe9 ∷ []) ∷ [])
unfolding parse_command byte_of scan scan_one scan_plain passed put start last_word is_space
    is_control
accent_cut = refl
