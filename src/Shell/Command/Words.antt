-- ===== src/Shell/Command/Words.antt =====
-- A command line that is written down with any mix of quotings, read back.
use termite.Base.{
  ◌≡◌, refl, ap, ◌∙◌, Bytes, false, List, [], ◌∷◌, ◌++◌, map, none, some, nat_eq, is_empty,
  append_assoc, arith, append-nil,
}
use termite.Shell.Command.{
  Scan, byte_of, is_space, is_control, scan_plain, scan_one, passed, scan, start, last_word,
  parse_command,
}
use termite.Shell.Command.Pieces.{Piece, piece_text, written, CanHold, Outside, took, piece-scan}

abbrev pub Word : Type 0
Word = List Piece

unfoldable pub text : Word → Bytes
text [] = []
text (p ∷ w) = piece_text p ++ text w

pub write : Word → Bytes
write [] = []
write (p ∷ w) = written p ++ write w

abbrev pub Holds : Word → Type 0
Holds [] = Unit {0}
Holds (p ∷ w) = CanHold p × Holds w

-- A space before each word but the first.
pub write_rest : List Word → Bytes
write_rest [] = []
write_rest (w ∷ ws) = 32 ∷ write w ++ write_rest ws

pub write_line : List Word → Bytes
write_line [] = []
write_line (w ∷ ws) = write w ++ write_rest ws

-- A word has a piece at least; `""` writes the empty one.
abbrev pub AllHold : List Word → Type 0
AllHold [] = Unit {0}
AllHold (w ∷ ws) = (is_empty w ≡ false) × Holds w × AllHold ws

took-Outside : (t : Bytes) (s : Scan) → Outside s → Outside (took t s)
took-Outside t s o = record { escape = o.escape; in_single = o.in_single; in_double = o.in_double }

tail-scan :
    (w : Word) (rest : Bytes) (s : Scan)
    → Outside s
    → s.spaced ≡ false
    → Holds w
    → scan s (write w ++ rest) ≡ scan (took (text w) s) rest
unfolding write text
tail-scan [] rest s o q h = ground (arith, append-nil s.word)
tail-scan (p ∷ w) rest s o q (h, hs) =
    rw
      (
        append_assoc (written p) (write w) rest,
        piece-scan p (write w ++ rest) s o h,
        tail-scan w rest (took (piece_text p) s) (took-Outside (piece_text p) s o) refl hs,
        append_assoc s.word (piece_text p) (text w),
      )
      refl

word-scan :
    (w : Word) (rest : Bytes) (s : Scan)
    → Outside s
    → is_empty w ≡ false
    → Holds w
    → scan s (write w ++ rest) ≡ scan (took (text w) s) rest
unfolding write text is_empty
word-scan [] rest s o q h = cc
word-scan (p ∷ w) rest s o q (h, hs) =
    rw
      (
        append_assoc (written p) (write w) rest,
        piece-scan p (write w ++ rest) s o h,
        tail-scan w rest (took (piece_text p) s) (took-Outside (piece_text p) s o) refl hs,
        append_assoc s.word (piece_text p) (text w),
      )
      refl

-- The state behind the last character of a word.
abbrev after : List Bytes → Bytes → Scan
after done word = record start { result = done; word = word; spaced = false }

space-scan :
    (done : List Bytes) (word rest : Bytes)
    → scan (after done word) (32 ∷ rest) ≡ scan (record start { result = done ++ word ∷ [] }) rest
unfolding scan scan_one scan_plain passed start is_control is_space byte_of
space-scan done word rest = refl

start-Outside : {r : List Bytes} → Outside (record start { result = r })
unfolding start
start-Outside = record { escape = refl; in_single = refl; in_double = refl }

took-start :
    (w : Word) (ws : List Word) (done : List Bytes)
    → elim (scan (took (text w) (record start { result = done })) (write_rest ws)) [
      | none ↦ none
      | some s ↦ some (last_word s)
    ]
      ≡ elim (scan (after done (text w)) (write_rest ws)) [
        | none ↦ none
        | some s ↦ some (last_word s)
      ]
unfolding start
took-start w ws done = refl

rest-scan :
    (ws : List Word) (done : List Bytes) (word : Bytes)
    → AllHold ws
    → elim (scan (after done word) (write_rest ws)) [ none ↦ none | some s ↦ some (last_word s) ]
      ≡ some (done ++ word ∷ map text ws)
unfolding write_rest
rest-scan [] done word h = unfold scan last_word start in refl
rest-scan (w ∷ ws) done word (q, h, hs) =
    rw
      (
        space-scan done word (write w ++ write_rest ws),
        word-scan w (write_rest ws) (record start { result = done ++ word ∷ [] }) start-Outside q h,
      )
      (took-start w ws (done ++ word ∷ [])
        ∙ rest-scan ws (done ++ word ∷ []) (text w) hs
        ∙ ap some (append_assoc done (word ∷ []) (text w ∷ map text ws)))

-- A line of words of ASCII characters, each made of one piece at least that is a plain character, text in quotes of
-- either kind, or a character that is no space behind a backslash, with a space between words, is
-- read as the texts of these words: each piece holds any of these characters that its kind can, spaces and
-- control characters between quotes among them.
pub parse_command-write_line :
    (ws : List Word) → AllHold ws → parse_command (write_line ws) ≡ some (map text ws)
unfolding parse_command write_line start
parse_command-write_line [] h = unfold scan last_word start in refl
parse_command-write_line (w ∷ ws) (q, h, hs) =
    rw (word-scan w (write_rest ws) start start-Outside q h, parse_command)
      (took-start w ws [] ∙ rest-scan ws [] (text w) hs)
