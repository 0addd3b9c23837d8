-- ===== src/Cba/HashPath/Laws.antt =====
-- Different hashes have different paths, and a directory of such paths is read back.
use termite.Base.{
  none, ℕ, ◌*◌, ◌/◌, ◌%◌, ◌<◌, ◌≤◌, ◌≡◌, refl, sym, ◌∙◌, ◌≢◌, Bytes, false, [], ◌∷◌, ◌++◌, some,
  length, take, drop, if◌then◌else◌, is_empty, arith, All, slash, Lacks, trim_right,
  trim_left-Lacks, inl, inr, append_left_cancel, append_assoc, Bool-cases, trim_right-append,
}
use termite.Paths.{join}
use termite.Paths.Laws.{join-trim}
use termite.Cba.HashPath.{hex_digit, hex_of, hash_path, hex_value, byte_of, un_hex}

-- Every element is a byte.
abbrev pub IsBytes : Bytes → Type 0
IsBytes = All (λ b. b < 256)

hex_value-hex_digit : (n : ℕ) → n < 16 → hex_value (hex_digit n) ≡ some n
unfolding hex_value hex_digit
hex_value-hex_digit n h = ground arith

pub un_hex-hex_of : (h : Bytes) → IsBytes h → un_hex (hex_of h) ≡ some h
unfolding un_hex hex_of byte_of
un_hex-hex_of [] b = refl
un_hex-hex_of (x ∷ h) b =
    ground (arith, hex_value-hex_digit (x / 16), hex_value-hex_digit (x % 16), un_hex-hex_of h b.1)

hex_digit-ne-slash : (n : ℕ) → n < 16 → hex_digit n ≢ slash
unfolding hex_digit
hex_digit-ne-slash n h = ground arith

hex_of-Lacks : (h : Bytes) → IsBytes h → Lacks slash (hex_of h)
unfolding hex_of
hex_of-Lacks [] b = tt
hex_of-Lacks (x ∷ h) b = (
  hex_digit-ne-slash (x / 16) (omega arith),
  (hex_digit-ne-slash (x % 16) (omega arith), hex_of-Lacks h b.1),
)

length-hex_of : (h : Bytes) → length (hex_of h) ≡ 2 * length h
unfolding hex_of
length-hex_of [] = refl
length-hex_of (x ∷ h) = omega (arith, length-hex_of h)

-- The path of a hash, with the slashes that `Join` drops gone.
plain_path : Bytes → Bytes → Bytes
unfolding is_empty
plain_path root (x ∷ y ∷ rest) =
    if is_empty root then x ∷ y ∷ slash ∷ rest else root ++ slash ∷ x ∷ y ∷ slash ∷ rest
plain_path root hex = []

trim_right-digits : (a b : ℕ) → b ≢ slash → trim_right (a ∷ b ∷ []) ≡ a ∷ b ∷ []
unfolding trim_right is_empty
trim_right-digits a b h = ground arith

trim_right-slash_digits :
    (a b : ℕ) → b ≢ slash → trim_right (slash ∷ a ∷ b ∷ []) ≡ slash ∷ a ∷ b ∷ []
unfolding trim_right is_empty
trim_right-slash_digits a b h = ground arith

is_empty-append : (s : Bytes) (b : ℕ) (t : Bytes) → is_empty (s ++ b ∷ t) ≡ false
unfolding is_empty
is_empty-append [] b t = refl
is_empty-append (x ∷ s) b t = refl

-- The two calls of `Join` in `HashPath`.
join_twice :
    (dir : Bytes) (a b : ℕ) (rest : Bytes)
    → a ≢ slash
    → b ≢ slash
    → Lacks slash rest
    → join (join dir (a ∷ b ∷ [])) rest ≡ plain_path (trim_right dir) (a ∷ b ∷ rest)
unfolding plain_path is_empty
join_twice dir a b rest ha hb hr = ground (
  arith,
  join-trim dir (a ∷ b ∷ []),
  join-trim (join dir (a ∷ b ∷ [])) rest,
  trim_left-Lacks (a ∷ b ∷ []) (ha, (hb, tt)),
  trim_left-Lacks rest hr,
  trim_right-digits a b hb,
  trim_right-slash_digits a b hb,
  trim_right-append (trim_right dir) (slash ∷ a ∷ b ∷ []),
  is_empty-append (trim_right dir) slash (a ∷ b ∷ []),
  append_assoc (trim_right dir) (slash ∷ a ∷ b ∷ []) (slash ∷ rest),
)

hash_path-plain :
    (dir h p : Bytes)
    → IsBytes h
    → hash_path dir h ≡ some p
    → p ≡ plain_path (trim_right dir) (hex_of h)
unfolding hash_path
hash_path-plain dir [] p bh e = unfold hex_of in ground arith
hash_path-plain dir (x ∷ h) p bh e =
    unfold hex_of in
    ground (
      arith,
      join_twice dir (hex_digit (x / 16)) (hex_digit (x % 16)) (hex_of h),
      hex_digit-ne-slash (x / 16),
      hex_digit-ne-slash (x % 16),
      hex_of-Lacks h bh.1,
    )

plain_path-injective :
    (root : Bytes) (a b : ℕ) (s : Bytes) (c d : ℕ) (t : Bytes)
    → plain_path root (a ∷ b ∷ s) ≡ plain_path root (c ∷ d ∷ t)
    → a ∷ b ∷ s ≡ c ∷ d ∷ t
unfolding plain_path
plain_path-injective root a b s c d t e = elim (Bool-cases (is_empty root)) [
  | inl n ↦ ground arith
  | inr n ↦
      let e' : slash ∷ a ∷ b ∷ slash ∷ s ≡ slash ∷ c ∷ d ∷ slash ∷ t =
        append_left_cancel root (ground arith) in
      cc
]

hex_of-injective : (h k : Bytes) → IsBytes h → IsBytes k → hex_of h ≡ hex_of k → h ≡ k
hex_of-injective h k bh bk e = cc (un_hex-hex_of h bh, un_hex-hex_of k bk)

hash_path-nonempty : (dir p : Bytes) → hash_path dir [] ≢ some p
unfolding hash_path hex_of
hash_path-nonempty dir p e = cc

pub hash_path-some : (dir h : Bytes) → 1 ≤ length h → (p : Bytes) × (hash_path dir h ≡ some p)
unfolding hash_path
hash_path-some dir [] l = absurd (omega arith)
hash_path-some dir (x ∷ h) l = (
  join (join dir (take 2 (hex_of (x ∷ h)))) (drop 2 (hex_of (x ∷ h))),
  unfold hex_of in ground arith,
)

-- Hashes, made of bytes, that share a path below one directory are equal.
pub hash_path-injective :
    (dir h k p : Bytes)
    → IsBytes h
    → IsBytes k
    → hash_path dir h ≡ some p
    → hash_path dir k ≡ some p
    → h ≡ k
hash_path-injective dir [] k p bh bk eh ek = absurd (hash_path-nonempty dir p eh)
hash_path-injective dir (x ∷ h) [] p bh bk eh ek = absurd (hash_path-nonempty dir p ek)
hash_path-injective dir (x ∷ h) (y ∷ k) p bh bk eh ek = hex_of-injective (x ∷ h) (y ∷ k) bh bk (
    unfold hex_of in
    plain_path-injective (trim_right dir) (hex_digit (x / 16)) (hex_digit (x % 16)) (hex_of h)
      (hex_digit (y / 16)) (hex_digit (y % 16)) (hex_of k)
      (sym (hash_path-plain dir (x ∷ h) p bh eh) ∙ hash_path-plain dir (y ∷ k) p bk ek))

pub hash_path-nil : (dir : Bytes) → hash_path dir [] ≡ none
unfolding hash_path hex_of
hash_path-nil dir = refl
