-- ===== src/Attr/FileAttr/Encoded/Laws.antt =====
-- `Decode` undoes `Encode`.
use native.Mathlib.Nat.{pow-suc}
use termite.Base.{
  ℕ, zero, suc, ◌+◌, ◌/◌, ◌^◌, ◌<◌, ◌≡◌, refl, ap, Bytes, ◌++◌, some, length, arith, length-append,
}
use termite.Attr.FileAttr.{Attr}
use termite.Attr.FileAttr.Encoded.{EncodedAttr, from_attr, put_word, get_word, encode, decode}

get_word-put_word : (k v : ℕ) (s : Bytes) → v < 256 ^ k → get_word k (put_word k v ++ s) ≡ (v, s)
unfolding get_word put_word
get_word-put_word zero v s h = ground arith
get_word-put_word (suc k) v s h = ground (arith, get_word-put_word k (v / 256) s, pow-suc 256 k)

length-put_word : (k v : ℕ) → length (put_word k v) ≡ k
unfolding put_word
length-put_word zero v = refl
length-put_word (suc k) v = ap suc (length-put_word k (v / 256))

-- The fields fit their widths.
pub record Fits (e : EncodedAttr) : Type 0 where
  pub perm : e.perm < 2 ^ 16
  pub nlink : e.nlink < 2 ^ 16
  pub size : e.size < 2 ^ 64
  pub mtimens : e.mtimens < 2 ^ 64

pub from_attr-Fits : (a : Attr) → a.size < 2 ^ 64 → Fits (from_attr a)
unfolding from_attr
from_attr-Fits a h = record {
  perm = omega arith;
  nlink = omega arith;
  size = h;
  mtimens = omega arith;
}

length-encode : (e : EncodedAttr) (h : Bytes) → length (encode e h) ≡ 20 + length h
unfolding encode
length-encode e h = omega (
  arith,
  length-put_word 2 e.perm,
  length-put_word 2 e.nlink,
  length-put_word 8 e.size,
  length-put_word 8 e.mtimens,
  length-append {0},
)

encode-words :
    (e : EncodedAttr) (h : Bytes)
    → encode e h
      ≡ put_word 2 e.perm
        ++ (put_word 2 e.nlink ++ (put_word 8 e.size ++ (put_word 8 e.mtimens ++ h)))
unfolding encode
encode-words e h = refl

-- An encoded key whose fields fit their widths, with a hash behind it, is decoded to the same key
-- and the same hash, whatever the target held.
pub decode-encode :
    (e : EncodedAttr) (hash : Bytes) (target : EncodedAttr)
    → Fits e
    → decode target (encode e hash) ≡ (e, some hash)
unfolding decode
decode-encode e hash target f =
    let s3 = put_word 8 e.mtimens ++ hash in
    let s2 = put_word 8 e.size ++ s3 in
    let s1 = put_word 2 e.nlink ++ s2 in
    rw
      (
        encode-words e hash,
        get_word-put_word 2 e.perm s1 f.perm,
        get_word-put_word 2 e.nlink s2 f.nlink,
        get_word-put_word 8 e.size s3 f.size,
        get_word-put_word 8 e.mtimens hash f.mtimens,
        ← encode-words e hash,
      )
      (ground (arith, length-encode e hash))
