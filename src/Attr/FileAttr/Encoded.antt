-- ===== src/Attr/FileAttr/Encoded.antt =====
-- `EncodedAttr` of attr/fileattr.go: the key of file contents that is kept in an extended attribute.
pub mod Laws
use termite.Base.{
  ℕ, zero, suc, ◌+◌, ◌*◌, ◌/◌, ◌%◌, ◌^◌, Bytes, Bool, ◌&&◌, [], ◌∷◌, ◌++◌, Option, none, some, ltb,
  length, ◌==◌, nat_eq, if◌then◌else◌,
}
use termite.Attr.FileAttr.{Attr}

pub record EncodedAttr : Type 0 where
  pub size : ℕ
  pub mtimens : ℕ
  pub perm : ℕ
  pub nlink : ℕ

pub from_attr : Attr → EncodedAttr
from_attr a = record {
  size = a.size;
  mtimens = (1000000000 * a.mtime + a.mtimensec) % 2 ^ 64;
  perm = a.mode % 4096;
  nlink = a.nlink % 2 ^ 16;
}

pub eq : EncodedAttr → EncodedAttr → Bool
eq e b = e.perm == b.perm && (e.nlink == b.nlink && (e.size == b.size && e.mtimens == b.mtimens))

-- `byte(v), byte(v >> 8), …`: the given number of bytes, the lowest first.
pub put_word : ℕ → ℕ → Bytes
put_word zero v = []
put_word (suc k) v = v % 256 ∷ put_word k (v / 256)

-- `in[0] | in[1]<<8 | …` and the slice behind. The shifted bytes do not overlap, so their `|` is
-- their sum.
pub get_word : ℕ → Bytes → ℕ × Bytes
get_word zero s = (0, s)
get_word (suc k) [] = (0, [])
get_word (suc k) (b ∷ s) = let (v, rest) = get_word k s in (b + 256 * v, rest)

pub encode : EncodedAttr → Bytes → Bytes
encode e h =
    put_word 2 e.perm ++ (put_word 2 e.nlink ++ (put_word 8 e.size ++ (put_word 8 e.mtimens ++ h)))

-- `Decode` into a given `EncodedAttr`: what becomes of it, and the hash, `none` for nil.
pub decode : EncodedAttr → Bytes → EncodedAttr × Option Bytes
decode e input =
    let (perm, s) = get_word 2 input in
    let (nlink, t) = get_word 2 s in
    let (size, u) = get_word 8 t in
    let (mtimens, hash) = get_word 8 u in
    if ltb (length input) 20
    then (e, none)
    else (record { size = size; mtimens = mtimens; perm = perm; nlink = nlink }, some hash)
