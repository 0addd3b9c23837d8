-- ===== src/Cba/HashPath.antt =====
-- cba/store.go: where a hash is kept on disk; cba/misc.go: the hashes of a directory of such files.
pub mod Laws
pub mod Database
mod Tests
use termite.Base.{
  ℕ, ◌+◌, ◌-◌, ◌*◌, ◌/◌, ◌%◌, Bytes, Bool, true, false, not, ◌&&◌, ◌||◌, List, [], ◌∷◌, ◌++◌,
  Option, none, some, ltb, leb, length, take, drop, if◌then◌else◌, is_empty,
}
use termite.Paths.{join}

pub hex_digit : ℕ → ℕ
hex_digit b = if ltb b 10 then 0x30 + b else (b + 0x61 - 10) % 256

-- The loop of `HashPath`: two digits for each byte.
pub hex_of : Bytes → Bytes
unfolding hex_digit
hex_of [] = []
hex_of (b ∷ h) = hex_digit (b / 16) ∷ hex_digit (b % 16) ∷ hex_of h

-- `none` is the panic of `hex[:2]` at an empty hash. That the directories are made is not modelled.
unfoldable pub hash_path : Bytes → Bytes → Option Bytes
unfolding hex_of
hash_path dir hash =
    let hex = hex_of hash in
    let prefix_dir = join dir (take 2 hex) in
    if ltb (length hex) 2 then none else some (join prefix_dir (drop 2 hex))

-- What `ioutil.ReadDir` says of a directory below the root: its name, whether it is a directory,
-- and what it holds: names, with whether those are directories.
pub record Entry : Type 0 where
  pub name : Bytes
  pub is_dir : Bool
  pub sub : List (Bytes × Bool)

-- The value of a digit of `%x`, if it is one.
pub hex_value : ℕ → Option ℕ
hex_value c =
    if leb 0x30 c && leb c 0x39
    then some (c - 0x30)
    else if leb 0x61 c && leb c 0x66
    then some (c - 0x61 + 10)
    else if leb 0x41 c && leb c 0x46
    then some (c - 0x41 + 10)
    else none

pub byte_of : Option ℕ → Option ℕ → Option Bytes → Option Bytes
byte_of (some x) (some y) (some t) = some ((16 * x + y) ∷ t)
byte_of _ _ _ = none

-- `Sscanf(hex, "%x", &bin)` into as many bytes as the digits make.
pub un_hex : Bytes → Option Bytes
unfolding hex_value byte_of
un_hex [] = some []
un_hex (c ∷ []) = none
un_hex (c ∷ d ∷ s) = byte_of (hex_value c) (hex_value d) (un_hex s)

pub is_some : Option Bytes → Bool
is_some none = false
is_some (some t) = true

-- `^([0-9a-fA-F][0-9a-fA-F])+$`
pub is_hex : Bytes → Bool
unfolding un_hex is_some
is_hex s = not (is_empty s) && is_some (un_hex s)

pub add_hash : Option Bytes → List Bytes → List Bytes
add_hash none db = db
add_hash (some bin) db = bin ∷ db

-- The inner loop of `ReadHexDatabase`.
pub read_sub : Bytes → List (Bytes × Bool) → List Bytes
unfolding is_hex add_hash
read_sub dir [] = []
read_sub dir ((s, d) ∷ rest) =
    let db = read_sub dir rest in
    if not (is_hex s) || d then db else add_hash (un_hex (dir ++ s)) db

pub read_hex_database : List Entry → List Bytes
unfolding read_sub
read_hex_database [] = []
read_hex_database (e ∷ rest) =
    let db = read_hex_database rest in
    if not (is_hex e.name) || not e.is_dir then db else read_sub e.name e.sub ++ db
