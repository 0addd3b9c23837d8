-- ===== src/Cba/HashPath/Database.antt =====
-- `ReadHexDatabase` finds the files that `HashPath` names.
use termite.Base.{
  ℕ, ◌≡◌, refl, Bytes, Bool, true, false, not, ◌||◌, List, [], ◌∷◌, ◌++◌, none, some, Option, ◌<◌,
  take, drop, if◌then◌else◌, is_empty, arith, In, inl, inr, In-append_left, In-append_right,
}
use termite.Cba.HashPath.{
  Entry, hex_of, un_hex, is_some, is_hex, add_hash, read_sub, read_hex_database,
}
use termite.Cba.HashPath.Laws.{IsBytes, un_hex-hex_of}

In-if :
    (a : Bytes) (t : Bool) (xs ys : List Bytes) → In a xs → In a ys → In a (if t then xs else ys)
In-if a true xs ys h k = h
In-if a false xs ys h k = k

In-add_hash : (a : Bytes) (o : Option Bytes) (db : List Bytes) → In a db → In a (add_hash o db)
unfolding add_hash
In-add_hash a none db h = h
In-add_hash a (some b) db h = inr h

In-read_sub_cons :
    (dir s : Bytes) (d : Bool) (bin : Bytes) (l : List (Bytes × Bool))
    → In bin (read_sub dir l)
    → In bin (read_sub dir ((s, d) ∷ l))
unfolding read_sub
In-read_sub_cons dir s d bin l i =
    In-if bin (not (is_hex s) || d) _ _ i (In-add_hash bin (un_hex (dir ++ s)) _ i)

In-read_sub :
    (dir name bin : Bytes) (before after : List (Bytes × Bool))
    → is_hex name ≡ true
    → un_hex (dir ++ name) ≡ some bin
    → In bin (read_sub dir (before ++ (name, false) ∷ after))
unfolding read_sub
In-read_sub dir name bin [] after x e = rw (x, e) (unfold add_hash in inl refl)
In-read_sub dir name bin ((s, d) ∷ before) after x e =
    In-read_sub_cons dir s d bin (before ++ (name, false) ∷ after)
      (In-read_sub dir name bin before after x e)

is_hex-hex_of : (x : ℕ) (h : Bytes) → IsBytes (x ∷ h) → is_hex (hex_of (x ∷ h)) ≡ true
unfolding is_hex hex_of is_empty is_some
is_hex-hex_of x h b = ground (arith, un_hex-hex_of (x ∷ h) b)

is_hex-take : (x : ℕ) (h : Bytes) → x < 256 → is_hex (take 2 (hex_of (x ∷ h))) ≡ true
unfolding hex_of
is_hex-take x h b = is_hex-hex_of x [] (b, tt)

-- Where a directory has an entry named by the first byte of a hash, and that entry has a file named
-- by the other bytes, the hash is in the database.
pub In-read_hex_database :
    (x y : ℕ) (h : Bytes) (before after : List Entry) (files files' : List (Bytes × Bool))
    → IsBytes (x ∷ y ∷ h)
    → In (x ∷ y ∷ h) (
        read_hex_database (
          before
          ++ record {
            name = take 2 (hex_of (x ∷ y ∷ h));
            is_dir = true;
            sub = files ++ (drop 2 (hex_of (x ∷ y ∷ h)), false) ∷ files';
          }
            ∷ after))
unfolding read_hex_database hex_of
In-read_hex_database x y h [] after files files' b = rw (is_hex-take x (y ∷ h) b.0) (
    In-append_left (x ∷ y ∷ h)
      (read_sub (take 2 (hex_of (x ∷ y ∷ h)))
        (files ++ (drop 2 (hex_of (x ∷ y ∷ h)), false) ∷ files'))
      (read_hex_database after)
      (In-read_sub (take 2 (hex_of (x ∷ y ∷ h))) (drop 2 (hex_of (x ∷ y ∷ h))) (x ∷ y ∷ h) files
        files' (is_hex-hex_of y h b.1) (un_hex-hex_of (x ∷ y ∷ h) b)))
In-read_hex_database x y h (e ∷ before) after files files' b =
    let ih = In-read_hex_database x y h before after files files' b in
    In-if (x ∷ y ∷ h) (not (is_hex e.name) || not e.is_dir) _ _ ih
      (In-append_right (x ∷ y ∷ h) (read_sub e.name e.sub) _ ih)
