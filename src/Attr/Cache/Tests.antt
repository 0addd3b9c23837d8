-- ===== src/Attr/Cache/Tests.antt =====
-- Examples for the cache: a root directory without entries, and one file that is made in it.
use termite.Base.{
  ℕ, ◌≡◌, refl, Bytes, codes, true, false, [], ◌∷◌, none, some, lookup, insert, erase, is_empty,
  arith, bytes_beq, bytes_iff, file_split, trim_right, bytes_eq,
}
use termite.Paths.{split_path}
use termite.Attr.FileAttr.{
  Attr, FileAttr, deleted, deletion, is_dir, has_type, file_type, type_bits,
}
use termite.Attr.Cache.{
  Cache, update_one, update_listed, list_in_parent, list_names, store_attr, store_merged,
  leading_slash, local_get, names_none, mode_of,
}
use termite.Attr.Cache.Linked.{IsLinked, IsFit}
use termite.Attr.Cache.Reads.{local_get-deletion, local_get-update_one}

abbrev pub attr_of : ℕ → Attr
attr_of mode = record {
  ino = 1;
  size = 0;
  mtime = 0;
  mtimensec = 0;
  mode = mode;
  nlink = 1;
  uid = 0;
  gid = 0;
}

abbrev pub root : FileAttr
root = record { path = []; attr = some (attr_of 0o040755); hash = []; link = []; names = some [] }

abbrev pub made : FileAttr
made = record {
  path = codes "a";
  attr = some (attr_of 0o100644);
  hash = codes "h";
  link = [];
  names = none;
}

abbrev pub before : Cache
before = record { attributes = ([], root) ∷ []; busy = []; clients = []; next_file_set_id = 1 }

abbrev root_with_a : FileAttr
root_with_a = record root { names = some ((codes "a", 0o100000) ∷ []) }

abbrev pub after : Cache
after = record before { attributes = ([], root_with_a) ∷ (codes "a", made) ∷ [] }

pub makes_a : update_one before made ≡ some after
unfolding update_one update_listed list_in_parent list_names store_attr store_merged leading_slash
    split_path file_split trim_right is_empty lookup insert erase bytes_beq deletion is_dir has_type
    file_type mode_of type_bits names_none
makes_a = refl

only_root : (k : Bytes) (a : FileAttr) → lookup k before.attributes ≡ some a → (k ≡ []) × (a ≡ root)
unfolding lookup
only_root k a e = ground (arith, bytes_iff k [])

pub before-IsLinked : IsLinked before.attributes
unfolding split_path file_split trim_right is_empty deletion is_dir has_type file_type names_none
before-IsLinked k a e =
    let (q, r) = only_root k a e in
    rw (q, r)
      (record {
        keyed = refl;
        clean = refl;
        present = refl;
        full = λ d. refl;
        parent = λ n. absurd (n refl);
      })

below_root : (k : Bytes) (a : FileAttr) → lookup k before.attributes ≡ some a → (split_path k).1 ≡ k
unfolding split_path file_split trim_right is_empty
below_root k a e = rw ((only_root k a e).0) refl

pub made-IsFit : IsFit before made
unfolding split_path file_split trim_right is_empty deletion is_dir has_type file_type names_none
    mode_of type_bits
made-IsFit = record {
  named = refl;
  clean = refl;
  typed = λ d e. ground arith;
  known = λ d. cc;
  below = λ k a e d n. absurd (n (below_root k a e));
}

local_get-update_one_example :
    (a : FileAttr) × (local_get after (codes "a") false ≡ some a)
    × (a.path ≡ codes "a")
    × (a.attr ≡ some (attr_of 0o100644))
    × (a.hash ≡ codes "h")
    × (a.link ≡ [])
unfolding split_path file_split trim_right is_empty deletion is_dir has_type file_type names_none
    lookup bytes_beq
local_get-update_one_example =
    local_get-update_one before after made root false refl refl refl refl (λ old e. ground arith)
      makes_a

pub removes_a : update_one after (deleted (codes "a")) ≡ some before
unfolding update_one update_listed list_in_parent list_names store_attr store_merged leading_slash
    split_path file_split trim_right is_empty lookup insert erase bytes_beq deletion deleted is_dir
    has_type file_type mode_of type_bits names_none
removes_a = refl

local_get-deletion_example : local_get before (codes "a") true ≡ some (deleted (codes "a"))
unfolding split_path file_split trim_right is_empty deletion deleted lookup bytes_beq
local_get-deletion_example =
    local_get-deletion after before (deleted (codes "a")) root_with_a true refl refl refl removes_a
