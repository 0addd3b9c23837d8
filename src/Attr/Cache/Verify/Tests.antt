-- ===== src/Attr/Cache/Verify/Tests.antt =====
-- The cache that has a root directory, before and after a file is made in it, and caches that do not list a file.
use termite.Base.{
  ◌≡◌, refl, codes, true, false, [], ◌∷◌, lookup, has, is_empty, bytes_beq, file_split, trim_right,
  clean,
}
use termite.Paths.{split_path}
use termite.Attr.FileAttr.{deletion, is_dir, has_type, file_type}
use termite.Attr.Cache.{Cache, names_none, child_mode}
use termite.Attr.Cache.Tests.{root, made, before, after, makes_a, made-IsFit, before-IsLinked}
use termite.Attr.Cache.Verify.{
  is_plain, check_names, check_children, check_parent, check_entry, check_entries, verify,
}
use termite.Attr.Cache.Verify.Keeps.{IsVerified, IsLegal, update_one-IsVerified}

before-passes : verify true before ≡ true
unfolding verify check_entries check_entry check_children check_names lookup has is_empty bytes_beq
    split_path file_split trim_right deletion is_dir has_type file_type names_none
before-passes = refl

before-IsVerified : IsVerified before
unfolding lookup
before-IsVerified = record {
  nodup = (refl, tt);
  clean = λ k a e. (before-IsLinked k a e).clean;
  passes = before-passes;
}

made-IsLegal : IsLegal made
unfolding check_children is_plain is_empty split_path file_split trim_right bytes_beq clean
made-IsLegal = record { tidy = refl; plain = refl; children = refl }

update_one-IsVerified_example : IsVerified after
update_one-IsVerified_example =
    update_one-IsVerified before after made before-IsVerified made-IsFit made-IsLegal makes_a

-- A path without a slash is not looked for in the root.
abbrev unlisted : Cache
unlisted = record before { attributes = ([], root) ∷ (codes "a", made) ∷ [] }

unlisted-passes : verify true unlisted ≡ true
unfolding verify check_entries check_entry check_children check_names check_parent child_mode lookup
    has is_empty bytes_beq split_path file_split trim_right deletion is_dir has_type file_type
    names_none clean
unlisted-passes = refl

abbrev unlisted_below : Cache
unlisted_below = record before {
  attributes =
      (codes "d", record root { path = codes "d" })
      ∷ (codes "d/a", record made { path = codes "d/a" })
      ∷ [];
}

unlisted_below-fails : verify true unlisted_below ≡ false
unfolding verify check_entries check_entry check_children check_names check_parent child_mode lookup
    has is_empty bytes_beq split_path file_split trim_right deletion is_dir has_type file_type
    names_none clean
unlisted_below-fails = refl
