-- ===== src/Attr/Cache/Refresh/Tests.antt =====
-- The root directory is as it was, and the file in it is gone.
use termite.Base.{
  ◌≡◌, refl, Bytes, codes, [], ◌∷◌, Option, none, some, In, lookup, insert, erase, is_empty,
  bytes_beq, file_split, trim_right, has_prefix,
}
use termite.Paths.{split_path}
use termite.Attr.FileAttr.{
  Attr, FileAttr, deleted, deletion, is_dir, has_type, file_type, type_bits, fuse_attr_eq,
}
use termite.Attr.FileSet.Sorted.{IsSorted}
use termite.Attr.FileSet.{sort, insert_sorted}
use termite.Attr.Cache.{
  update, update_one, update_listed, list_in_parent, list_names, store_attr, store_merged,
  leading_slash, names_none, mode_of,
}
use termite.Attr.Cache.Tests.{attr_of, before, after}
use termite.Attr.Cache.Refresh.{refresh_one, refresh_files, refresh}
use termite.Attr.Cache.Refresh.Changes.{IsFound, refresh-IsFound}

abbrev stat : Bytes → Option Attr
stat [] = some (attr_of 0o040755)
stat (_ ∷ _) = none

abbrev get : Bytes → Option FileAttr
get _ = none

abbrev gone : FileAttr
gone = deleted (codes "a")

finds : refresh stat get after [] ≡ some (before, gone ∷ [])
unfolding refresh refresh_files refresh_one sort insert_sorted fuse_attr_eq has_prefix update
    update_one update_listed list_in_parent list_names store_attr store_merged leading_slash
    split_path file_split trim_right is_empty lookup insert erase bytes_beq deletion deleted is_dir
    has_type file_type mode_of type_bits names_none
finds = refl

refresh-IsFound_example :
    (update after (gone ∷ []) ≡ some before)
    × IsSorted (gone ∷ [])
    × ((f : FileAttr)
        → (In f (gone ∷ []) → IsFound stat get [] after.attributes f)
          × (IsFound stat get [] after.attributes f → In f (gone ∷ [])))
refresh-IsFound_example = refresh-IsFound stat get after before [] (gone ∷ []) finds
