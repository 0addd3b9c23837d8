-- ===== src/Attr/FileSet/Tests.antt =====
-- Examples for the order of a file set.
use termite.Base.{◌≡◌, refl, codes, not, some}
use termite.Attr.FileAttr.{FileAttr, deleted, deletion}
use termite.Attr.FileSet.{less}
use termite.Attr.FileSet.Laws.{less-child}

abbrev made : FileAttr
made = record (deleted (codes "a/b")) {
  attr = some (record {
    ino = 1;
    size = 0;
    mtime = 0;
    mtimensec = 0;
    mode = 0o100644;
    nlink = 1;
    uid = 0;
    gid = 0;
  });
}

less-child_example :
    (less made (deleted (codes "a")) ≡ deletion made)
    × (less (deleted (codes "a")) made ≡ not (deletion made))
unfolding deleted
less-child_example = less-child (deleted (codes "a")) made (codes "b") refl
