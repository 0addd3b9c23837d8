-- ===== src/Attr/RpcFs/Tests.antt =====
-- An example of a worker's file system.
use termite.Base.{codes, none, some, []}
use termite.Attr.FileAttr.{FileAttr}

abbrev readme : FileAttr
readme = record {
  path = codes "README";
  attr = some (record {
    ino = 7;
    size = 3;
    mtime = 1;
    mtimensec = 2;
    mode = 0o100644;
    nlink = 1;
    uid = 0;
    gid = 0;
  });
  hash = codes "h";
  link = [];
  names = none;
}
