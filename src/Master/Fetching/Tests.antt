-- ===== src/Master/Fetching/Tests.antt =====
-- A file set with a file that is fetched.
use termite.Base.{
  ℕ, ◌≡◌, ◌%◌, refl, Bytes, codes, Bool, true, false, List, [], ◌∷◌, Option, none, some, length,
  arith, lookup, ap,
}
use termite.Attr.FileAttr.{FileAttr, deleted}
use termite.Cba.Fetch.{Hash, Store, save, serve_chunk}
use termite.Cba.Fetch.Integrity.{IsAddressed, open_hash-save}
use termite.Cba.Fetch.Transfer.{fetch-serve_chunk}
use termite.Master.Replay.{Prepared, prepare, nothing_prepared}
use termite.Master.Fetching.{complete, fetch_files}
use termite.Master.Fetching.Prepared.{fetch_files-prepare}

abbrev length_hash : Hash
length_hash = record {
  sum = λ c. length c % 256 ∷ [];
  sum-IsBytes = λ c. (omega arith, tt);
  sum_pos = λ c. omega arith;
}

abbrev empty_store : Store
empty_store = record { dir = codes "/cas"; files = [] }

abbrev server : Store
server = save length_hash empty_store (codes "text")

abbrev made : FileAttr
made = record (deleted (codes "a")) {
  attr = some (record {
    ino = 1;
    size = 4;
    mtime = 0;
    mtimensec = 0;
    mode = 0o100644;
    nlink = 1;
    uid = 0;
    gid = 0;
  });
  hash = 4 ∷ [];
}

empty-IsAddressed : IsAddressed length_hash empty_store
unfolding lookup
empty-IsAddressed p c e = cc

complete_fetch :
    (fetch_files length_hash (λ req. some (serve_chunk 2 server req)) 3 (made ∷ []) empty_store).1
    ≡ complete
unfolding fetch_files termite.Base.is_empty termite.Cba.Fetch.has_hash
    termite.Cba.HashPath.hash_path lookup termite.Master.Fetching.go_on
    termite.Master.Fetching.fetching
complete_fetch =
    rw
      (
        fetch-serve_chunk length_hash empty_store server (4 ∷ []) (codes "text") 2 3 (omega arith)
            refl (open_hash-save length_hash empty_store (codes "text")) (omega arith),
        fetch_files,
      )
      refl

fetch_files-prepare_example :
    (t : Prepared) × (prepare deleted
        (fetch_files length_hash
          (λ req. some (serve_chunk 2 server req))
          3
          (made ∷ [])
          empty_store).0
        (made ∷ [])
        nothing_prepared
      ≡ some t)
fetch_files-prepare_example =
    fetch_files-prepare length_hash (λ req. some (serve_chunk 2 server req)) 3 deleted (made ∷ [])
      empty_store nothing_prepared empty-IsAddressed complete_fetch
