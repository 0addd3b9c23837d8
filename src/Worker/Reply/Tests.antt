-- ===== src/Worker/Reply/Tests.antt =====
-- A file with two links that was written, and a file that was moved: "e", "g" and "m" in the root.
use termite.Base.{
  ℕ, zero, suc, codes, Bytes, Bool, true, false, List, [], ◌∷◌, Option, none, some, arith,
  if◌then◌else◌, ◌==◌, nat_eq, bytes_eq, Dict, length,
}
use termite.Attr.FileAttr.{Attr, FileAttr, deleted}
use termite.Cba.Fetch.{Hash, Store}
use termite.Union.{MemNode, MemUnionFs}
use termite.Union.Reap.{Result, node_result}
use termite.Union.Reset.{reset}
use termite.Union.Sample.{Table, memory, disk, found, node_of, e_name, d_f}
use termite.Union.Sample as Sample
use termite.Worker.Reply.{Files, Reply}

abbrev written : MemNode
written = record (node_of [] 0o100644) { backing = codes "/b/0"; changed = true }

abbrev moved : MemNode
moved = record (node_of d_f 0o100644) { changed = true }

abbrev ended : MemUnionFs Table
ended = record found {
  table = record {
    next = 4;
    dirs = λ i. i == 0;
    kids = λ i. if i == 0 then (e_name, 2) ∷ (codes "g", 2) ∷ (codes "m", 3) ∷ [] else [];
  };
  nodes = λ i. if i == 2 then written else if i == 3 then moved else found.nodes i;
}

abbrev reported : Dict Bytes Result
reported =
    (e_name, node_result written)
    ∷ (codes "g", node_result written)
    ∷ (codes "m", node_result moved)
    ∷ []

abbrev or_ended : Option (MemUnionFs Table) → MemUnionFs Table
or_ended none = ended
or_ended (some u) = u

abbrev after : MemUnionFs Table
after = or_ended (reset memory disk 3 ended)

abbrev backing_files : Files
backing_files = (codes "/b/0", codes "new") ∷ []

-- Not a real hash: one byte, the length of the content.
abbrev length_hash : Hash
length_hash = record {
  sum = λ c. termite.Base.◌%◌ (length c) 256 ∷ [];
  sum-IsBytes = λ c. (omega arith, tt);
  sum_pos = λ c. omega arith;
}

abbrev no_files : Store
no_files = record { dir = codes "/cas"; files = [] }

abbrev below : Bytes → FileAttr
below path =
    if path == codes "w/d/f"
    then record (deleted path) { attr = some (Sample.attr_of 0o100644); hash = 9 ∷ [] }
    else deleted path
