-- ===== src/Union/Rename/Tests.antt =====
-- A file that was written in a directory, and then the directory is renamed.
use termite.Base.{
  ℕ, zero, suc, ◌≡◌, refl, Bytes, Bool, true, false, List, [], ◌∷◌, Option, none, some,
  if◌then◌else◌, ◌==◌, nat_eq, bytes_eq, Dict, lookup,
}
use termite.Attr.FileAttr.{Status}
use termite.Union.{MemNode, MemUnionFs}
use termite.Union.Rename.{rename}
use termite.Union.Sample.{Table, memory, disk, now, found, node_of, d_name, e_name, f_name}

-- "d/f" has been opened to be written: what it has is in the backing store.
abbrev written : MemUnionFs Table
written = record found {
  nodes = λ i.
      if i == 2
      then record (node_of [] 0o100644) { backing = 0x30 ∷ []; changed = true }
      else found.nodes i;
}

-- The backing file of "e/f", after "d" was renamed to "e".
backing_of_moved : Option (Status × MemUnionFs Table) → Option Bytes
backing_of_moved none = none
backing_of_moved (some (_, s)) = elim (lookup f_name (memory.children 1 s.table)) [
  | none ↦ none
  | some c ↦ some (s.nodes c).backing
]

-- It has none: the node that was written is replaced by one of the file below.
rename-backing : backing_of_moved (rename memory disk now 5 0 d_name 0 e_name written) ≡ some []
unfolding backing_of_moved rename lookup termite.Base.bytes_beq termite.Union.Rename.detach
    termite.Union.shows_original termite.Base.is_empty termite.Union.mark_deleted
    termite.Union.Rename.materialize termite.Union.Rename.for_children
    termite.Union.Rename.materialize_self termite.Union.Rename.set_changed termite.Union.set_node
    termite.Union.Rename.clear_original termite.Union.Rename.lookup_all termite.Union.lookup_child
    termite.Base.has termite.Base.insert termite.Union.path_of termite.Base.erase termite.Paths.join
    termite.Union.Rename.mark_changed termite.Union.add_child termite.Union.has_dir_bit
    termite.Union.has_link_bits termite.Union.new_mem_node termite.Union.new_node
    termite.Union.node_below termite.Union.touch termite.Union.touch_node
rename-backing = refl
