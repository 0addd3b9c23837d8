-- ===== src/Union/Reset/Tests.antt =====
-- A directory "d" in which a file was made.
use termite.Base.{
  ℕ, zero, suc, ◌≡◌, refl, Bytes, Bool, true, false, List, [], ◌∷◌, Option, none, some,
  if◌then◌else◌, ◌==◌, nat_eq, bytes_eq, Dict, lookup, is_empty,
}
use termite.Union.{MemNode, MemUnionFs}
use termite.Union.Reset.{reset}
use termite.Union.Sample.{Table, memory, disk, found, node_of, d_name, e_name}

-- "d/e" is new, it is 3, and "d" has been touched.
abbrev made : MemUnionFs Table
made = record found {
  table = record {
    next = 4;
    dirs = λ i. true;
    kids = λ i. if i == 0 then (d_name, 1) ∷ [] else if i == 1 then (e_name, 3) ∷ [] else [];
  };
  nodes = λ i.
      if i == 3
      then record (node_of [] 0o100644) { backing = 0x30 ∷ []; changed = true }
      else if i == 1
      then record (found.nodes 1) { changed = true }
      else found.nodes i;
}

-- The names in "d", and whether "d" counts as changed.
after_reset : Option (MemUnionFs Table) → Option (Dict Bytes ℕ × Bool)
after_reset none = none
after_reset (some s) = some (memory.children 1 s.table, (s.nodes 1).changed)

-- The new file is gone, but "d" still counts as changed, and `Reap` reports it again.
reset-made : after_reset (reset memory disk 4 made) ≡ some ([], true)
unfolding after_reset reset termite.Union.Reset.reset_node termite.Union.Reset.reset_children
    termite.Union.Reset.reset_self is_empty termite.Union.Reset.drop_child termite.Base.bytes_beq
    termite.Paths.join termite.Union.set_node termite.Base.erase
reset-made = refl
