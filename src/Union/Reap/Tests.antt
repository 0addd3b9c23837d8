-- ===== src/Union/Reap/Tests.antt =====
-- A directory that was deleted, with a file in it, and another that was made.
use termite.Base.{
  ℕ, zero, suc, ◌≡◌, ◌<◌, ◌≤◌, refl, Bytes, Bool, true, false, List, [], ◌∷◌, Option, none, some,
  if◌then◌else◌, ◌==◌, nat_eq, bytes_eq, bytes_iff, Dict, lookup, has, arith, is_empty, inl, inr,
  Bool-cases,
}
use termite.Union.{MemUnionFs, has_dir_bit}
use termite.Union.Names.{is_some}
use termite.Union.Reap.{Result, reap}
use termite.Union.Reap.Below.{IsSized, listed_size}
use termite.Union.Reap.Complete.{walk, path_along}
use termite.Union.Reap.Results.{IsReported, reap-IsReported}
use termite.Union.Sample.{Table, memory, disk, found, node_of, d_name, e_name}

-- "d" is gone, and "e" is new: it is 3.
abbrev made : MemUnionFs Table
made = record found {
  table = record {
    next = 4;
    dirs = λ i. true;
    kids = λ i. if i == 0 then (e_name, 3) ∷ [] else [];
  };
  nodes = λ i. if i == 3 then record (node_of [] 0o040755) { changed = true } else found.nodes i;
  deleted = (d_name, true) ∷ [];
}

abbrev size : Bytes → ℕ
size n = if is_empty n then 2 else 1

disk-IsSized : IsSized disk size
unfolding listed_size is_empty termite.Base.bytes_beq termite.Paths.join has_dir_bit
disk-IsSized [] = omega arith
disk-IsSized (c ∷ n) = elim (Bool-cases (c ∷ n == d_name)) [
  | inl e ↦ rw e (omega arith)
  | inr e ↦ rw e (omega arith)
]

reap-IsReported_example :
    (m : Dict Bytes Result) × (reap memory disk 3 made ≡ some m)
    × ((j : ℕ) (names : List Bytes)
        → walk memory made names made.root ≡ some j
        → (made.nodes j).changed ≡ true
        → IsReported memory made (path_along memory made [] names) m)
    × ((k : Bytes)
        → has k made.deleted ≡ true
        → is_some (disk.get_attr k).0 ≡ false
        → has k m ≡ true)
reap-IsReported_example =
    reap-IsReported memory made disk size 3 disk-IsSized (unfold is_empty in omega arith, tt)
      (tt, tt)
