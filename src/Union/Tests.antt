-- ===== src/Union/Tests.antt =====
-- Runs of fs/memunionfs.go on a small file system.
use termite.Base.{
  ◌≡◌, refl, true, false, List, [], ◌∷◌, none, some, ◌||◌, trim_right, bytes_beq, nat_eq, bytes_eq,
  has,
}
use termite.Union.{MemUnionFs, shows_original, lookup_child, open_dir}
use termite.Union.Names.{is_some, view}
use termite.Union.Op.{unlink_op, run, after}
use termite.Union.Refines.{run-refines, open_dir-find}
use termite.Union.Rename.{materialize_self}
use termite.Union.Rename.Listing.{materialize_self-open_dir}
use termite.Union.Files.{File}
use termite.Union.Files.Handles.{
  Event, open_event, create_event, release_event, steps, writables, steps-Counted,
}
use termite.Union.Sample.{Table, memory, f_name, e_name, disk, now, found, d_Lists}

abbrev events : List Event
events =
    open_event true none none 2
    ∷ create_event none 1 e_name 0o644
    ∷ open_event false none none 2
    ∷ release_event 1
    ∷ []

run-refines_example :
    view memory disk 1 (run memory disk now [] 1 f_name unlink_op found).1 f_name ≡ none
unfolding trim_right bytes_beq after
run-refines_example =
    run-refines memory disk now [] 1 f_name 1 f_name unlink_op found refl (λ a b c. refl) refl refl
      (λ e. cc, tt) (λ e. cc, tt)

open_dir-find_example : has f_name (open_dir memory disk 1 found) ≡ (
    has f_name (memory.children 1 found.table)
    || is_some (lookup_child memory disk now 1 f_name found).0.1)
open_dir-find_example = open_dir-find memory disk now [] 1 f_name found d_Lists (λ e. cc, tt)

materialize_self-open_dir_example :
    (has f_name (open_dir memory disk 1 (materialize_self memory disk now 1 found))
      ≡ has f_name (open_dir memory disk 1 found))
    × (shows_original memory disk 1 (materialize_self memory disk now 1 found) ≡ false)
materialize_self-open_dir_example =
    materialize_self-open_dir memory disk now 1 found f_name refl refl refl d_Lists (λ e. cc, tt)

steps-Counted_example :
    (s' : MemUnionFs Table) × (rest : List File) × (steps memory disk now [] events (found, [])
      ≡ some (s', rest))
    × (s'.open_writable ≡ writables rest)
unfolding writables
steps-Counted_example = steps-Counted memory disk now [] events found [] refl
