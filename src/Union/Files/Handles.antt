-- ===== src/Union/Files/Handles.antt =====
-- `openWritable` of fs/memunionfs.go counts the open files that can be written, so that `Release` does not
-- underflow it and `Reap` waits for all of them.
use termite.Base.{
  ℕ, zero, suc, ◌+◌, ◌≡◌, inl, inr, refl, ◌∙◌, Bytes, Bool, true, false, List, [], ◌∷◌, Option,
  none, some, if◌then◌else◌, nat_eq, bytes_eq, arith, Bool-cases, Option-cases,
}
use termite.Attr.FileAttr.{Status}
use termite.Union.Tree.{Inodes}
use termite.Union.{
  ReadOnly, MemUnionFs, create, touch_node, set_node, add_child, new_node, get_filename,
}
use termite.Union.Files.{
  File, promote, prepare_open, open_node, mark_close_write, release, flush, truncate,
}

pub data Event : Type 0 where
  open_event : Bool → Option Status → Option Status → ℕ → Event
  create_event : Option Status → ℕ → Bytes → ℕ → Event
  flush_event : File → ℕ → Event
  truncate_event : Option Status → ℕ → ℕ → Event
  -- `Release` of the open file with this number; there is none where the number is too large.
  release_event : ℕ → Event

unfoldable pub writables : List File → ℕ
writables [] = 0
writables (f ∷ files) = (if f.writable then 1 else 0) + writables files

take_out : ℕ → List File → Option (File × List File)
take_out k [] = none
take_out zero (f ∷ files) = some (f, files)
take_out (suc k) (f ∷ files) = elim (take_out k files) [
  | none ↦ none
  | some (g, rest) ↦ some (g, f ∷ rest)
]

with_file : Option File → List File → List File
with_file none files = files
with_file (some f) files = f ∷ files

module _ (I : Inodes) (ro : ReadOnly) (now : ℕ × ℕ) (backing_store : Bytes) where
  -- The file system with its open files; `none` is a panic.
  step : Event → MemUnionFs I.Table × List File → Option (MemUnionFs I.Table × List File)
  step (open_event write os_err ro_err i) (s, files) =
      let ((_, f), s') = open_node I ro now backing_store write os_err ro_err i s in
      some (s', with_file f files)
  step (create_event err p name mode) (s, files) =
      let ((_, c), s') = create I ro now backing_store err p name mode s in
      some (
        s',
        with_file (elim c [ none ↦ none | some i ↦ some (record { node = i; writable = true }) ])
            files,
      )
  step (flush_event f size) (s, files) = some (flush I ro now backing_store f size s, files)
  step (truncate_event err size i) (s, files) =
      some ((truncate I ro now backing_store err size i s).1, files)
  step (release_event k) (s, files) = elim (take_out k files) [
    | none ↦ some (s, files)
    | some (f, rest) ↦ elim (release I ro now backing_store f s) [
      | none ↦ none
      | some s' ↦ some (s', rest)
    ]
  ]

  pub steps : List Event → MemUnionFs I.Table × List File → Option (MemUnionFs I.Table × List File)
  steps [] st = some st
  steps (e ∷ es) st = elim (step e st) [ none ↦ none | some st' ↦ steps es st' ]

  abbrev Counted : MemUnionFs I.Table × List File → Type 0
  Counted (s, files) = s.open_writable ≡ writables files

  take_out-writables :
      (k : ℕ) (files : List File) (f : File) (rest : List File)
      → take_out k files ≡ some (f, rest)
      → writables files ≡ (if f.writable then 1 else 0) + writables rest
  unfolding take_out writables
  take_out-writables k [] f rest e = absurd (ground arith)
  take_out-writables zero (g ∷ files) f rest e = ground arith
  take_out-writables (suc k) (g ∷ files) f rest e = elim (Option-cases (take_out k files)) [
    | inl n ↦ absurd (ground (arith, n))
    | inr ((h, others), n) ↦ ground (arith, n, take_out-writables k files h others n)
  ]

  promote-count :
      (i : ℕ) (s : MemUnionFs I.Table)
      → (promote I ro now backing_store i s).open_writable ≡ s.open_writable
  unfolding promote set_node get_filename
  promote-count i s = ground arith

  prepare_open-count :
      (write : Bool) (i : ℕ) (s : MemUnionFs I.Table)
      → (prepare_open I ro now backing_store write i s).open_writable ≡ s.open_writable
  unfolding prepare_open touch_node set_node
  prepare_open-count true i s = promote-count i s
  prepare_open-count false i s = refl

  open_node-count :
      (write : Bool) (os_err ro_err : Option Status) (i : ℕ) (s : MemUnionFs I.Table)
      (files : List File)
      → Counted (s, files)
      → Counted (
        (open_node I ro now backing_store write os_err ro_err i s).1,
        with_file (open_node I ro now backing_store write os_err ro_err i s).0.1 files,
      )
  unfolding open_node with_file writables
  open_node-count write none none i s files c = ground (arith, c, prepare_open-count write i s)
  open_node-count write (some e) none i s files c = ground (arith, c, prepare_open-count write i s)
  open_node-count write none (some e) i s files c = ground (arith, c, prepare_open-count write i s)
  open_node-count write (some e) (some f) i s files c =
      ground (arith, c, prepare_open-count write i s)

  create-count :
      (err : Option Status) (p : ℕ) (name : Bytes) (mode : ℕ) (s : MemUnionFs I.Table)
      (files : List File)
      → Counted (s, files)
      → (st' : MemUnionFs I.Table × List File) × (step (create_event err p name mode) (s, files)
          ≡ some st')
        × Counted st'
  unfolding step create with_file writables touch_node set_node add_child new_node get_filename
  create-count none p name mode s files c = (_, refl, omega (arith, c))
  create-count (some code) p name mode s files c = (_, refl, omega (arith, c))

  truncate-count :
      (err : Option Status) (size i : ℕ) (s : MemUnionFs I.Table)
      → (truncate I ro now backing_store err size i s).1.open_writable ≡ s.open_writable
  unfolding truncate set_node
  truncate-count none size i s = promote-count i s
  truncate-count (some e) size i s = promote-count i s

  release-count :
      (f : File) (rest : List File) (s : MemUnionFs I.Table)
      → s.open_writable ≡ (if f.writable then 1 else 0) + writables rest
      → (s' : MemUnionFs I.Table) × (release I ro now backing_store f s ≡ some s')
        × (s'.open_writable ≡ writables rest)
  unfolding mark_close_write release
  release-count f rest s c = elim (Bool-cases f.writable) [
    | inl e ↦
        let one : s.open_writable ≡ suc (writables rest) = ground (arith, c, e) in
        (
          record s { open_writable = writables rest },
          rw (e, release) (close s (writables rest) one),
          refl,
        )
    | inr e ↦ (s, rw (e, release) refl, ground (arith, c, e))
  ]
    where
      close :
          (s : MemUnionFs I.Table) (n : ℕ)
          → s.open_writable ≡ suc n
          → mark_close_write I ro now backing_store s ≡ some (record s { open_writable = n })
      close s n e = rw (e, mark_close_write) refl

  step-Counted :
      (e : Event) (st : MemUnionFs I.Table × List File)
      → Counted st
      → (st' : MemUnionFs I.Table × List File) × (step e st ≡ some st') × Counted st'
  unfolding step
  step-Counted (open_event write os_err ro_err i) (s, files) c =
      (_, refl, open_node-count write os_err ro_err i s files c)
  step-Counted (create_event err p name mode) (s, files) c = create-count err p name mode s files c
  step-Counted (flush_event f size) (s, files) c =
      (_, refl, (unfold flush set_node in ground (arith, c)))
  step-Counted (truncate_event err size i) (s, files) c = (_, refl, truncate-count err size i s ∙ c)
  step-Counted (release_event k) (s, files) c = elim (Option-cases (take_out k files)) [
    | inl n ↦ ((s, files), rw (n, step) refl, c)
    | inr ((f, rest), n) ↦
        let (s', released, count) =
          release-count f rest s (c ∙ take_out-writables k files f rest n) in
        ((s', rest), rw (n, released, step) refl, count)
  ]

  -- Whatever files are opened, created, flushed and released, and whatever the calls below answer,
  -- `markCloseWrite` does not panic, and `openWritable` is the number of the open files that can be
  -- written, if it was before: it is 0, as `Reap` waits for, only when there is none.
  pub steps-Counted :
      (es : List Event) (s : MemUnionFs I.Table) (files : List File)
      → s.open_writable ≡ writables files
      → (s' : MemUnionFs I.Table) × (rest : List File) × (steps es (s, files) ≡ some (s', rest))
        × (s'.open_writable ≡ writables rest)
  unfolding steps
  steps-Counted [] s files c = (s, files, refl, c)
  steps-Counted (e ∷ es) s files c =
      let ((s', rest), one, counted) = step-Counted e (s, files) c in
      let (s'', left, all, done) = steps-Counted es s' rest counted in
      (s'', left, rw (one, all, steps) refl, done)
