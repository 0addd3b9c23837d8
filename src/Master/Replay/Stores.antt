-- ===== src/Master/Replay/Stores.antt =====
-- Where the content store has what `replay` copies, preparing the files does not panic.
use termite.Base.{
  ◌-◌, ◌≡◌, inl, inr, refl, Bytes, true, false, List, [], ◌∷◌, some, ltb, is_empty, insert,
  bytes_eq, All, Bool-cases,
}
use termite.Attr.FileAttr.{FileAttr, deletion}
use termite.Cba.Fetch.{Store, has_hash}
use termite.Cba.Fetch.Kept.{has_hash-open_hash}
use termite.Master.Disk.{file}
use termite.Master.Replay.{
  Prepared, count_of, add_file, note_deletion, copy_contents, prepare_one, prepare,
}

-- A content that the store has, where one is needed.
abbrev pub IsThere : Store → FileAttr → Type 0
IsThere st info = is_empty info.hash ≡ false → has_hash st info.hash ≡ true

prepare_one-some :
    (get : Bytes → FileAttr) (st : Store) (info : FileAttr) (s : Prepared)
    → IsThere st info
    → (s' : Prepared) × (prepare_one get st info s ≡ some s')
unfolding prepare_one copy_contents
prepare_one-some get st info s there = elim (Bool-cases (deletion info)) [
  | inl d ↦ (note_deletion info.path (get info.path) s, rw (d, prepare_one) refl)
  | inr d ↦ elim (Bool-cases (is_empty info.hash)) [
    | inl z ↦ (s, rw (d, z, prepare_one) refl)
    | inr z ↦ elim (Bool-cases (ltb 0 (count_of info.hash s.have_hashes))) [
      | inl l ↦ (
        record s {
          have_hashes = insert info.hash (count_of info.hash s.have_hashes - 1) s.have_hashes;
        },
        rw (d, z, l, prepare_one) refl,
      )
      | inr l ↦
          let (c, o) = has_hash-open_hash st info.hash (there z) in
          (
            record s { new_files = add_file info.hash (file c) s.new_files },
            rw (d, z, l, o, prepare_one, copy_contents) refl,
          )
    ]
  ]
]

pub prepare-some :
    (get : Bytes → FileAttr) (st : Store) (files : List FileAttr) (s : Prepared)
    → All (IsThere st) files
    → (t : Prepared) × (prepare get st files s ≡ some t)
unfolding prepare
prepare-some get st [] s a = (s, refl)
prepare-some get st (info ∷ files) s a =
    let (s', e) = prepare_one-some get st info s a.0 in
    let (t, f) = prepare-some get st files s' a.1 in (t, rw (e, prepare) f)
