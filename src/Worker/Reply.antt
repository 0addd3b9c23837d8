-- ===== src/Worker/Reply.antt =====
-- What a worker sends back: `reap` of termite/fuse.go, `fillReply` of termite/task.go and
-- `DestructiveSavePath` of cba/store.go. The files of the worker's own disk are their contents by path.
-- `dir` is the new directory that `ioutil.TempDir` answers, `get` is what `rpcFs.attr.Get` does. `none`
-- is a panic, or `log.Fatal`. That the file system goes back to its pool is left out.
pub mod Moved
pub mod Saved
pub mod Complete
mod Tests
use termite.Base.{
  ℕ, suc, Bytes, Bool, true, false, not, ◌&&◌, ◌||◌, List, [], ◌∷◌, ◌++◌, Option, none, some, ◌==◌,
  bytes_eq, if◌then◌else◌, Dict, lookup, insert, erase, is_empty, has_prefix, slash, decimal,
  trim_left,
}
use termite.Paths.{join}
use termite.Attr.FileAttr.{FileAttr, deletion, is_regular}
use termite.Attr.FileSet.{sort}
use termite.Cba.Fetch.{Hash, Store, has_hash, save}
use termite.Union.Tree.{Inodes}
use termite.Union.{ReadOnly, MemUnionFs}
use termite.Union.Reap.{Result}
use termite.Union.Reap as Reap
use termite.Union.Reset.{reset}

infixl 5 ◌>>=◌
abbrev pub ◌>>=◌ : {A B : Type 0} → Option A → (A → Option B) → Option B
none >>= f = none
some a >>= f = f a

abbrev pub Files : Type 0
Files = Dict Bytes Bytes

-- `os.Rename` of a file to a name that nothing has.
pub rename : Bytes → Bytes → Files → Option Files
rename old new files = lookup old files >>= λ c. some (insert new c (erase old files))

-- The variables of the loop of `reap`: `backingStoreFiles`, `i`, and the disk.
pub record Moving : Type 0 where
  pub files : Files
  pub moved : Dict Bytes Bytes
  pub next : ℕ

-- `backingStoreFiles[v.Backing]`, "" where there is none
pub new_backing : Bytes → Dict Bytes Bytes → Bytes
new_backing backing moved = elim (lookup backing moved) [ none ↦ [] | some b ↦ b ]

-- `fmt.Sprintf("%s/%d", dir, i)`
pub name_in : Bytes → ℕ → Bytes
name_in dir i = dir ++ slash ∷ decimal i

pub move_new : Bytes → Result → Moving → Option (Result × Moving)
move_new dir v s =
    let to = name_in dir s.next in
    rename v.backing to s.files >>= λ files. some (
      record v { backing = to },
      record { files = files; moved = insert v.backing to s.moved; next = suc s.next },
    )

-- One round of the loop of `reap`.
pub move_backing : Bytes → Result → Moving → Option (Result × Moving)
move_backing dir v s =
    let known = new_backing v.backing s.moved in
    if is_empty v.backing
    then some (v, s)
    else if is_empty known
    then move_new dir v s
    else some (record v { backing = known }, s)

pub move_backings : Bytes → Dict Bytes Result → Moving → Option (Dict Bytes Result × Moving)
move_backings dir [] s = some ([], s)
move_backings dir ((path, v) ∷ yield) s = move_backing dir v s >>= λ (v', s').
    (move_backings dir yield s' >>= λ (rest, t). some ((path, v') ∷ rest, t))

-- `reap` of termite/fuse.go, with `Reap` and `Reset` of the union file system
pub reap :
    (I : Inodes)
    → ReadOnly
    → ℕ
    → Bytes
    → MemUnionFs I.Table
    → Files
    → Option (Dict Bytes Result × Files × MemUnionFs I.Table)
reap I ro fuel dir u files = Reap.reap I ro fuel u >>= λ yield.
    (move_backings dir yield (record { files = files; moved = []; next = 0 }) >>= λ (yield', t).
    (reset I ro fuel u >>= λ u'. some (yield', t.files, u')))

-- The variables of the loop of `fillReply`: `reapedHashes`, the disk and the content store.
pub record Filling : Type 0 where
  pub files : Files
  pub store : Store
  pub reaped : Dict Bytes Bytes

-- Something is below the directory.
pub is_below : Bytes → Files → Bool
is_below dir [] = false
is_below dir ((p, _) ∷ files) = has_prefix p (dir ++ slash ∷ []) || is_below dir files

-- `DestructiveSavePath`; that the file does not change meanwhile is relied on.
pub destructive_save_path : Hash → Bytes → Files → Store → Option (Bytes × Files × Store)
destructive_save_path h path files st = lookup path files >>= λ c.
    let s = h.sum c in some (s, erase path files, if has_hash st s then st else save h st c)

pub save_new : Hash → Bytes → Filling → Option (Bytes × Filling)
save_new h backing s = destructive_save_path h backing s.files s.store >>= λ (hash, files, st).
    if is_empty hash
    then none
    else some (hash, record { files = files; store = st; reaped = insert backing hash s.reaped })

-- `reapedHashes[v.Backing]`, or the file is saved.
pub save_backing : Hash → Bytes → Filling → Option (Bytes × Filling)
save_backing h backing s = elim (lookup backing s.reaped) [
  | some hash ↦ some (hash, s)
  | none ↦ save_new h backing s
]

-- The hash that a file below had, for one that was not written to but moved.
pub original_hash : (Bytes → FileAttr) → Bytes → Result → Option Bytes
original_hash get root v =
    let path = join root v.original in
    if not (is_empty v.original) && not (v.original == path)
    then (if is_empty (get path).hash then none else some (get path).hash)
    else some []

pub fill_hash : Hash → (Bytes → FileAttr) → Bytes → Result → Filling → Option (Bytes × Filling)
fill_hash h get root v s = original_hash get root v >>= λ hash.
    if is_empty v.backing then some (hash, s) else save_backing h v.backing s

-- The `FileAttr` of a result, before its hash is known.
pub attr_of : Bytes → Bytes → Result → FileAttr
attr_of root path v = record {
  path = join root path;
  attr = v.attr;
  hash = [];
  link = v.link;
  names = none;
}

-- One round of the loop of `fillReply`.
pub fill_one :
    Hash → (Bytes → FileAttr) → Bytes → Bytes → Result → Filling → Option (FileAttr × Filling)
fill_one h get root path v s =
    let f = attr_of root path v in
    if not (deletion f) && is_regular f
    then (fill_hash h get root v s >>= λ (hash, t). some (record f { hash = hash }, t))
    else some (f, s)

pub fill_all :
    Hash
    → (Bytes → FileAttr)
    → Bytes
    → Dict Bytes Result
    → Filling
    → Option (List FileAttr × Filling)
fill_all h get root [] s = some ([], s)
fill_all h get root ((path, v) ∷ yield) s = fill_one h get root path v s >>= λ (f, s').
    (fill_all h get root yield s' >>= λ (files, t). some (f ∷ files, t))

-- What `fillReply` leaves, and the file set.
pub record Reply (I : Inodes) : Type 0 where
  pub file_set : List FileAttr
  pub files : Files
  pub store : Store
  pub union : MemUnionFs I.Table

pub fill_reply :
    (I : Inodes)
    → ReadOnly
    → ℕ
    → Hash
    → (Bytes → FileAttr)
    → Bytes
    → Bytes
    → MemUnionFs I.Table
    → Files
    → Store
    → Option (Reply I)
fill_reply I ro fuel h get writable_root dir u files st =
    reap I ro fuel dir u files >>= λ (yield, moved, u').
    (fill_all h get (trim_left writable_root) yield
        (record { files = moved; store = st; reaped = [] })
      >>= λ (infos, t).
          if is_below dir t.files
          then none
          else some
              (record { file_set = sort infos; files = t.files; store = t.store; union = u' }))
