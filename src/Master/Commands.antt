-- ===== src/Master/Commands.antt =====
-- termite/masterrun.go: the commands `rm` and `mkdir`, which the master runs itself. `view` is what
-- `attributes.GetDir` answers when the disk is as given, `st` the content store, `to_attr` is `fuse.ToAttr`.
-- Logging is left out, and so is the update of the master's own attribute cache behind each replay: that `view`
-- follows the disk is assumed where it is needed. The order of a directory's names is that of its map.
pub mod Components
pub mod Parents
pub mod Twice
mod Tests
use termite.Base.{
  ℕ, zero, suc, ◌*◌, Bytes, codes, Bool, true, false, not, ◌&&◌, ◌||◌, List, [], ◌∷◌, ◌++◌, Option,
  none, some, map, ◌==◌, nat_eq, bytes_eq, if◌then◌else◌, Dict, erase, is_empty, has_prefix, slash,
  trim_left, file_split, split_slash, join_slash, is_rooted, clean, file_join,
}
use termite.Paths.{split_path}
use termite.Attr.FileAttr.{Attr, FileAttr, deleted, deletion, is_dir, copy, file_type}
use termite.Cba.Fetch.{Store}
use termite.Master.Disk.{Node, Disk}
use termite.Master.Replay as Replay
use termite.Shell.Getopt.{GetoptResult, has_long, has_short, has_options, getopt}

pub data Ran (A : Type 0) : Type 0 where
  ran : A → Ran A
  -- a panic, or `log.Fatal`
  ended : Ran A
  -- the fuel ran out
  running : Ran A

infixl 5 ◌>>=◌
abbrev pub ◌>>=◌ : {A B : Type 0} → Ran A → (A → Ran B) → Ran B
ran a >>= f = f a
ended >>= f = ended
running >>= f = running

pub record WorkRequest : Type 0 where
  pub binary : Bytes
  pub argv : List Bytes
  pub dir : Bytes

pub record WorkResponse : Type 0 where
  pub stderr : Bytes
  pub exit : ℕ

-- `strings.Join(msgs, "\n")`
pub lines : List Bytes → Bytes
lines [] = []
lines (m ∷ []) = m
lines (m ∷ m' ∷ msgs) = m ++ 10 ∷ lines (m' ∷ msgs)

-- `SetTimes(nil, &now, &now)`; without attributes it is a panic.
pub set_times : ℕ → FileAttr → Ran FileAttr
set_times now a = elim a.attr [
  | none ↦ ended
  | some b ↦ ran (record a { attr = some (record b { mtime = now; mtimensec = 0 }) })
]

-- What both commands do first with an argument; "" is a panic.
pub full_path : Bytes → Bytes → Ran Bytes
full_path dir [] = ended
full_path dir (c ∷ a) = if c == slash then ran (c ∷ a) else ran (file_join dir (c ∷ a))

pub name_modes : FileAttr → Dict Bytes ℕ
name_modes a = elim a.names [ none ↦ [] | some m ↦ m ]

-- The loop of `recurseNames`.
pub recurse_children : (Bytes → Ran (List Bytes)) → Bytes → Dict Bytes ℕ → Ran (List Bytes)
recurse_children f name [] = ran []
recurse_children f name ((n, m) ∷ modes) =
    (if file_type m == 0o040000 then f (file_join name n) else ran (file_join name n ∷ [])) >>= λ l.
    (recurse_children f name modes >>= λ rest. ran (l ++ rest))

pub recurse_names : (Bytes → FileAttr) → ℕ → Bytes → Ran (List Bytes)
recurse_names get zero name = running
recurse_names get (suc fuel) name =
    recurse_children (recurse_names get fuel) name (name_modes (get name)) >>= λ names.
    ran (if deletion (get name) then names else names ++ name ∷ [])

-- What `rm` has collected: `fs.Files`, `msgs` and `status`.
pub record Removal : Type 0 where
  pub files : List FileAttr
  pub msgs : List Bytes
  pub status : ℕ

-- One target of `rm -r`.
pub rm_tree : (Bytes → FileAttr) → ℕ → ℕ → Bytes → Removal → Ran Removal
rm_tree get now fuel t r =
    let parent = copy (get (split_path t).0) false in
    let touched = set_times now parent >>= λ p.
    (recurse_names get fuel t >>= λ names.
    ran (record r { files = r.files ++ (p ∷ map deleted names) })) in
    if deletion parent then ran r else touched

-- One target of `rm`.
pub rm_file : (Bytes → FileAttr) → ℕ → Bool → Bytes → Removal → Ran Removal
rm_file get now force p r =
    let a = get p in
    let missing = record r {
      msgs = r.msgs ++ (codes "rm: no such file or directory: " ++ p) ∷ [];
      status = 1;
    } in
    let directory = record r {
      msgs = r.msgs ++ (codes "rm: is a directory: " ++ p) ∷ [];
      status = 1;
    } in
    if deletion a
    then ran (if force then r else missing)
    else if is_dir a
    then ran directory
    else (set_times now (copy (get (split_path p).0) false) >>= λ parent.
        ran (record r { files = r.files ++ (parent ∷ deleted p ∷ []) }))

pub rm_all : (Bytes → Removal → Ran Removal) → List Bytes → Removal → Ran Removal
rm_all one [] r = ran r
rm_all one (t ∷ todo) r = one t r >>= rm_all one todo

pub to_do : Bytes → List Bytes → Ran (List Bytes)
to_do dir [] = ran []
to_do dir (a ∷ args) =
    full_path dir a >>= λ p. (to_do dir args >>= λ todo. ran (trim_left (clean p) ∷ todo))

-- `g` without an option
pub without_long : Bytes → GetoptResult → GetoptResult
without_long name g = record g { long = erase name g.long }

pub without_short : ℕ → GetoptResult → GetoptResult
without_short c g = record g { short = erase c g.short }

pub nothing_removed : Removal
nothing_removed = record { files = []; msgs = []; status = 0 }

-- `argv[1:]` of no arguments is a panic.
pub with_options :
    (GetoptResult → Ran (Option (Disk × WorkResponse)))
    → List Bytes
    → Ran (Option (Disk × WorkResponse))
with_options f [] = ended
with_options f (a ∷ args) = f (getopt args [] [] true)

pub mkdir_entry : ℕ → Bytes → FileAttr
mkdir_entry now p = record {
  path = p;
  attr = some (record {
    ino = 0;
    size = 0;
    mtime = now;
    mtimensec = 0;
    mode = 0o040755;
    nlink = 0;
    uid = 0;
    gid = 0;
  });
  hash = [];
  link = [];
  names = some [];
}

-- `strings.Contains(a, "..")`
pub has_dots : Bytes → Bool
has_dots [] = false
has_dots (c ∷ s) = has_prefix (c ∷ s) (codes "..") || has_dots s

pub any_dots : List Bytes → Bool
any_dots [] = false
any_dots (a ∷ args) = has_dots a || any_dots args

pub mkdir_all :
    (Bytes → Disk → WorkResponse → Ran (Disk × WorkResponse))
    → Bytes
    → List Bytes
    → Disk × WorkResponse
    → Ran (Disk × WorkResponse)
mkdir_all one dir [] (d, rep) = ran (d, rep)
mkdir_all one dir (a ∷ args) (d, rep) =
    full_path dir a >>= λ p. (one (clean p) d rep >>= mkdir_all one dir args)

module _ (view : Disk → Bytes → FileAttr) (st : Store) (to_attr : Option Node → Option Attr) where
  -- `master.replay`, for the disk
  pub replay_set : List FileAttr → Disk → Ran Disk
  replay_set files d = elim (Replay.replay (λ p. copy (view d p) false) st to_attr files d) [
    | Replay.done (r, _) ↦ ran r.disk
    | Replay.fatal ↦ ended
    | Replay.out_of_range ↦ ended
  ]

  pub rm_replay : Removal → Disk → Ran (Disk × WorkResponse)
  rm_replay r d = replay_set r.files d >>= λ d'.
      ran (d', record { stderr = lines r.msgs; exit = r.status * 256 })

  -- `rmMaybeMasterRun`, behind the options; `none` is false: the command is not run here.
  pub rm_options : GetoptResult → ℕ → ℕ → Bytes → Disk → Ran (Option (Disk × WorkResponse))
  rm_options g now fuel dir d =
      let force = has_long g (codes "force") || has_short g b'f' in
      let g' = without_short b'f' (without_long (codes "force") g) in
      let recursive = has_long g' (codes "recursive") || (has_short g' b'r' || has_short g' b'R') in
      let g'' = without_short b'r' (without_short b'R' (without_long (codes "recursive") g')) in
      let one = if recursive then rm_tree (view d) now fuel else rm_file (view d) now force in
      let run = to_do dir g''.args >>= λ todo.
      (rm_all one todo nothing_removed >>= λ r. (rm_replay r d >>= λ answer. ran (some answer))) in
      if has_options g'' then ran none else run

  -- The new directory and its parent, which is touched, are replayed.
  pub make_entry : ℕ → FileAttr → Bytes → Disk → Ran Disk
  make_entry now parent p d =
      set_times now parent >>= λ parent'. replay_set (parent' ∷ mkdir_entry now p ∷ []) d

  -- The loop of `mkdirParentMasterRun`: the components so far, those to come, and `parent`.
  pub mkdir_parents : ℕ → List Bytes → List Bytes → FileAttr → Disk → Ran (Disk × List Bytes)
  mkdir_parents now before [] parent d = ran (d, [])
  mkdir_parents now before (c ∷ rest) parent d =
      let p = join_slash (before ++ c ∷ []) in
      let a = copy (view d p) false in
      let made =
        make_entry now parent p d
        >>= mkdir_parents now (before ++ c ∷ []) rest (mkdir_entry now p) in
      let there = mkdir_parents now (before ++ c ∷ []) rest a d in
      if deletion a
      then made
      else if is_dir a
      then there
      else ran (d, (codes "Not a directory: /" ++ p) ∷ [])

  -- `mkdirParentMasterRun`
  pub mkdir_parent : ℕ → Bytes → Disk → WorkResponse → Ran (Disk × WorkResponse)
  mkdir_parent now arg d rep =
      mkdir_parents now [] (split_slash (trim_left arg)) (copy (view d []) false) d
      >>= λ (d', msgs).
          ran (d', if is_empty msgs then rep else record { stderr = lines msgs; exit = 256 })

  -- `mkdirNormalMasterRun`
  pub mkdir_normal : ℕ → Bytes → Disk → WorkResponse → Ran (Disk × WorkResponse)
  mkdir_normal now arg d rep =
      let rootless = trim_left arg in
      let dir = (split_path rootless).0 in
      let dir_attr = copy (view d dir) false in
      if deletion dir_attr
      then ran (d, record { stderr = codes "File not found: /" ++ dir; exit = 256 })
      else if not (is_dir dir_attr)
      then ran (d, record { stderr = codes "Is not a directory: /" ++ dir; exit = 256 })
      else if not (deletion (copy (view d rootless) false))
      then ran (d, record { stderr = codes "File exists: /" ++ rootless; exit = 256 })
      else (make_entry now dir_attr rootless d >>= λ d'. ran (d', rep))

  -- `mkdirMaybeMasterRun`, behind the options
  pub mkdir_options :
      GetoptResult → ℕ → Bytes → Disk → WorkResponse → Ran (Option (Disk × WorkResponse))
  mkdir_options g now dir d rep =
      let parents = has_long g (codes "parent") || has_short g b'p' in
      let g' = without_short b'p' (without_long (codes "parent") g) in
      let one = if parents then mkdir_parent now else mkdir_normal now in
      let run = mkdir_all one dir g'.args (d, rep) >>= λ answer. ran (some answer) in
      if has_options g' || any_dots g'.args then ran none else run

  -- `MaybeRunInMaster`
  pub maybe_run_in_master :
      ℕ → ℕ → WorkRequest → Disk → WorkResponse → Ran (Option (Disk × WorkResponse))
  maybe_run_in_master now fuel req d rep =
      let binary = (file_split req.binary).1 in
      if binary == codes "mkdir"
      then with_options (λ g. mkdir_options g now req.dir d rep) req.argv
      else if binary == codes "rm"
      then with_options (λ g. rm_options g now fuel req.dir d) req.argv
      else ran none
