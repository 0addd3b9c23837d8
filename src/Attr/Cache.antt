-- ===== src/Attr/Cache.antt =====
-- attr/attrcache.go: the attributes and their getters; Attr/Clients has the queues of the clients.
-- The mutex is held throughout each operation but for the calls of the getter, whose answer is an
-- argument. That maps are shared between an update and the cache is not modelled: an update takes
-- the value that the files have when it runs. `Paranoia` is off, so that `update` does not end with
-- `verify`, which is Cache/Verify.
pub mod Update
pub mod Linked
pub mod Preserve
pub mod Reads
pub mod Verify
pub mod Refresh
pub mod Tests
use termite.Base.{
  ℕ, zero, suc, ◌+◌, Bytes, Bool, true, false, not, ◌&&◌, ◌||◌, List, [], ◌∷◌, ◌++◌, Option, none,
  some, ltb, map, length, ◌==◌, nat_eq, bytes_eq, if◌then◌else◌, Dict, lookup, insert, erase,
  is_empty, slash,
}
use termite.Paths.{split_path}
use termite.Attr.FileAttr.{FileAttr, Attr, deleted, deletion, is_dir, copy, merge, type_bits}
use termite.Attr.FileSet.{sort}

-- `attrCachePending`; the connection itself is not part of it.
pub record Pending : Type 0 where
  pub pending : List FileAttr
  pub sent_id : ℕ
  pub pending_id : ℕ
  pub busy : Bool

pub record Cache : Type 0 where
  pub attributes : Dict Bytes FileAttr
  pub busy : Dict Bytes Bool
  pub clients : Dict Bytes Pending
  pub next_file_set_id : ℕ

pub new : Cache
new = record { attributes = []; busy = []; clients = []; next_file_set_id = 1 }

-- `a.NameModeMap[base]`, which is 0 where there is none.
pub child_mode : Option (Dict Bytes ℕ) → Bytes → ℕ
child_mode none base = 0
child_mode (some m) base = elim (lookup base m) [ none ↦ 0 | some mode ↦ mode ]

pub names_none : FileAttr → Bool
names_none a = elim a.names [ none ↦ true | some _ ↦ false ]

pub have : Cache → Bytes → Bool
have c name = elim (lookup name c.attributes) [ none ↦ false | some _ ↦ true ]

-- What a cached directory says of a name that is not cached.
pub denied : Option FileAttr → Bytes → Bytes → Option FileAttr
denied none name base = none
denied (some d) name base =
    if not (names_none d) && child_mode d.names base == 0 then some (deleted name) else none

pub local_get : Cache → Bytes → Bool → Option FileAttr
local_get c name withdir = elim (lookup name c.attributes) [
  | some a ↦ some (copy a withdir)
  | none ↦
      let (dir, base) = split_path name in
      if is_empty name then none else denied (lookup dir c.attributes) name base
]

pub data Listed : Type 0 where
  -- The parent is not cached; the parent has no `NameModeMap`, a panic; the parent was changed.
  discarded panicked : Listed
  listed : Dict Bytes FileAttr → Listed

pub mode_of : FileAttr → ℕ
mode_of r = elim r.attr [ none ↦ 0 | some a ↦ a.mode ]

pub list_names : FileAttr → Bytes → Dict Bytes ℕ → Dict Bytes ℕ
list_names r base m = if deletion r then erase base m else insert base (type_bits (mode_of r)) m

-- The parent's part of `update`.
pub list_in_parent : Dict Bytes FileAttr → FileAttr → Bytes → Bytes → Listed
list_in_parent attributes r dir base = elim (lookup dir attributes) [
  | none ↦ discarded
  | some d ↦ elim d.names [
    | none ↦ panicked
    | some m ↦ listed (insert dir (record d { names = some (list_names r base m) }) attributes)
  ]
]

pub store_merged : Cache → FileAttr → Option FileAttr → Option Cache
store_merged c r none = none
store_merged c r (some a) =
    some (record c { attributes = insert r.path a c.attributes; busy = erase r.path c.busy })

-- The entry's own part of `update`; `none` is a panic.
pub store_attr : Cache → FileAttr → Option Cache
store_attr c r =
    if deletion r
    then some (record c { attributes = erase r.path c.attributes })
    else elim (lookup r.path c.attributes) [
      | none ↦ if is_dir r && names_none r then some c else store_merged c r (some r)
      | some old ↦ store_merged c r (merge old r)
    ]

pub update_listed : Cache → FileAttr → Listed → Option Cache
update_listed c r discarded = some c
update_listed c r panicked = none
update_listed c r (listed attributes) = store_attr (record c { attributes = attributes }) r

pub leading_slash : Bytes → Bool
leading_slash [] = false
leading_slash (c ∷ s) = c == slash

-- One round of the loop of `update`.
pub update_one : Cache → FileAttr → Option Cache
update_one c r =
    let (dir, base) = split_path r.path in
    if leading_slash r.path
    then none
    else if is_empty base
    then store_attr c r
    else update_listed c r (list_in_parent c.attributes r dir base)

pub update : Cache → List FileAttr → Option Cache
update c [] = some c
update c (r ∷ files) = elim (update_one c r) [ none ↦ none | some c' ↦ update c' files ]

-- `copyFiles`
pub copy_files : Cache → List FileAttr
copy_files c = sort (map (λ e. copy e.1 true) c.attributes)

-- A `get` either returns or waits for another `get` of the same name to finish.
pub data Got : Type 0 where
  got : Cache → FileAttr → Got
  waits : Got

pub queue_copy : FileAttr → Dict Bytes Pending → Dict Bytes Pending
queue_copy a = map (λ (id, w). (id, record w { pending = w.pending ++ a ∷ [] }))

-- The end of `unsafeGet`, from the call of the getter on. A getter that fails leaves the name busy.
pub fetched : Cache → Bytes → Bool → Option FileAttr → Got
fetched c name withdir none = got (record c { busy = insert name true c.busy }) (deleted name)
fetched c name withdir (some answer) =
    let rep = record answer { path = name } in
    got
      (record c {
        attributes = if deletion rep then c.attributes else insert name rep c.attributes;
        busy = erase name c.busy;
        clients = queue_copy (copy rep true) c.clients;
      })
      (copy rep withdir)

pub is_busy : Option Bool → Bool
is_busy none = false
is_busy (some b) = b

pub get_here : Cache → Bytes → Bool → Option FileAttr → Got
get_here c name withdir answer = elim (lookup name c.attributes) [
  | some rep ↦ got c rep
  | none ↦ if is_busy (lookup name c.busy) then waits else fetched c name withdir answer
]

pub get_below : Got → Bytes → Bytes → Bool → Option FileAttr → Got
get_below waits name base withdir answer = waits
get_below (got c d) name base withdir answer =
    if deletion d || (not (is_dir d) || child_mode d.names base == 0)
    then got c (deleted name)
    else get_here c name withdir answer

-- `unsafeGet`; the getter answers for a name what it answers at the time of the call. The fuel
-- bounds the depth of the name.
pub unsafe_get : (Bytes → Option FileAttr) → ℕ → Cache → Bytes → Bool → Got
unsafe_get getter zero c name withdir = waits
unsafe_get getter (suc fuel) c name withdir =
    let (dir, base) = split_path name in
    let parent = unsafe_get getter fuel c dir true in
    if is_empty name
    then get_here c name withdir (getter name)
    else get_below parent name base withdir (getter name)

-- `get`: its two phases hold the lock one after the other; nothing else runs between them here.
pub get : (Bytes → Option FileAttr) → Cache → Bytes → Bool → Got
get getter c name withdir = elim (local_get c name withdir) [
  | some a ↦ got c a
  | none ↦ unsafe_get getter (length name + 1) c name withdir
]
