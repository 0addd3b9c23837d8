-- ===== src/Attr/Waiter.antt =====
-- attr/filesetwaiter.go. A channel is a place in a heap, since a waiter keeps it when the map has
-- dropped it. `process` is the argument of `NewFileSetWaiter`; its error is what is given.
pub mod Laws
mod Tests
use termite.Base.{
  ℕ, ◌+◌, Bool, true, false, List, [], ◌∷◌, ◌++◌, Option, none, some, ◌==◌, nat_eq, length,
  get_elem?, set, if◌then◌else◌, Dict, lookup, insert, erase, has,
}

pub data Chan : Type 0 where
  -- open and empty; holding a value, and closed; closed without one
  empty signalled closed : Chan

pub record Waiter : Type 0 where
  pub channels : Dict ℕ ℕ
  pub heap : List Chan

-- `none` is the panic at an id that is waited for already.
pub prepare : ℕ → Waiter → Option Waiter
prepare id w =
    if has id w.channels
    then none
    else some
        (record { channels = insert id (length w.heap) w.channels; heap = w.heap ++ empty ∷ [] })

pub find_channel : ℕ → Waiter → Option ℕ
find_channel id w = lookup id w.channels

pub signal : ℕ → Waiter → Waiter
signal id w = elim (lookup id w.channels) [
  | none ↦ w
  | some p ↦ record { channels = erase id w.channels; heap = set w.heap p signalled }
]

-- `none` is the panic of closing a channel that is nil.
pub flush : ℕ → Waiter → Option Waiter
flush id w = elim (lookup id w.channels) [
  | none ↦ none
  | some p ↦ some (record { channels = erase id w.channels; heap = set w.heap p closed })
]

pub drop : ℕ → Waiter → Waiter
drop id w = record w { channels = erase id w.channels }

-- The loop over `taskids`, for the error of `process`.
pub release : Bool → List ℕ → ℕ → Waiter → Option Waiter
release failed [] wait_id w = some w
release failed (id ∷ ids) wait_id w =
    elim (if id == wait_id then some w else if failed then flush id w else some (signal id w)) [
      | none ↦ none
      | some w' ↦ release failed ids wait_id w'
    ]

-- `Wait` with a file set: the error of `process` is returned.
pub wait_files : Bool → List ℕ → ℕ → Waiter → Option Waiter
wait_files failed ids wait_id w = elim (release failed ids wait_id w) [
  | none ↦ none
  | some w' ↦ some (drop wait_id w')
]

pub data Waited : Type 0 where
  -- still at the channel; `nil`; "files were never sent."
  waiting returned unsent : Waited

pub receive : Option Chan → Waited
receive none = waiting
receive (some empty) = waiting
receive (some signalled) = returned
receive (some closed) = unsent

-- `Wait` without a file set, seen at a moment after `findChannel` gave this channel.
pub wait_channel : Option ℕ → Waiter → Waited
wait_channel none w = returned
wait_channel (some p) w = receive (get_elem? w.heap p)
