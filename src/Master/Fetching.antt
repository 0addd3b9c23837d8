-- ===== src/Master/Fetching.antt =====
-- `mirrorConnection.replay` of termite/mirrorconnection.go: the master fetches what it does not have of a file
-- set, and then replays it. `call` is the content server of the worker, and `Fetch` of cba/client.go is `fetch`,
-- which nobody else calls for the same hash meanwhile.
pub mod Prepared
mod Tests
use termite.Base.{
  ℕ, Bytes, Bool, true, false, not, ◌||◌, List, [], ◌∷◌, Option, none, some, if◌then◌else◌,
  is_empty,
}
use termite.Attr.FileAttr.{Attr, FileAttr}
use termite.Cba.Fetch.{
  Hash, Store, Request, Response, Outcome, failed, absent, corrupt, fetched, running, has_hash,
  fetch,
}
use termite.Master.Disk.{Node, Disk}
use termite.Master.Replay.{Replaying, replay}
use termite.Master.Replay as Replay

-- Every file is there; `return err`; `log.Fatalf`; the rounds of a fetch ran out.
pub data Fetching : Type 0 where
  complete stopped died unfinished : Fetching

pub fetching : Outcome → Fetching
fetching failed = stopped
fetching absent = died
fetching corrupt = died
fetching fetched = complete
fetching running = unfinished

-- What follows a fetch: the rest of the loop, or the end of it.
pub go_on : Fetching → Store → Store × Fetching → Store × Fetching
go_on complete st later = later
go_on stopped st later = (st, stopped)
go_on died st later = (st, died)
go_on unfinished st later = (st, unfinished)

module _ (h : Hash) (call : Request → Option Response) (rounds : ℕ) where
  -- The loop of `replay`.
  pub fetch_files : List FileAttr → Store → Store × Fetching
  fetch_files [] st = (st, complete)
  fetch_files (info ∷ files) st =
      let skipped = fetch_files files st in
      let (st', o) = fetch call h st info.hash rounds in
      let later = fetch_files files st' in
      if is_empty info.hash || has_hash st info.hash then skipped else go_on (fetching o) st' later

  -- `replay`; `none` where it does not come to `master.replay`.
  pub fetch_replay :
      (Bytes → FileAttr)
      → (Option Node → Option Attr)
      → List FileAttr
      → Store
      → Disk
      → Option (Replay.Outcome (Replaying × List FileAttr))
  fetch_replay get to_attr files st d =
      let (st', f) = fetch_files files st in
      elim f [
        | complete ↦ some (replay get st' to_attr files d)
        | stopped ↦ none
        | died ↦ none
        | unfinished ↦ none
      ]
