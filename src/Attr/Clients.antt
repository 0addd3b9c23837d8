-- ===== src/Attr/Clients.antt =====
-- The clients of attr/attrcache.go: each has a queue of changes that it was not sent yet. `Send`
-- gives up the mutex while the client sends, so it is two steps, and others may run between them.
pub mod Delivery
mod Tests
use termite.Base.{
  ℕ, suc, ◌+◌, Bytes, Bool, true, false, ◌&&◌, ◌||◌, List, [], ◌∷◌, ◌++◌, Option, none, some, ltb,
  leb, map, bytes_eq, if◌then◌else◌, is_empty, Dict, lookup, insert, erase, has,
}
use termite.Attr.FileAttr.{FileAttr}
use termite.Attr.Cache.{Cache, Pending, copy_files}

-- `AddClient`; `none` is its panic.
pub add_client : Bytes → Cache → Option Cache
add_client id c =
    if has id c.clients
    then none
    else some (record c {
      clients =
          insert id
            (record {
              pending = copy_files c;
              sent_id = 0;
              pending_id = c.next_file_set_id;
              busy = false;
            })
            c.clients;
      next_file_set_id = c.next_file_set_id + 1;
    })

-- What `RmClient` does to the client, which calls of `Send` may still hold.
pub drop_client : Pending → Pending
drop_client w = record w { pending = []; busy = false }

-- `RmClient`, for the map
pub rm_client : Bytes → Cache → Cache
rm_client id c = record c { clients = erase id c.clients }

-- What `Queue` does to one client.
pub queue_one : ℕ → List FileAttr → Pending → Pending
queue_one fsid files w = record w { pending = w.pending ++ files; pending_id = fsid }

pub queue : List FileAttr → Cache → Cache
unfolding queue_one
queue files c = record c {
  clients = map (λ (id, w). (id, queue_one c.next_file_set_id files w)) c.clients;
  next_file_set_id = c.next_file_set_id + 1;
}

pub data Sending : Type 0 where
  -- It waits on the condition; it returns nil at once; it sends this batch.
  blocked idle : Sending
  batch : List FileAttr → Sending

-- `Send` up to the point where it gives up the mutex; `need_sync` is the `pendingId` that it read
-- when it began.
pub send_begin : ℕ → Pending → Pending × Sending
send_begin need_sync w =
    if w.busy && ltb w.sent_id need_sync
    then (w, blocked)
    else if is_empty w.pending || leb need_sync w.sent_id
    then (w, idle)
    else (record w { pending = []; busy = true }, batch w.pending)

-- The rest of `Send`, whether the client reported an error or not.
pub send_end : ℕ → Pending → Pending
send_end need_sync w = record w { busy = false; sent_id = need_sync }
