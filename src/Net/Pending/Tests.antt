-- ===== src/Net/Pending/Tests.antt =====
-- Examples for connections that are waited for.
use termite.Base.{◌≡◌, refl, Bytes, codes, lookup, none, some, arith}
use termite.Net.Pending.{
  PendingConnections, new_pending_connections, find, accept, pending, wait_begin, wait_end,
}
use termite.Net.Pending.Delivery.{wait_end-accept}

abbrev stdin_id : Bytes
stdin_id = codes "i12345678"

wait_end-accept_example :
    ((q : PendingConnections) × (r : PendingConnections) × (accept
          (some stdin_id)
          7
          new_pending_connections
        ≡ pending q)
      × (wait_end stdin_id (wait_begin stdin_id q).0 (wait_begin stdin_id q).1 ≡ some (7, r))
      × (find stdin_id r ≡ none))
    × ((q : PendingConnections) × (r : PendingConnections) × (wait_end stdin_id
            (wait_begin stdin_id new_pending_connections).0
            (wait_begin stdin_id new_pending_connections).1
          ≡ none)
        × (accept (some stdin_id) 7 (wait_begin stdin_id new_pending_connections).1 ≡ pending q)
        × (wait_end stdin_id (wait_begin stdin_id new_pending_connections).0 q ≡ some (7, r))
        × (find stdin_id r ≡ none))
unfolding new_pending_connections find lookup
wait_end-accept_example =
    wait_end-accept stdin_id 7 new_pending_connections refl (λ e. ground arith) refl
