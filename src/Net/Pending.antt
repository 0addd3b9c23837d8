-- ===== src/Net/Pending.antt =====
-- termite/connection.go: `PendingConnections` and `ConnectionId`. A `*pendingConnection` is a number
-- into the store `heap`; a connection is a number too. Both operations hold the mutex; `WaitConnection`
-- gives it up while it sleeps on the condition `Ready`, so it is two operations. Of the calls that wait for a
-- connection it is known how many sleep, and how many are awake; only one that is awake goes on.
pub mod Delivery
mod Tests
use termite.Base.{
  ℕ, suc, ◌+◌, ◌-◌, ◌/◌, ◌%◌, ◌^◌, zero, Bytes, codes, Bool, List, [], ◌∷◌, ◌++◌, Option, none,
  some, ◌==◌, nat_eq, bytes_eq, if◌then◌else◌, Dict, lookup, insert, length,
}

pub record PendingConnection : Type 0 where
  pub conn : Option ℕ
  pub asleep : ℕ
  pub awake : ℕ

pub record PendingConnections : Type 0 where
  -- nil is `none`, as is a missing key
  pub connections : Dict Bytes (Option ℕ)
  pub heap : Dict ℕ PendingConnection
  pub next : ℕ

pub new_pending_connections : PendingConnections
new_pending_connections = record { connections = []; heap = []; next = 0 }

pub find : Bytes → PendingConnections → Option ℕ
find id p = elim (lookup id p.connections) [ none ↦ none | some o ↦ o ]

-- What a pointer points to.
pub target : ℕ → PendingConnections → PendingConnection
target i p = elim (lookup i p.heap) [
  | none ↦ record { conn = none; asleep = 0; awake = 0 }
  | some c ↦ c
]

pub assign : ℕ → PendingConnection → PendingConnections → PendingConnections
assign i c p = record p { heap = insert i c p.heap }

-- `newPendingConnection` and its entry in the map
pub new_pending_connection : Bytes → PendingConnections → ℕ × PendingConnections
new_pending_connection id p = (
  p.next,
  record {
    connections = insert id (some p.next) p.connections;
    heap = insert p.next (record { conn = none; asleep = 0; awake = 0 }) p.heap;
    next = suc p.next;
  },
)

pub find_or_new : Bytes → PendingConnections → ℕ × PendingConnections
find_or_new id p = elim (find id p) [ some i ↦ (i, p) | none ↦ new_pending_connection id p ]

-- The test of the loop: the call sleeps where there is no connection.
pub test_conn : PendingConnection → PendingConnection
test_conn c = elim c.conn [
  | none ↦ record c { asleep = suc c.asleep }
  | some _ ↦ record c { awake = suc c.awake }
]

-- `WaitConnection`, up to where it sleeps or goes on
pub wait_begin : Bytes → PendingConnections → ℕ × PendingConnections
wait_begin id p = let (i, q) = find_or_new id p in (i, assign i (test_conn (target i q)) q)

-- The rest, of a call that is awake; `none` where there is none, or where it sleeps again.
pub wait_on : Bytes → ℕ → PendingConnection → PendingConnections → Option (ℕ × PendingConnections)
wait_on id i c p = if c.awake == 0 then none else elim c.conn [
  | none ↦ none
  | some conn ↦
      let q = assign i (record c { awake = c.awake - 1 }) p in
      some (conn, record q { connections = insert id none q.connections })
]

pub wait_end : Bytes → ℕ → PendingConnections → Option (ℕ × PendingConnections)
wait_end id i p = wait_on id i (target i p) p

-- `Ready.Signal()`: one of those that sleep, if there is one, wakes up.
pub signal : PendingConnection → PendingConnection
signal c = if c.asleep == 0 then c else record c { asleep = c.asleep - 1; awake = suc c.awake }

pub data Accepted : Type 0 where
  closed : Accepted
  is_rpc : Accepted
  panics : Accepted
  pending : PendingConnections → Accepted

abbrev pub rpc_channel : Bytes
rpc_channel = codes "rpc......"

abbrev pub header_len : ℕ
header_len = 9

pub store_conn : ℕ → ℕ × PendingConnections → Accepted
store_conn conn (i, p) =
    let c = target i p in
    elim c.conn [
      | some _ ↦ panics
      | none ↦ pending (assign i (signal (record c { conn = some conn })) p)
    ]

-- `Accept`, given what `Read` yields, `none` for an error.
pub accept : Option Bytes → ℕ → PendingConnections → Accepted
accept none conn p = closed
accept (some id) conn p =
    if length id == header_len
    then (if id == rpc_channel then is_rpc else store_conn conn (find_or_new id p))
    else closed

-- `binary.BigEndian.PutUint64`: so many bytes, the last one the lowest.
pub put_uint : ℕ → ℕ → Bytes
put_uint zero v = []
put_uint (suc k) v = put_uint k (v / 256) ++ v % 256 ∷ []

-- `ConnectionId`, and what becomes of `nextConnectionId`: the addition wraps around, and so does `id--`.
pub connection_id : ℕ → Bytes × ℕ
connection_id next_connection_id =
    let id = (next_connection_id + 1) % 2 ^ 64 in
    (codes "i" ++ put_uint 8 ((id + (2 ^ 64 - 1)) % 2 ^ 64), id)
