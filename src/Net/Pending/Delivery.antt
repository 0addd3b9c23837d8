-- ===== src/Net/Pending/Delivery.antt =====
-- A connection and the call that waits for it meet, whichever comes first.
use termite.Base.{
  ℕ, zero, suc, ◌+◌, ◌*◌, ◌-◌, ◌/◌, ◌%◌, ◌^◌, ◌<◌, ◌≡◌, ◌≢◌, refl, sym, ap, ◌∙◌, Bytes, codes, [],
  ◌∷◌, ◌++◌, Option, none, some, nat_eq, bytes_eq, bytes_iff, insert, lookup-insert_self, length,
  arith, append_left_cancel,
}
use native.Mathlib.Nat.{pow-suc}
use termite.Net.Pending.{
  PendingConnection, PendingConnections, find, target, assign, test_conn, signal, wait_on,
  new_pending_connection, find_or_new, wait_begin, wait_end, pending, rpc_channel, header_len,
  store_conn, accept, put_uint, connection_id,
}

module _ (id : Bytes) (p : PendingConnections) where
  find_or_new-none : find id p ≡ none → find_or_new id p ≡ new_pending_connection id p
  unfolding find_or_new
  find_or_new-none e = rw (e, find_or_new) refl

  find_or_new-some : (i : ℕ) → find id p ≡ some i → find_or_new id p ≡ (i, p)
  unfolding find_or_new
  find_or_new-some i e = rw (e, find_or_new) refl

-- A pending connection that has no connection yet, with so many calls that sleep, and one that has it.
abbrev empty : ℕ → PendingConnection
empty sleepers = record { conn = none; asleep = sleepers; awake = 0 }

abbrev full : ℕ → ℕ → PendingConnection
full conn waiters = record { conn = some conn; asleep = 0; awake = waiters }

target-assign :
    (i : ℕ) (c : PendingConnection) (p : PendingConnections) → target i (assign i c p) ≡ c
unfolding target assign
target-assign i c p = rw (lookup-insert_self i c p.heap, target) refl

find-assign :
    (id : Bytes) (i : ℕ) (c : PendingConnection) (p : PendingConnections)
    → find id (assign i c p) ≡ find id p
unfolding find assign
find-assign id i c p = refl

module _ (id : Bytes) (conn : ℕ) (p : PendingConnections) where
  abbrev made : PendingConnections
  made = (new_pending_connection id p).1

  find-made : find id made ≡ some p.next
  unfolding find new_pending_connection
  find-made = rw (lookup-insert_self id (some p.next) p.connections, find) refl

  target-made : target p.next made ≡ empty 0
  unfolding target new_pending_connection
  target-made = rw (lookup-insert_self p.next (empty 0) p.heap, target) refl

  find_or_new-new : find id p ≡ none → find_or_new id p ≡ (p.next, made)
  unfolding new_pending_connection
  find_or_new-new e = find_or_new-none id p e

  wait_begin-found :
      (q s : PendingConnections) (c c' : PendingConnection)
      → find_or_new id q ≡ (p.next, s)
      → target p.next s ≡ c
      → test_conn c ≡ c'
      → wait_begin id q ≡ (p.next, assign p.next c' s)
  unfolding wait_begin
  wait_begin-found q s c c' e t f =
      ap (λ (i, x). (i, assign i (test_conn (target i x)) x)) e
      ∙ ap (λ x. (p.next, assign p.next (test_conn x) s)) t
      ∙ ap (λ x. (p.next, assign p.next x s)) f

  -- The call that waits gets to sleep.
  wait_begin-new : find id p ≡ none → wait_begin id p ≡ (p.next, assign p.next (empty 1) made)
  wait_begin-new e =
      wait_begin-found p made (empty 0) (empty 1) (find_or_new-new e) target-made
        (unfold test_conn in refl)

  -- One that comes when the connection is there does not.
  wait_begin-full :
      (q : PendingConnections)
      → find id q ≡ some p.next
      → target p.next q ≡ full conn 0
      → wait_begin id q ≡ (p.next, assign p.next (full conn 1) q)
  wait_begin-full q e t =
      wait_begin-found q q (full conn 0) (full conn 1) (find_or_new-some id q p.next e) t
        (unfold test_conn in refl)

  wait_end-asleep :
      (q : PendingConnections) → target p.next q ≡ empty 1 → wait_end id p.next q ≡ none
  unfolding wait_end
  wait_end-asleep q t = ap (λ c. wait_on id p.next c q) t ∙ (unfold wait_on in refl)

  accept-empty :
      (sleepers : ℕ) (q s : PendingConnections)
      → length id ≡ header_len
      → id ≢ rpc_channel
      → find_or_new id q ≡ (p.next, s)
      → target p.next s ≡ empty sleepers
      → accept (some id) conn q
        ≡ pending (assign p.next (signal (record (empty sleepers) { conn = some conn })) s)
  unfolding accept store_conn
  accept-empty sleepers q s h n e t = ground (arith, bytes_iff id rpc_channel, e, t)

  wait_end-full :
      (q : PendingConnections)
      → target p.next q ≡ full conn 1
      → (r : PendingConnections) × (wait_end id p.next q ≡ some (conn, r)) × (find id r ≡ none)
  unfolding wait_end
  wait_end-full q t =
      let s = assign p.next (full conn 0) q in
      (
        record s { connections = insert id none s.connections },
        ap (λ c. wait_on id p.next c q) t ∙ (unfold wait_on in refl),
        unfold find in rw (lookup-insert_self {V = Option ℕ} id none s.connections, find) refl,
      )

-- For an identifier of the header's length that is not the one of the RPC channel and that nothing
-- is pending for: if the connection comes first, the call that waits for the identifier next gets it without
-- sleeping; if the call waits first, it sleeps, and the connection wakes it up when it comes, so that it gets
-- it. Either way the connection is not refused, and the identifier is free again at the end.
pub wait_end-accept :
    (id : Bytes) (conn : ℕ) (p : PendingConnections)
    → length id ≡ header_len
    → id ≢ rpc_channel
    → find id p ≡ none
    → ((q : PendingConnections) × (r : PendingConnections) × (accept (some id) conn p ≡ pending q)
        × (wait_end id (wait_begin id q).0 (wait_begin id q).1 ≡ some (conn, r))
        × (find id r ≡ none))
      × ((q : PendingConnections) × (r : PendingConnections) × (wait_end id
              (wait_begin id p).0
              (wait_begin id p).1
            ≡ none)
          × (accept (some id) conn (wait_begin id p).1 ≡ pending q)
          × (wait_end id (wait_begin id p).0 q ≡ some (conn, r))
          × (find id r ≡ none))
wait_end-accept id conn p h n e =
    let m = made id conn p in
    let ready = assign p.next (full conn 0) m in
    let begun = assign p.next (full conn 1) ready in
    let asleep = assign p.next (empty 1) m in
    let woken = assign p.next (full conn 1) asleep in
    let (r, got, free) = wait_end-full id conn p begun (target-assign p.next (full conn 1) ready) in
    let (r', got', free') =
      wait_end-full id conn p woken (target-assign p.next (full conn 1) asleep) in
    let b : wait_begin id ready ≡ (p.next, begun) =
      wait_begin-full id conn p ready (find-assign id p.next _ m ∙ find-made id conn p)
        (target-assign p.next (full conn 0) m) in
    (
      (
        ready,
        r,
        (unfold signal in
            accept-empty id conn p 0 p m h n (find_or_new-new id conn p e) (target-made id conn p)),
        rw b got,
        free,
      ),
      (
        woken,
        r',
        rw (wait_begin-new id conn p e)
            (wait_end-asleep id conn p asleep (target-assign p.next (empty 1) m)),
        rw (wait_begin-new id conn p e) (
            unfold signal in
            accept-empty id conn p 1 asleep asleep h n
              (find_or_new-some id asleep p.next (find-assign id p.next _ m ∙ find-made id conn p))
              (target-assign p.next (empty 1) m)),
        rw (wait_begin-new id conn p e) got',
        free',
      ),
    )

value : ℕ → Bytes → ℕ
value acc [] = acc
value acc (b ∷ s) = value (256 * acc + b) s

value-snoc : (acc b : ℕ) (s : Bytes) → value acc (s ++ b ∷ []) ≡ 256 * value acc s + b
unfolding value
value-snoc acc b [] = refl
value-snoc acc b (c ∷ s) = value-snoc (256 * acc + c) b s

value-put_uint : (k v : ℕ) → v < 256 ^ k → value 0 (put_uint k v) ≡ v
unfolding value put_uint
value-put_uint zero v h = ground arith
value-put_uint (suc k) v h = ground (
  arith,
  value-snoc 0 (v % 256) (put_uint k (v / 256)),
  value-put_uint k (v / 256),
  pow-suc 256 k,
)

connection_id-value :
    (n : ℕ) → n < 2 ^ 64 → connection_id n ≡ (codes "i" ++ put_uint 8 n, (n + 1) % 2 ^ 64)
unfolding connection_id
connection_id-value n h =
    let wrap : ((n + 1) % 2 ^ 64 + (2 ^ 64 - 1)) % 2 ^ 64 ≡ n = omega arith in
    rw (wrap, connection_id) refl

-- The 2^64 identifiers that `ConnectionId` hands out before its counter is back at the start are
-- pairwise different.
pub connection_id-injective :
    (n m : ℕ) → n < 2 ^ 64 → m < 2 ^ 64 → (connection_id n).0 ≡ (connection_id m).0 → n ≡ m
connection_id-injective n m h k e =
    let eq : codes "i" ++ put_uint 8 n ≡ codes "i" ++ put_uint 8 m =
      sym (ap (λ x. x.0) (connection_id-value n h)) ∙ e ∙ ap (λ x. x.0) (connection_id-value m k) in
    sym (value-put_uint 8 n (omega arith))
    ∙ ap (value 0) (append_left_cancel (codes "i") eq)
    ∙ value-put_uint 8 m (omega arith)
