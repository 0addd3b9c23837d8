-- ===== src/Attr/Clients/Delivery.antt =====
-- What one client is sent, over every interleaving of `Queue`, of fetches that append to the queue, of
-- calls of `Send`, any number of them at a time, and of `RmClient`.
use termite.Base.{
  ℕ, ◌≤◌, ◌<◌, ◌≡◌, ◌≢◌, refl, sym, ap, subst, ◌∙◌, inl, inr, Bool, true, false, List, [], ◌∷◌,
  ◌++◌, is_empty, Bool-cases, arith, length, length-append, append_assoc, append-nil,
}
use termite.Attr.FileAttr.{FileAttr}
use termite.Attr.Cache.{Pending}
use termite.Attr.Clients.{drop_client, queue_one, batch, send_begin, send_end}

-- The state of one client with its history: what was queued for it, what was handed to its
-- connection, how much of that in calls that came back, the calls under way, each with the number that it
-- read and with how much had been handed over when it was, what `RmClient` threw away, and for each file set
-- how much had been queued when it was.
pub record Track : Type 0 where
  pub client : Pending
  pub queued : List FileAttr
  pub sent : List FileAttr
  pub completed : ℕ
  pub flights : List (ℕ × ℕ)
  pub removed : Bool
  pub lost : List FileAttr
  pub marks : List (ℕ × ℕ)

pub data Step (t : Track) : Track → Type 0 where
  -- `Queue` of a file set with a new number
  queues :
      (fsid : ℕ) (files : List FileAttr)
      → t.removed ≡ false
      → t.client.pending_id < fsid
      → Step t (record t {
        client = queue_one fsid files t.client;
        queued = t.queued ++ files;
        marks = (fsid, length (t.queued ++ files)) ∷ t.marks;
      })
  -- `unsafeGet` appends what it fetched
  fetches :
      (a : FileAttr)
      → t.removed ≡ false
      → Step t (record t {
        client = record t.client { pending = t.client.pending ++ a ∷ [] };
        queued = t.queued ++ a ∷ [];
      })
  -- a `Send` that began earlier, and so may have read an older number, gets to send; it keeps a client that
  -- was removed meanwhile
  begins :
      (need : ℕ) (files : List FileAttr)
      → need ≤ t.client.pending_id
      → (send_begin need t.client).1 ≡ batch files
      → Step t (record t {
        client = (send_begin need t.client).0;
        sent = t.sent ++ files;
        flights = (need, length (t.sent ++ files)) ∷ t.flights;
      })
  -- one of those under way comes back
  ends :
      (need handed : ℕ) (before after : List (ℕ × ℕ))
      → t.flights ≡ before ++ (need, handed) ∷ after
      → Step t (record t {
        client = send_end need t.client;
        completed = handed;
        flights = before ++ after;
      })
  -- `RmClient`
  removes : Step t (record t {
    client = drop_client t.client;
    removed = true;
    lost = t.lost ++ t.client.pending;
  })

pub data Reach (s : Track) : Track → Type 0 where
  here : Reach s s
  next : {t u : Track} → Reach s t → Step t u → Reach s u

-- Each file set up to the given number was queued within the given length.
abbrev pub Within : ℕ → ℕ → List (ℕ × ℕ) → Type 0
Within id len [] = Unit {0}
Within id len ((n, l) ∷ marks) = (n ≤ id → l ≤ len) × Within id len marks

-- Every file set was queued within the given length.
abbrev pub Lengths : ℕ → List (ℕ × ℕ) → Type 0
Lengths len [] = Unit {0}
Lengths len ((n, l) ∷ marks) = (l ≤ len) × Lengths len marks

-- One call is under way at most; `busy` says whether, until the client is removed.
abbrev pub Flies : Track → List (ℕ × ℕ) → Type 0
Flies t [] = t.removed ≡ false → t.client.busy ≡ false
Flies t ((need, handed) ∷ []) =
    (t.removed ≡ false → t.client.busy ≡ true)
    × (need ≤ t.client.pending_id)
    × (handed ≡ length t.sent)
    × Within need handed t.marks
Flies t (_ ∷ _ ∷ _) = ⊥

pub record IsOrdered (t : Track) : Type 0 where
  -- what was sent, was thrown away and is pending make up what was queued, in order
  pub exact : t.sent ++ t.lost ++ t.client.pending ≡ t.queued
  -- nothing is thrown away before the client is removed, and nothing is pending after it
  pub kept : t.removed ≡ false → t.lost ≡ []
  pub emptied : t.removed ≡ true → t.client.pending ≡ []
  pub numbered : Lengths (length t.queued) t.marks
  pub delivered : Within t.client.sent_id t.completed t.marks
  pub behind : t.client.sent_id ≤ t.client.pending_id
  pub one_flight : Flies t t.flights

Lengths-mono :
    (len len' : ℕ) (marks : List (ℕ × ℕ)) → len ≤ len' → Lengths len marks → Lengths len' marks
Lengths-mono len len' [] k w = tt
Lengths-mono len len' ((n, l) ∷ marks) k w = (omega arith, Lengths-mono len len' marks k w.1)

Lengths-Within : (id len : ℕ) (marks : List (ℕ × ℕ)) → Lengths len marks → Within id len marks
Lengths-Within id len [] w = tt
Lengths-Within id len ((n, l) ∷ marks) w = (λ q. w.0, Lengths-Within id len marks w.1)

queues-Flies :
    (t : Track) (fsid : ℕ) (files : List FileAttr) (flights : List (ℕ × ℕ))
    → t.client.pending_id < fsid
    → Flies t flights
    → Flies
        (record t {
          client = queue_one fsid files t.client;
          queued = t.queued ++ files;
          marks = (fsid, length (t.queued ++ files)) ∷ t.marks;
        })
        flights
unfolding queue_one
queues-Flies t fsid files [] n f = f
queues-Flies t fsid files ((need, handed) ∷ []) n (busy, old, all, w) =
    (busy, omega arith, all, (λ q. absurd (omega arith), w))
queues-Flies t fsid files (_ ∷ _ ∷ _) n f = absurd f

fetches-Flies :
    (t : Track) (a : FileAttr) (flights : List (ℕ × ℕ))
    → Flies t flights
    → Flies
        (record t {
          client = record t.client { pending = t.client.pending ++ a ∷ [] };
          queued = t.queued ++ a ∷ [];
        })
        flights
fetches-Flies t a [] f = f
fetches-Flies t a ((need, handed) ∷ []) f = f
fetches-Flies t a (_ ∷ _ ∷ _) f = absurd f

removes-Flies :
    (t : Track) (lost : List FileAttr) (flights : List (ℕ × ℕ))
    → Flies t flights
    → Flies (record t { client = drop_client t.client; removed = true; lost = lost }) flights
unfolding drop_client
removes-Flies t lost [] f = λ e. cc
removes-Flies t lost ((need, handed) ∷ []) (busy, old, all, w) = (λ e. cc, old, all, w)
removes-Flies t lost (_ ∷ _ ∷ _) f = absurd f

-- What a `Send` that gets to send takes: all that is pending, which is not nothing, with no other under way.
begin-batch :
    (need : ℕ) (w : Pending) (files : List FileAttr)
    → (send_begin need w).1 ≡ batch files
    → (files ≡ w.pending)
      × ((send_begin need w).0 ≡ record w { pending = []; busy = true })
      × (w.busy ≡ false)
      × (w.pending ≢ [])
unfolding send_begin is_empty
begin-batch need w files e =
    (ground arith, ground arith, ground arith, λ q. full w.pending (ground arith) q)
  where
    full : (l : List FileAttr) → is_empty l ≡ false → l ≢ []
    full [] h q = cc
    full (a ∷ l) h q = cc

-- A client that is not busy and was not removed has no call under way.
no_flight :
    (t : Track) (flights : List (ℕ × ℕ))
    → t.removed ≡ false
    → t.client.busy ≡ false
    → Flies t flights
    → flights ≡ []
no_flight t [] r b f = refl
no_flight t (_ ∷ []) r b (busy, _, _, _) = absurd (ground (arith, busy r))
no_flight t (_ ∷ _ ∷ _) r b f = absurd f

-- The call that comes back is the one that is under way.
ends-Flies :
    (t : Track) (need handed : ℕ) (before after flights : List (ℕ × ℕ))
    → flights ≡ before ++ (need, handed) ∷ after
    → Flies t flights
    → (before ++ after ≡ []) × Flies t ((need, handed) ∷ [])
ends-Flies t need handed before after flights e f = only before after (subst (Flies t) e f)
  where
    only :
        (before after : List (ℕ × ℕ))
        → Flies t (before ++ (need, handed) ∷ after)
        → (before ++ after ≡ []) × Flies t ((need, handed) ∷ [])
    only [] [] f = (refl, f)
    only [] (_ ∷ _) f = absurd f
    only (_ ∷ []) after f = absurd f
    only (_ ∷ _ ∷ _) after f = absurd f

exact_snoc : (a b c d q : List FileAttr) → a ++ b ++ c ≡ q → a ++ b ++ (c ++ d) ≡ q ++ d
exact_snoc a b c d q e = sym (append_assoc (a ++ b) c d) ∙ ap (λ x. x ++ d) e

Step-IsOrdered : {t u : Track} → Step t u → IsOrdered t → IsOrdered u
unfolding queue_one send_end drop_client
Step-IsOrdered {t} (queues fsid files stays new) o = record {
  exact = exact_snoc t.sent t.lost t.client.pending files t.queued o.exact;
  kept = o.kept;
  emptied = λ r. absurd (ground arith);
  numbered = (
    omega arith,
    Lengths-mono (length t.queued) (length (t.queued ++ files)) t.marks
        (omega (arith, length-append t.queued files)) o.numbered,
  );
  delivered = (λ q. absurd (omega (arith, o.behind)), o.delivered);
  behind = omega (arith, o.behind);
  one_flight = queues-Flies t fsid files t.flights new o.one_flight;
}
Step-IsOrdered {t} (fetches a stays) o = record {
  exact = exact_snoc t.sent t.lost t.client.pending (a ∷ []) t.queued o.exact;
  kept = o.kept;
  emptied = λ r. absurd (ground arith);
  numbered =
      Lengths-mono (length t.queued) (length (t.queued ++ a ∷ [])) t.marks
        (omega (arith, length-append t.queued (a ∷ []))) o.numbered;
  delivered = o.delivered;
  behind = o.behind;
  one_flight = fetches-Flies t a t.flights o.one_flight;
}
Step-IsOrdered {t} (begins need files old e) o =
    let (all, client, free, some_left) = begin-batch need t.client files e in
    let stays : t.removed ≡ false = elim (Bool-cases t.removed) [
      | inl r ↦ absurd (some_left (o.emptied r))
      | inr r ↦ r
    ] in
    let none_lost = o.kept stays in
    let whole : t.sent ++ t.client.pending ≡ t.queued =
      sym (ap (λ x. x ++ t.client.pending) (append-nil t.sent))
      ∙ sym (ap (λ x. t.sent ++ x ++ t.client.pending) none_lost)
      ∙ o.exact in
    let alone : t.flights ≡ [] = no_flight t t.flights stays free o.one_flight in
    rw (client, all, alone)
      (record {
        exact = rw none_lost (
            append-nil (t.sent ++ t.client.pending ++ [])
            ∙ append-nil (t.sent ++ t.client.pending)
            ∙ whole);
        kept = o.kept;
        emptied = λ r. refl;
        numbered = o.numbered;
        delivered = o.delivered;
        behind = o.behind;
        one_flight = (
          λ r. refl,
          old,
          refl,
          rw whole (Lengths-Within need (length t.queued) t.marks o.numbered),
        );
      })
Step-IsOrdered {t} (ends need handed before after e) o =
    let (empty, (busy, old, all, w)) =
      ends-Flies t need handed before after t.flights e o.one_flight in
    rw empty (record {
      exact = o.exact;
      kept = o.kept;
      emptied = o.emptied;
      numbered = o.numbered;
      delivered = w;
      behind = old;
      one_flight = λ r. refl;
    })
Step-IsOrdered {t} removes o = record {
  exact =
      append-nil (t.sent ++ (t.lost ++ t.client.pending))
      ∙ sym (append_assoc t.sent t.lost t.client.pending)
      ∙ o.exact;
  kept = λ r. cc;
  emptied = λ r. refl;
  numbered = o.numbered;
  delivered = o.delivered;
  behind = o.behind;
  one_flight = removes-Flies t (t.lost ++ t.client.pending) t.flights o.one_flight;
}

-- From an ordered state, over every interleaving of any number of calls, the batches that a client was sent are,
-- in order and each once, a prefix of what was queued for it, and the rest is pending, or was thrown away when
-- the client was removed; one call is under way at a time, even when a removed client is no longer busy; and
-- when the number of a file set is not above `sentId`, all that was queued up to it has been sent in calls
-- that came back.
pub Reach-IsOrdered : {t u : Track} → IsOrdered t → Reach t u → IsOrdered u
Reach-IsOrdered o here = o
Reach-IsOrdered o (next r s) = Step-IsOrdered s (Reach-IsOrdered o r)
