-- ===== src/Attr/Clients/Tests.antt =====
-- An example of one client: two changes are queued and sent.
use termite.Base.{refl, codes, true, false, [], ◌∷◌, arith, is_empty}
use termite.Attr.FileAttr.{FileAttr, deleted}
use termite.Attr.Clients.{send_begin, send_end}
use termite.Attr.Clients.Delivery.{
  Track, begins, ends, Reach, here, next, IsOrdered, Reach-IsOrdered,
}

abbrev gone : FileAttr
gone = deleted (codes "a")

-- A client as `AddClient` makes it, with one file.
abbrev added : Track
added = record {
  client = record { pending = gone ∷ []; sent_id = 0; pending_id = 1; busy = false };
  queued = gone ∷ [];
  sent = [];
  completed = 0;
  flights = [];
  removed = false;
  lost = [];
  marks = (1, 1) ∷ [];
}

abbrev sending : Track
sending = record {
  client = record { pending = []; sent_id = 0; pending_id = 1; busy = true };
  queued = gone ∷ [];
  sent = gone ∷ [];
  completed = 0;
  flights = (1, 1) ∷ [];
  removed = false;
  lost = [];
  marks = (1, 1) ∷ [];
}

abbrev delivered : Track
delivered = record {
  client = record { pending = []; sent_id = 1; pending_id = 1; busy = false };
  queued = gone ∷ [];
  sent = gone ∷ [];
  completed = 1;
  flights = [];
  removed = false;
  lost = [];
  marks = (1, 1) ∷ [];
}

added-IsOrdered : IsOrdered added
added-IsOrdered = record {
  exact = refl;
  numbered = (omega arith, tt);
  delivered = (λ q. absurd (omega arith), tt);
  behind = omega arith;
  kept = λ r. refl;
  emptied = λ r. cc;
  one_flight = λ r. refl;
}

sends : Reach added delivered
unfolding send_begin send_end is_empty
sends = next (next here (begins 1 (gone ∷ []) (omega arith) refl)) (ends 1 1 [] [] refl)

Reach-IsOrdered_example : IsOrdered delivered
Reach-IsOrdered_example = Reach-IsOrdered added-IsOrdered sends
