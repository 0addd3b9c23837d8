-- ===== src/Cba/Once.antt =====
-- `FetchOnce` of cba/client.go: callers that want files at the same time. Each holds the mutex but while it
-- waits and while it fetches; what a fetch adds to the store it adds at its end. A number stands for a caller.
pub mod Safe
mod Tests
use termite.Base.{
  ℕ, Bytes, Bool, true, false, [], Option, none, some, if◌then◌else◌, ◌==◌, nat_eq, bytes_eq, Dict,
  lookup, insert, erase, ◌≡◌,
}
use termite.Cba.Fetch.{
  Hash, Store, Request, Response, Outcome, failed, absent, corrupt, fetched, running, has_hash,
  fetch,
}

pub data Caller : Type 0 where
  idle : Caller
  -- before the loop, or in it
  wants : Bytes → Caller
  fetches : Bytes → Caller
  -- the call has returned, with this answer
  told : Bytes → Bool → Caller

pub record Client : Type 0 where
  pub store : Store
  pub fetching : Dict Bytes Bool
  pub callers : ℕ → Caller

-- `c.fetching[want]`, false where there is none
pub is_fetching : Bytes → Client → Bool
is_fetching want c = elim (lookup want c.fetching) [ none ↦ false | some b ↦ b ]

pub set_caller : ℕ → Caller → Client → Client
set_caller i a c = record c { callers = λ j. if j == i then a else c.callers j }

-- From the lock to `Wait`, to a return, or to the fetch.
pub look : ℕ → Bytes → Client → Client
look i want c =
    if has_hash c.store want
    then set_caller i (told want true) c
    else if is_fetching want c
    then c
    else set_caller i (fetches want) (record c { fetching = insert want true c.fetching })

pub is_fetched : Outcome → Bool
is_fetched fetched = true
is_fetched failed = false
is_fetched absent = false
is_fetched corrupt = false
is_fetched running = false

module _ (h : Hash) (call : Request → Option Response) (fuel : ℕ) where
  -- The fetch, and what follows it.
  pub finish_fetch : ℕ → Bytes → Client → Client
  finish_fetch i want c =
      let r = fetch call h c.store want fuel in
      set_caller i (told want (is_fetched r.1))
        (record c { store = r.0; fetching = erase want c.fetching })

  pub data Step (c : Client) : Client → Type 0 where
    -- A call begins, of a caller that has none under way.
    begins : (i : ℕ) (want : Bytes) → c.callers i ≡ idle → Step c (set_caller i (wants want) c)
    ends :
        (i : ℕ) (want : Bytes) (b : Bool) → c.callers i ≡ told want b → Step c (set_caller i idle c)
    looks : (i : ℕ) (want : Bytes) → c.callers i ≡ wants want → Step c (look i want c)
    finishes : (i : ℕ) (want : Bytes) → c.callers i ≡ fetches want → Step c (finish_fetch i want c)

  pub data Reach (c : Client) : Client → Type 0 where
    here : Reach c c
    next : {d e : Client} → Reach c d → Step d e → Reach c e

-- `NewClient`
pub new_client : Store → Client
new_client st = record { store = st; fetching = []; callers = λ i. idle }
