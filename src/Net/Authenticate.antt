-- ===== src/Net/Authenticate.antt =====
-- termite/connection.go: `sign` and `Authenticate`. HMAC-SHA1 is a parameter of what a secret makes of a
-- text; the texts of the two addresses of a connection are given. What one end reads is given
-- too, `none` for a read that fails; writes succeed, and closing is left out.
pub mod Laws
mod Tests
use termite.Base.{
  ℕ, Bytes, codes, Bool, true, false, List, [], ◌∷◌, ◌++◌, Option, none, some, ◌==◌, bytes_eq,
  if◌then◌else◌, take, length,
}

abbrev pub Hmac : Type 0
Hmac = Bytes → Bytes → Bytes

-- `LocalAddr` and `RemoteAddr` of one end
pub record Conn : Type 0 where
  pub local_addr : Bytes
  pub remote_addr : Bytes

pub sign : Hmac → Conn → Bytes → Bytes → Bool → Bytes
sign hmac conn challenge secret is_local =
    let l = conn.local_addr in
    let r = conn.remote_addr in
    hmac secret (challenge ++ (if is_local then l ++ codes "-" ++ r else r ++ codes "-" ++ l))

-- What the other end sends: its challenge, its response, its acknowledgement.
pub record Received : Type 0 where
  pub challenge : Option Bytes
  pub response : Option Bytes
  pub ack : Option Bytes

pub data Outcome : Type 0 where
  read_error : Outcome
  mismatch : Outcome
  missing_ack : Outcome
  authenticated : Outcome

-- `expectAck`
abbrev pub expect_ack : Bytes
expect_ack = codes "OK"

abbrev pub challenge_length : ℕ
challenge_length = 20

pub check_ack : Option Bytes → Outcome
check_ack none = read_error
check_ack (some ack) =
    if expect_ack == take (length expect_ack) ack then authenticated else missing_ack

pub check_response : Bytes → Option Bytes → Option Bytes → Outcome
check_response expected none ack = read_error
check_response expected (some response) ack =
    if take (length expected) response == expected then check_ack ack else mismatch

-- What `Authenticate` returns, given its random challenge.
pub authenticate : Hmac → Conn → Bytes → Bytes → Received → Outcome
authenticate hmac conn secret challenge got = elim got.challenge [
  | none ↦ read_error
  | some _ ↦ check_response (sign hmac conn challenge secret true) got.response got.ack
]

-- What it writes once it has read a challenge.
pub respond : Hmac → Conn → Bytes → Bytes → Bytes
respond hmac conn secret remote_challenge =
    sign hmac conn (take challenge_length remote_challenge) secret false
