-- ===== src/Net/Authenticate/Laws.antt =====
-- Two ends of one connection.
use termite.Base.{
  ◌≡◌, Bytes, false, some, bytes_eq, bytes_iff, arith, length, ◌≤◌, take_of_length-le,
}
use termite.Net.Authenticate.{
  Hmac, Conn, sign, Received, authenticated, expect_ack, challenge_length, check_ack,
  check_response, authenticate, respond,
}

-- The same connection from its other end.
pub flip : Conn → Conn
flip conn = record { local_addr = conn.remote_addr; remote_addr = conn.local_addr }

-- An end that knows the same secret, and got the challenge.
abbrev answer : Hmac → Conn → Bytes → Bytes → Bytes → Received
answer hmac conn secret challenge remote_challenge = record {
  challenge = some remote_challenge;
  response = some (respond hmac (flip conn) secret challenge);
  ack = some expect_ack;
}

-- For a challenge of at most 20 bytes, what one end expects is what the other end, seeing the two
-- addresses swapped, signs with the same secret: with an acknowledgement behind it, the connection
-- is authenticated.
pub authenticate-respond :
    (hmac : Hmac) (conn : Conn) (secret challenge remote_challenge : Bytes)
    → length challenge ≤ challenge_length
    → authenticate hmac conn secret challenge (answer hmac conn secret challenge remote_challenge)
      ≡ authenticated
unfolding authenticate respond sign flip check_response check_ack
authenticate-respond hmac conn secret challenge remote_challenge h =
    let s = sign hmac (flip conn) challenge secret false in
    ground (
      arith,
      take_of_length-le challenge_length challenge h,
      take_of_length-le (length s) s,
      bytes_iff s s,
      bytes_iff expect_ack expect_ack,
    )
