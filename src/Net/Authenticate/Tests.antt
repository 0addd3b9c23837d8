-- ===== src/Net/Authenticate/Tests.antt =====
-- An example of two ends.
use termite.Base.{◌≡◌, codes, ◌++◌, [], ◌∷◌, some, arith}
use termite.Net.Authenticate.{Hmac, Conn, authenticated, authenticate, respond, expect_ack}
use termite.Net.Authenticate.Laws.{flip, authenticate-respond}

-- Not a hash, but a function of the secret and the text.
abbrev plain_hmac : Hmac
plain_hmac secret t = secret ++ t

abbrev conn : Conn
conn = record { local_addr = codes "a:1"; remote_addr = codes "b:2" }

authenticate-respond_example :
    authenticate plain_hmac conn (codes "key") (1 ∷ 2 ∷ []) (record {
      challenge = some (3 ∷ []);
      response = some (respond plain_hmac (flip conn) (codes "key") (1 ∷ 2 ∷ []));
      ack = some expect_ack;
    })
    ≡ authenticated
authenticate-respond_example =
    authenticate-respond plain_hmac conn (codes "key") (1 ∷ 2 ∷ []) (3 ∷ []) (omega arith)
