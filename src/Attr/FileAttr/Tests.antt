-- ===== src/Attr/FileAttr/Tests.antt =====
-- Examples for the encoded attributes.
use termite.Base.{◌≡◌, arith, some, [], ◌∷◌}
use termite.Attr.FileAttr.Encoded.{EncodedAttr, encode, decode}
use termite.Attr.FileAttr.Encoded.Laws.{decode-encode}

abbrev key : EncodedAttr
key = record { size = 300; mtimens = 70000; perm = 0o644; nlink = 1 }

abbrev blank : EncodedAttr
blank = record { size = 0; mtimens = 0; perm = 0; nlink = 0 }

decode-encode_example : decode blank (encode key (9 ∷ 8 ∷ [])) ≡ (key, some (9 ∷ 8 ∷ []))
decode-encode_example =
    decode-encode key (9 ∷ 8 ∷ []) blank (record {
      perm = omega arith;
      nlink = omega arith;
      size = omega arith;
      mtimens = omega arith;
    })
