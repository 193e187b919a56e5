-- ===== src/Cursor/Tests.antt =====
-- services/api/recordstore/cursor.go: its theorems at a concrete cursor.
use xe6_tsy.Common.{◌≡◌, refl, false, some, [], ◌∷◌, ◌++◌, arith, codes, str_eq}
use xe6_tsy.Cursor.Base64.{
  Bytes, encode_to_string, decode_string, sextets, sextet, symbol, join_sextets,
}
use xe6_tsy.Cursor.{
  Cursor, session_turns, Format, CursorCodec, positioned, validate_cursor, cursor_version, dot,
  signature, encode, split, decode, decode_parts, decode_payload,
}
use xe6_tsy.Cursor.RoundTrip.{Reads, Fits, decode-encode, decode-signed}

abbrev turn : Cursor
turn = record {
  kind = session_turns;
  scope = "q";
  speaker_code = "";
  sequence_no = 1;
  created_at = 0;
  id = "t";
}

abbrev format : Format
format = record {
  marshal = λ c. some (codes "{}");
  parse = λ bytes. some (turn, false);
  mac = λ key message. key ++ message;
}

abbrev codec : CursorCodec
codec = record { signing_key = 107 ∷ [] }

reads : Reads format turn
reads = record {
  json = codes "{}";
  bytes = (omega arith, (omega arith, tt));
  writes = refl;
  reads = refl;
}

abbrev value : Bytes
value = codes "v1.e30.a3YxAGUzMA"

written : encode format codec turn ≡ some value
unfolding encode validate_cursor positioned str_eq signature encode_to_string symbol
written = refl

decode-encode_example :
    (text : Bytes) × (encode format codec turn ≡ some text)
    × (decode format codec text session_turns "q" ≡ some turn)
unfolding validate_cursor positioned str_eq
decode-encode_example = decode-encode format codec turn reads refl

decode-signed_example :
    ((payload : Bytes) × (value
        ≡ cursor_version ++ dot ∷ payload ++ dot ∷ signature format codec payload))
    × Fits turn session_turns "q"
unfolding decode decode_parts decode_payload split validate_cursor positioned str_eq signature
    encode_to_string symbol decode_string sextets sextet join_sextets
decode-signed_example = decode-signed format codec value session_turns "q" turn refl
