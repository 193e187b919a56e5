-- ===== src/Cursor.antt =====
-- services/api/recordstore/cursor.go: the signed cursors of the record lists. A text or a sequence of
-- bytes is a list of numbers; JSON and the HMAC are parameters.
mod Tests
pub mod RoundTrip
pub mod Base64
use xe6_tsy.Common.{
  ℕ, Bool, true, false, not, ◌&&◌, ◌||◌, Option, none, some, String, List, [], ◌∷◌, ◌++◌,
  if◌then◌else◌, ◌==◌, str_eq, is_blank, codes, positive,
}
use xe6_tsy.Contract.Mode.{Time}
use xe6_tsy.Cursor.Base64.{Bytes, encode_to_string, decode_string}

pub data CursorKind : Type 0 where
  participants session_turns history : CursorKind
  other : String → CursorKind

pub record Cursor : Type 0 where
  pub kind : CursorKind
  pub scope : String
  pub speaker_code : String
  pub sequence_no : ℕ
  pub created_at : Time
  pub id : String

-- `encoding/json` on cursors: `parse` is the cursor that the strict decoder reads and whether it
-- then reads an empty object. `mac` is the HMAC under a key.
pub record Format : Type 0 where
  pub marshal : Cursor → Option Bytes
  pub parse : Bytes → Option (Cursor × Bool)
  pub mac : Bytes → Bytes → Bytes

pub record CursorCodec : Type 0 where
  pub signing_key : Bytes

unfoldable pub new_cursor_codec : Bytes → Option CursorCodec
new_cursor_codec [] = none
new_cursor_codec (b ∷ bs) = some (record { signing_key = b ∷ bs })

abbrev pub kind_eq : CursorKind → CursorKind → Bool
kind_eq participants participants = true
kind_eq session_turns session_turns = true
kind_eq history history = true
kind_eq (other a) (other b) = str_eq a b
kind_eq _ _ = false

-- The position that each kind has.
unfoldable pub positioned : CursorKind → Cursor → Bool
positioned participants c = not (is_blank c.speaker_code) && c.sequence_no == 0 && c.created_at == 0
positioned session_turns c = is_blank c.speaker_code && positive c.sequence_no && c.created_at == 0
positioned history c = is_blank c.speaker_code && c.sequence_no == 0 && not (c.created_at == 0)
positioned (other k) c = false

unfoldable pub validate_cursor : Cursor → Bool
validate_cursor c = not (is_blank c.scope || is_blank c.id) && positioned c.kind c

abbrev pub cursor_version : Bytes
cursor_version = codes "v1"

abbrev pub dot : ℕ
dot = 46

unfoldable pub signature : Format → CursorCodec → Bytes → Bytes
signature format codec payload =
    encode_to_string (format.mac codec.signing_key (cursor_version ++ 0 ∷ payload))

-- `none` is an error.
unfoldable pub encode : Format → CursorCodec → Cursor → Option Bytes
encode format codec c = if not (validate_cursor c) then none else elim (format.marshal c) [
  | none ↦ none
  | some json ↦
      let payload = encode_to_string json in
      some (cursor_version ++ dot ∷ payload ++ dot ∷ signature format codec payload)
]

abbrev pub bytes_eq : Bytes → Bytes → Bool
bytes_eq [] [] = true
bytes_eq (a ∷ xs) (b ∷ ys) = a == b && bytes_eq xs ys
bytes_eq _ _ = false

-- `strings.Split` at a separator of one byte.
abbrev pub prepend : ℕ → List Bytes → List Bytes
prepend b [] = (b ∷ []) ∷ []
prepend b (part ∷ parts) = (b ∷ part) ∷ parts

unfoldable pub split : ℕ → Bytes → List Bytes
split separator [] = [] ∷ []
split separator (b ∷ bs) =
    let rest = split separator bs in if b == separator then [] ∷ rest else prepend b rest

-- `Decode` on a payload whose signature is right.
unfoldable pub decode_payload : Format → Bytes → CursorKind → String → Option Cursor
decode_payload format payload kind scope = elim (decode_string payload) [
  | none ↦ none
  | some json ↦ elim (format.parse json) [
    | none ↦ none
    | some (c, more) ↦
        if more || not (kind_eq c.kind kind) || not (str_eq c.scope scope)
        then none
        else if not (validate_cursor c)
        then none
        else some c
  ]
]

unfoldable pub decode_parts :
    Format → CursorCodec → List Bytes → CursorKind → String → Option Cursor
decode_parts format codec (version ∷ payload ∷ mac ∷ []) kind scope =
    if not (bytes_eq version cursor_version) || is_blank scope
    then none
    else if not (bytes_eq mac (signature format codec payload))
    then none
    else decode_payload format payload kind scope
decode_parts format codec _ kind scope = none

unfoldable pub decode : Format → CursorCodec → Bytes → CursorKind → String → Option Cursor
decode format codec value kind scope = decode_parts format codec (split dot value) kind scope
