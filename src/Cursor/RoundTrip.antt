-- ===== src/Cursor/RoundTrip.antt =====
-- services/api/recordstore/cursor.go: `Decode` reads what `Encode` writes, and nothing unsigned.
use xe6_tsy.Common.{
  ℕ, ◌≡◌, ◌<◌, refl, sym, ap, ◌∙◌, Bool, true, false, not, ◌||◌, none, some, String, List, [], ◌∷◌,
  ◌++◌, map, arith, if◌then◌else◌, ◌==◌, ==_iff, str_eq, str_eq_iff, str_eq_refl, is_blank, All,
  Bool-cases, Option-cases, inl, inr,
}
use xe6_tsy.Cursor.Base64.{
  Bytes, symbol, sextets_of, encode_to_string, decode_string, symbol_plain, decode_string-encode,
}
use xe6_tsy.Cursor.{
  CursorKind, participants, session_turns, history, other, Cursor, Format, CursorCodec, kind_eq,
  validate_cursor, cursor_version, dot, signature, encode, bytes_eq, prepend, split, decode_payload,
  decode_parts, decode,
}

abbrev pub Plain : ℕ → Bytes → Type 0
Plain separator text = All (λ b. (b == separator) ≡ false) text

symbols-Plain : (vs : List ℕ) → Plain dot (map symbol vs)
symbols-Plain [] = tt
symbols-Plain (v ∷ vs) = ((symbol_plain v).2, symbols-Plain vs)

encode_to_string-Plain : (bytes : Bytes) → Plain dot (encode_to_string bytes)
unfolding encode_to_string
encode_to_string-Plain bytes = symbols-Plain (sextets_of bytes)

split-Plain :
    (separator : ℕ) (text : Bytes) → Plain separator text → split separator text ≡ text ∷ []
unfolding split
split-Plain separator [] h = refl
split-Plain separator (b ∷ bs) h = simp (h.0, split-Plain separator bs h.1) refl

split-append :
    (separator : ℕ) (text rest : Bytes)
    → Plain separator text
    → split separator (text ++ separator ∷ rest) ≡ text ∷ split separator rest
unfolding split
split-append separator [] rest h = simp ((==_iff separator separator).1 refl) refl
split-append separator (b ∷ bs) rest h = simp (h.0, split-append separator bs rest h.1) refl

bytes_eq_refl : (bytes : Bytes) → bytes_eq bytes bytes ≡ true
bytes_eq_refl [] = refl
bytes_eq_refl (b ∷ bs) = simp ((==_iff b b).1 refl, bytes_eq_refl bs) refl

bytes_eq_same : (a b : Bytes) → bytes_eq a b ≡ true → a ≡ b
bytes_eq_same [] [] h = refl
bytes_eq_same [] (y ∷ ys) h = cc h
bytes_eq_same (x ∷ xs) [] h = cc h
bytes_eq_same (x ∷ xs) (y ∷ ys) h = elim (Bool-cases (x == y)) [
  | inl e ↦ let k = simp e at h in cc (bytes_eq_same xs ys k, (==_iff x y).0 e)
  | inr e ↦ let k = simp e at h in cc k
]

kind_eq_refl : (k : CursorKind) → kind_eq k k ≡ true
kind_eq_refl participants = refl
kind_eq_refl session_turns = refl
kind_eq_refl history = refl
kind_eq_refl (other s) = str_eq_refl s

-- The JSON of a cursor is a sequence of bytes, which the decoder reads as the cursor, and no more.
pub record Reads (format : Format) (c : Cursor) : Type 0 where
  pub json : Bytes
  pub bytes : All (λ b. b < 256) json
  pub writes : format.marshal c ≡ some json
  pub reads : format.parse json ≡ some (c, false)

named : (c : Cursor) → validate_cursor c ≡ true → is_blank c.scope ≡ false
unfolding validate_cursor
named c h = ground arith

signature-Plain :
    (format : Format) (codec : CursorCodec) (payload : Bytes)
    → Plain dot (signature format codec payload)
unfolding signature
signature-Plain format codec payload = encode_to_string-Plain _

version-Plain : Plain dot cursor_version
version-Plain = (refl, (refl, tt))

-- A cursor that is valid is encoded, and what it is encoded to decodes to it under its own kind and
-- scope, if its JSON reads back.
pub decode-encode :
    (format : Format) (codec : CursorCodec) (c : Cursor)
    → Reads format c
    → validate_cursor c ≡ true
    → (value : Bytes) × (encode format codec c ≡ some value)
      × (decode format codec value c.kind c.scope ≡ some c)
unfolding encode decode decode_parts decode_payload
decode-encode format codec c r h =
    let payload = encode_to_string r.json in
    let mac = signature format codec payload in
    let tail : split dot (payload ++ dot ∷ mac) ≡ payload ∷ mac ∷ [] =
      split-append dot payload mac (encode_to_string-Plain r.json)
      ∙ ap (λ z. payload ∷ z) (split-Plain dot mac (signature-Plain format codec payload)) in
    let parts : split dot (cursor_version ++ dot ∷ (payload ++ dot ∷ mac))
        ≡ cursor_version ∷ payload ∷ mac ∷ [] =
      split-append dot cursor_version (payload ++ dot ∷ mac) version-Plain
      ∙ ap (λ z. cursor_version ∷ z) tail in
    (
      cursor_version ++ dot ∷ (payload ++ dot ∷ mac),
      rw (h, r.writes, encode) refl,
      rw (parts, decode)
          (simp
            (
              named c h,
              bytes_eq_refl mac,
              decode_string-encode r.json r.bytes,
              r.reads,
              kind_eq_refl c.kind,
              str_eq_refl c.scope,
              h,
              decode_payload,
            )
            refl),
    )

abbrev join : ℕ → List Bytes → Bytes
join separator [] = []
join separator (part ∷ []) = part
join separator (part ∷ q ∷ parts) = part ++ separator ∷ join separator (q ∷ parts)

join-prepend :
    (separator b : ℕ) (parts : List Bytes)
    → join separator (prepend b parts) ≡ b ∷ join separator parts
join-prepend separator b [] = refl
join-prepend separator b (part ∷ []) = refl
join-prepend separator b (part ∷ q ∷ parts) = refl

join_apart :
    (separator : ℕ) (text : Bytes)
    → join separator ([] ∷ split separator text) ≡ separator ∷ join separator (split separator text)
unfolding split
join_apart separator [] = refl
join_apart separator (b ∷ bs) = elim (Bool-cases (b == separator)) [
  | inl e ↦ simp e refl
  | inr e ↦
      elim (split separator bs)
        as (λ r.
          join separator ([] ∷ (if b == separator then [] ∷ r else prepend b r))
          ≡ separator ∷ join separator (if b == separator then [] ∷ r else prepend b r)) [
            | [] ↦ simp e refl
            | part ∷ parts ↦ simp e refl
          ]
]

join-split : (separator : ℕ) (text : Bytes) → join separator (split separator text) ≡ text
unfolding split
join-split separator [] = refl
join-split separator (b ∷ bs) = elim (Bool-cases (b == separator)) [
  | inl e ↦
      let same : separator ≡ b = sym ((==_iff b separator).0 e) in
      simp e (join_apart separator bs ∙ cc (same, join-split separator bs))
  | inr e ↦
      simp e
        (join-prepend separator b (split separator bs) ∙ ap (λ z. b ∷ z) (join-split separator bs))
]

kind_eq_same : (a b : CursorKind) → kind_eq a b ≡ true → a ≡ b
kind_eq_same participants participants h = refl
kind_eq_same participants session_turns h = cc h
kind_eq_same participants history h = cc h
kind_eq_same participants (other y) h = cc h
kind_eq_same session_turns participants h = cc h
kind_eq_same session_turns session_turns h = refl
kind_eq_same session_turns history h = cc h
kind_eq_same session_turns (other y) h = cc h
kind_eq_same history participants h = cc h
kind_eq_same history session_turns h = cc h
kind_eq_same history history h = refl
kind_eq_same history (other y) h = cc h
kind_eq_same (other x) participants h = cc h
kind_eq_same (other x) session_turns h = cc h
kind_eq_same (other x) history h = cc h
kind_eq_same (other x) (other y) h = ap other ((str_eq_iff x y).0 h)

-- What was asked for: a cursor of the kind and scope, with the position of its kind.
abbrev pub Fits : Cursor → CursorKind → String → Type 0
Fits c kind scope = (c.kind ≡ kind) × (c.scope ≡ scope) × (validate_cursor c ≡ true)

accepted :
    (d c : Cursor) (more : Bool) (kind : CursorKind) (scope : String)
    → (if more || not (kind_eq d.kind kind) || not (str_eq d.scope scope)
        then none
        else if not (validate_cursor d)
        then none
        else some d)
      ≡ some c
    → Fits c kind scope
accepted d c more kind scope h =
    elim (Bool-cases (more || not (kind_eq d.kind kind) || not (str_eq d.scope scope))) [
      | inl e ↦ let i = simp e at h in cc i
      | inr e ↦ elim (Bool-cases (validate_cursor d)) [
        | inr f ↦ let i = simp (e, f) at h in cc i
        | inl f ↦
            let i = simp (e, f) at h in
            let same : d ≡ c = cc i in
            let k : kind_eq d.kind kind ≡ true = ground (arith, e) in
            let l : str_eq d.scope scope ≡ true = ground (arith, e) in
            simp (sym same) (kind_eq_same d.kind kind k, (str_eq_iff d.scope scope).0 l, f)
      ]
    ]

decode_payload-Fits :
    (format : Format) (payload : Bytes) (kind : CursorKind) (scope : String) (c : Cursor)
    → decode_payload format payload kind scope ≡ some c
    → Fits c kind scope
unfolding decode_payload
decode_payload-Fits format payload kind scope c h = elim (Option-cases (decode_string payload)) [
  | inl e ↦ let i = simp (e, decode_payload) at h in cc i
  | inr (json, e) ↦ elim (Option-cases (format.parse json)) [
    | inl f ↦ let i = simp (e, f, decode_payload) at h in cc i
    | inr ((d, more), f) ↦ accepted d c more kind scope (simp (e, f, decode_payload) at h)
  ]
]

abbrev Signed : Format → CursorCodec → List Bytes → Type 0
Signed format codec parts =
    (payload : Bytes) × (parts ≡ cursor_version ∷ payload ∷ signature format codec payload ∷ [])

decode_parts-Signed :
    (format : Format) (codec : CursorCodec) (parts : List Bytes) (kind : CursorKind)
    (scope : String) (c : Cursor)
    → decode_parts format codec parts kind scope ≡ some c
    → Signed format codec parts × Fits c kind scope
unfolding decode_parts
decode_parts-Signed format codec [] kind scope c h = cc h
decode_parts-Signed format codec (a ∷ []) kind scope c h = cc h
decode_parts-Signed format codec (a ∷ b ∷ []) kind scope c h = cc h
decode_parts-Signed format codec (a ∷ b ∷ d ∷ e ∷ r) kind scope c h = cc h
decode_parts-Signed format codec (version ∷ payload ∷ mac ∷ []) kind scope c h =
    elim (Bool-cases (not (bytes_eq version cursor_version) || is_blank scope)) [
      | inl e ↦ let i = simp e at h in cc i
      | inr e ↦ elim (Bool-cases (bytes_eq mac (signature format codec payload))) [
        | inr f ↦ let i = simp (e, f) at h in cc i
        | inl f ↦
            let k : bytes_eq version cursor_version ≡ true = ground (arith, e) in
            (
              (payload, cc (bytes_eq_same version cursor_version k, bytes_eq_same mac _ f)),
              decode_payload-Fits format payload kind scope c (simp (e, f) at h),
            )
      ]
    ]

-- A text that decodes is the version, a payload and the payload's signature under the codec's key, and
-- the cursor is of the kind and scope that were asked for, with the position of its kind.
pub decode-signed :
    (format : Format) (codec : CursorCodec) (value : Bytes) (kind : CursorKind) (scope : String)
    (c : Cursor)
    → decode format codec value kind scope ≡ some c
    → ((payload : Bytes) × (value
          ≡ cursor_version ++ dot ∷ payload ++ dot ∷ signature format codec payload))
      × Fits c kind scope
unfolding decode
decode-signed format codec value kind scope c h =
    let ((payload, i), fits) = decode_parts-Signed format codec (split dot value) kind scope c h in
    ((payload, sym (join-split dot value) ∙ ap (join dot) i), fits)
