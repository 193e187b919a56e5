-- ===== src/Cursor/Base64.antt =====
-- Go's `base64.RawURLEncoding`, which services/api/recordstore/cursor.go uses, and that it reads what
-- it writes.
use xe6_tsy.Common.{
  ℕ, ◌+◌, ◌-◌, ◌*◌, ◌/◌, ◌%◌, ◌<◌, ◌≡◌, refl, true, false, ◌&&◌, ◌||◌, Option, none, some, List, [],
  ◌∷◌, map, arith, if◌then◌else◌, ◌==◌, ltb, leb, All,
}

abbrev pub Bytes : Type 0
Bytes = List ℕ

-- A-Z, a-z, 0-9, - and _.
unfoldable pub symbol : ℕ → ℕ
symbol v =
    if ltb v 26
    then 65 + v
    else if ltb v 52
    then v + 71
    else if ltb v 62
    then v - 4
    else if v == 62
    then 45
    else 95

unfoldable pub sextet : ℕ → Option ℕ
sextet c =
    if leb 65 c && leb c 90
    then some (c - 65)
    else if leb 97 c && leb c 122
    then some (c - 71)
    else if leb 48 c && leb c 57
    then some (c + 4)
    else if c == 45
    then some 62
    else if c == 95
    then some 63
    else none

-- Three bytes are four sextets; what is left over is filled with zero bits.
abbrev pub sextets_of : Bytes → List ℕ
sextets_of [] = []
sextets_of (a ∷ []) = (a / 4) ∷ (a % 4 * 16) ∷ []
sextets_of (a ∷ b ∷ []) = (a / 4) ∷ (a % 4 * 16 + b / 16) ∷ (b % 16 * 4) ∷ []
sextets_of (a ∷ b ∷ c ∷ rest) =
    (a / 4) ∷ (a % 4 * 16 + b / 16) ∷ (b % 16 * 4 + c / 64) ∷ (c % 64) ∷ sextets_of rest

unfoldable pub encode_to_string : Bytes → Bytes
encode_to_string bytes = map symbol (sextets_of bytes)

-- The bytes of a quantum's sextets.
abbrev pub first_byte : ℕ → ℕ → ℕ
first_byte p q = p * 4 + q / 16

abbrev pub second_byte : ℕ → ℕ → ℕ
second_byte q r = q % 16 * 16 + r / 4

abbrev pub third_byte : ℕ → ℕ → ℕ
third_byte r s = r % 4 * 64 + s

-- On sextets. One sextet alone is no byte.
unfoldable pub join_sextets : List ℕ → Option Bytes
join_sextets [] = some []
join_sextets (p ∷ []) = none
join_sextets (p ∷ q ∷ []) = some (first_byte p q ∷ [])
join_sextets (p ∷ q ∷ r ∷ []) = some (first_byte p q ∷ second_byte q r ∷ [])
join_sextets (p ∷ q ∷ r ∷ s ∷ rest) = elim (join_sextets rest) [
  | none ↦ none
  | some bytes ↦ some (first_byte p q ∷ second_byte q r ∷ third_byte r s ∷ bytes)
]

-- The decoder skips line breaks.
unfoldable pub sextets : Bytes → Option (List ℕ)
sextets [] = some []
sextets (c ∷ cs) = elim (c == 10 || c == 13) [
  | true ↦ sextets cs
  | false ↦ elim (sextet c) [
    | none ↦ none
    | some v ↦ elim (sextets cs) [ none ↦ none | some vs ↦ some (v ∷ vs) ]
  ]
]

unfoldable pub decode_string : Bytes → Option Bytes
decode_string text = elim (sextets text) [ none ↦ none | some vs ↦ join_sextets vs ]

sextet-symbol : (v : ℕ) → v < 64 → sextet (symbol v) ≡ some v
unfolding sextet symbol
sextet-symbol v h = ground (arith, h)

pub symbol_plain :
    (v : ℕ) → ((symbol v == 10) ≡ false) × ((symbol v == 13) ≡ false) × ((symbol v == 46) ≡ false)
unfolding symbol
symbol_plain v = ground arith

sextets-symbol : (vs : List ℕ) → All (λ v. v < 64) vs → sextets (map symbol vs) ≡ some vs
unfolding sextets
sextets-symbol [] h = refl
sextets-symbol (v ∷ vs) h =
    rw ((symbol_plain v).0, (symbol_plain v).1, sextet-symbol v h.0, sextets-symbol vs h.1, sextets)
      refl

sextets_small : (bytes : Bytes) → All (λ b. b < 256) bytes → All (λ v. v < 64) (sextets_of bytes)
sextets_small [] h = tt
sextets_small (a ∷ []) h = (omega (arith, h.0), (omega arith, tt))
sextets_small (a ∷ b ∷ []) h = (omega (arith, h.0), (omega (arith, h.1.0), (omega arith, tt)))
sextets_small (a ∷ b ∷ c ∷ rest) h = (
  omega (arith, h.0),
  (omega (arith, h.1.0), (omega (arith, h.1.1.0), (omega arith, sextets_small rest h.1.1.1))),
)

join_sextets-of :
    (bytes : Bytes) → All (λ b. b < 256) bytes → join_sextets (sextets_of bytes) ≡ some bytes
unfolding join_sextets
join_sextets-of [] h = refl
join_sextets-of (a ∷ []) h = let i : first_byte (a / 4) (a % 4 * 16) ≡ a = omega arith in cc i
join_sextets-of (a ∷ b ∷ []) h =
    let i : first_byte (a / 4) (a % 4 * 16 + b / 16) ≡ a = omega (arith, h.1.0) in
    let j : second_byte (a % 4 * 16 + b / 16) (b % 16 * 4) ≡ b = omega (arith, h.1.0) in cc (i, j)
join_sextets-of (a ∷ b ∷ c ∷ rest) h =
    let i : first_byte (a / 4) (a % 4 * 16 + b / 16) ≡ a = omega (arith, h.1.0) in
    let j : second_byte (a % 4 * 16 + b / 16) (b % 16 * 4 + c / 64) ≡ b =
      omega (arith, h.1.0, h.1.1.0) in
    let k : third_byte (b % 16 * 4 + c / 64) (c % 64) ≡ c = omega (arith, h.1.1.0) in
    rw (join_sextets-of rest h.1.1.1, join_sextets) (cc (i, j, k))

-- What is written of bytes reads as these bytes.
pub decode_string-encode :
    (bytes : Bytes) → All (λ b. b < 256) bytes → decode_string (encode_to_string bytes) ≡ some bytes
unfolding decode_string encode_to_string
decode_string-encode bytes h =
    rw
      (
        sextets-symbol (sextets_of bytes) (sextets_small bytes h),
        join_sextets-of bytes h,
        decode_string,
      )
      refl
