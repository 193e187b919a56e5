-- ===== src/Stabilizer/Scan.antt =====
-- services/realtime-audio/pipeline: what phrase_stabilizer.go and flow.go ask of a text.
use xe6_tsy.Common.{
  ℕ, Bool, true, false, not, ◌&&◌, ◌||◌, Option, none, some, String, List, [], ◌∷◌, ◌++◌, map,
  if◌then◌else◌, ◌==◌, leb, length, codes,
}

abbrev pub Text : Type 0
Text = List ℕ

-- Go's `unicode.ToLower`, which `strings.ToLower` maps over a text.
abbrev pub Lower : Type 0
Lower = ℕ → ℕ

abbrev pub is_empty : Text → Bool
is_empty [] = true
is_empty (c ∷ cs) = false

abbrev pub has : ℕ → Text → Bool
has c [] = false
has c (d ∷ ds) = c == d || has c ds

abbrev pub text_eq : Text → Text → Bool
text_eq [] [] = true
text_eq (c ∷ cs) (d ∷ ds) = c == d && text_eq cs ds
text_eq _ _ = false

abbrev pub one_of : List String → Text → Bool
one_of [] text = false
one_of (s ∷ ss) text = text_eq (codes s) text || one_of ss text

-- Go's `unicode.IsSpace`.
unfoldable pub is_space : ℕ → Bool
is_space c =
    (leb 9 c && leb c 13)
    || has c (32 ∷ 133 ∷ 160 ∷ 5760 ∷ 8232 ∷ 8233 ∷ 8239 ∷ 8287 ∷ 12288 ∷ [])
    || (leb 8192 c && leb c 8202)

-- A text up to, and from, the first code point that is not of the kind.
abbrev pub skipped : (ℕ → Bool) → Text → Text
skipped kind [] = []
skipped kind (c ∷ cs) = if kind c then c ∷ skipped kind cs else []

abbrev pub skip : (ℕ → Bool) → Text → Text
skip kind [] = []
skip kind (c ∷ cs) = if kind c then skip kind cs else c ∷ cs

-- A text without the code points of the kind at its end.
abbrev pub ended : (ℕ → Bool) → Text → Text
ended kind [] = []
ended kind (c ∷ cs) = let rest = ended kind cs in if kind c && is_empty rest then [] else c ∷ rest

abbrev pub trim : (ℕ → Bool) → Text → Text
trim kind text = ended kind (skip kind text)

-- `strings.TrimSpace`, and `strings.Trim`.
unfoldable pub trim_space : Text → Text
trim_space text = trim is_space text

unfoldable pub trim_of : Text → Text → Text
trim_of cutset text = trim (λ c. has c cutset) text

-- What follows the prefix.
abbrev pub strip_prefix : Text → Text → Option Text
strip_prefix [] text = some text
strip_prefix (c ∷ cs) [] = none
strip_prefix (c ∷ cs) (d ∷ ds) = if c == d then strip_prefix cs ds else none

unfoldable pub common_phrase_prefix : Text → Text → Text
common_phrase_prefix (c ∷ cs) (d ∷ ds) =
    let rest = common_phrase_prefix cs ds in if c == d then c ∷ rest else []
common_phrase_prefix _ _ = []

unfoldable pub phrase_boundary : ℕ → Bool
phrase_boundary c = has c (codes "。.！!？?，,；;：:")

-- The segment up to the first boundary, with the spaces that follow it, and the rest.
unfoldable pub cut_at_boundary : Text → Option (Text × Text)
cut_at_boundary [] = none
cut_at_boundary (c ∷ cs) = elim (phrase_boundary c) [
  | true ↦ some (c ∷ skipped is_space cs, skip is_space cs)
  | false ↦ elim (cut_at_boundary cs) [
    | none ↦ none
    | some (segment, rest) ↦ some (c ∷ segment, rest)
  ]
]

unfoldable pub is_phrase_filler_token : Lower → Text → Bool
is_phrase_filler_token lower text =
    one_of
      ("嗯" ∷ "嗯嗯" ∷ "啊" ∷ "呃" ∷ "额" ∷ "哎" ∷ "欸" ∷ "诶" ∷ "哦" ∷ "噢" ∷ "喔" ∷ "咳" ∷ "咳咳" ∷ "嗯哼" ∷ "mm"
        ∷ "mmm" ∷ "mhm" ∷ "uh" ∷ "uhh" ∷ "um" ∷ "umm" ∷ "ah" ∷ "oh" ∷ "hmm" ∷ "hm" ∷ "huh" ∷ "sigh"
        ∷ "ahem" ∷ [])
      (map lower (trim_space text))

-- The loop of `isIgnorableConfirmedGap`, with its token and whether a boundary was seen.
unfoldable pub gap : Lower → Text → Bool → Text → Bool
gap lower token saw [] = saw && is_empty (trim_space token)
gap lower token saw (c ∷ cs) = elim (phrase_boundary c) [
  | true ↦
      let confirmed = trim_space token in
      elim (not (is_empty confirmed) && not (is_phrase_filler_token lower confirmed)) [
        | true ↦ false
        | false ↦ gap lower [] true cs
      ]
  | false ↦ elim (is_space c && is_empty token) [
    | true ↦ gap lower token saw cs
    | false ↦ gap lower (token ++ c ∷ []) saw cs
  ]
]

unfoldable pub is_ignorable_confirmed_gap : Lower → Text → Bool
is_ignorable_confirmed_gap lower text = gap lower [] false text

unfoldable pub is_trivial_asr_text : Lower → Text → Bool
is_trivial_asr_text lower text =
    let trimmed = trim_of (codes "。.!！?？…~～、,， ") (trim_space text) in
    leb (length trimmed) 1
    || one_of
        ("嗯" ∷ "嗯嗯" ∷ "啊" ∷ "呃" ∷ "额" ∷ "哎" ∷ "欸" ∷ "诶" ∷ "哦" ∷ "噢" ∷ "喔" ∷ "咳" ∷ "咳咳" ∷ "对" ∷ "是"
          ∷ "好" ∷ "行" ∷ "嗯哼" ∷ "mm" ∷ "mmm" ∷ "mhm" ∷ "uh" ∷ "uhh" ∷ "um" ∷ "umm" ∷ "ah" ∷ "oh"
          ∷ "okay" ∷ "ok" ∷ "yes" ∷ "yeah" ∷ "yep" ∷ "hmm" ∷ "hm" ∷ "huh" ∷ "sigh" ∷ "ahem"
          ∷ "really" ∷ [])
        (map lower trimmed)
