-- ===== src/Gate/Wake.antt =====
-- services/realtime-audio/command/gate.go: `stripWakeWordPrefix`, on texts as lists of code points.
use xe6_tsy.Common.{Option, none, some, [], ◌∷◌, if◌then◌else◌, ltb, length, codes}
use xe6_tsy.Stabilizer.Scan.{Text, is_space, has, skip, strip_prefix, trim_space}

abbrev pub compact : Text → Text
compact [] = []
compact (c ∷ cs) = if is_space c then compact cs else c ∷ compact cs

-- The text behind the last occurrence of the word, by `strings.LastIndex`.
unfoldable pub after_last : Text → Text → Option Text
after_last wake [] = strip_prefix wake []
after_last wake (c ∷ cs) = elim (after_last wake cs) [
  | some rest ↦ some rest
  | none ↦ strip_prefix wake (c ∷ cs)
]

-- The shorter rest is the one behind the later end.
abbrev pub later_end : Option Text → Option Text → Option Text
later_end none other = other
later_end (some rest) none = some rest
later_end (some rest) (some other) =
    if ltb (length other) (length rest) then some other else some rest

abbrev pub wake_words : Text × Text
wake_words = (codes "小灵小灵", codes "小林小林")

unfoldable pub strip_wake_word_prefix : Text → Text
strip_wake_word_prefix text =
    let trimmed = trim_space text in
    let whole = compact trimmed in
    elim (later_end (after_last wake_words.0 whole) (after_last wake_words.1 whole)) [
      | none ↦ trimmed
      | some rest ↦ skip (λ c. has c (codes "，。！？,.!?：:、 ")) rest
    ]
