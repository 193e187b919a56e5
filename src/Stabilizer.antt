-- ===== src/Stabilizer.antt =====
-- services/realtime-audio/pipeline/phrase_stabilizer.go: turns the replaceable snapshots of one
-- utterance's recognition into ordered phrases that are never taken back. A text is the list of
-- its code points, for which prefixes and lengths are those of the source's valid UTF-8.
pub mod Runs
pub mod Ledger
pub mod Rounds
pub mod Prefixes
mod Tests
pub mod Scan
use xe6_tsy.Common.{
  ℕ, zero, suc, ◌+◌, ◌-◌, Bool, true, false, not, ◌&&◌, ◌||◌, Option, none, some, List, [], ◌∷◌,
  ◌++◌, if◌then◌else◌, ◌==◌, ltb, leb, length, take, get_elem?, codes, incr,
}
use xe6_tsy.Contract.Mode.{Time}
use xe6_tsy.Stabilizer.Scan.{
  Text, Lower, is_empty, is_space, trim_space, trim_of, strip_prefix, common_phrase_prefix,
  cut_at_boundary, is_trivial_asr_text, is_ignorable_confirmed_gap,
}

-- An option that is not positive is 0.
pub record Options : Type 0 where
  pub stable_after : ℕ
  pub min_runes : ℕ
  pub live_min_runes : ℕ
  pub live_max_runes : ℕ

pub record StablePhrase : Type 0 where
  pub sequence_no : ℕ
  pub text : Text

pub record Stabilizer : Type 0 where
  pub options : Options
  pub consumed : Text
  pub candidate : Text
  pub candidate_at : Time
  pub next_seq : ℕ

abbrev pub or_default : ℕ → ℕ → ℕ
or_default value default = if value == 0 then default else value

unfoldable pub new_phrase_stabilizer : Options → Stabilizer
new_phrase_stabilizer given =
    let live_min = or_default given.live_min_runes 8 in
    let live_max = or_default given.live_max_runes 18 in
    record {
      options = record {
        stable_after = or_default given.stable_after 500000000;
        min_runes = or_default given.min_runes 2;
        live_min_runes = live_min;
        live_max_runes = if ltb live_max live_min then live_min else live_max;
      };
      consumed = [];
      candidate = [];
      candidate_at = 0;
      next_seq = 0;
    }

abbrev pub append_consumed : Text → Stabilizer → Stabilizer
append_consumed segment s = record s {
  consumed = if is_empty s.consumed then segment else s.consumed ++ segment;
}

abbrev pub clear_candidate : Stabilizer → Stabilizer
clear_candidate s = record s { candidate = []; candidate_at = 0 }

-- Too short a phrase, or one that says nothing, stays unconsumed.
unfoldable pub consume : Lower → Stabilizer → Text → Stabilizer × List StablePhrase
consume lower s segment =
    let shown = trim_space segment in
    if is_empty shown
    then (s, [])
    else if ltb (length (trim_of (codes "。.!！?？，,;；:：、 ") shown)) s.options.min_runes
        || is_trivial_asr_text lower shown
    then (s, [])
    else let number = incr s.next_seq in
      (
        record (append_consumed segment s) { next_seq = number },
        record { sequence_no = number; text = shown } ∷ [],
      )

abbrev pub Round : Type 0
Round = Stabilizer × List StablePhrase × Text

-- The body of `consumePunctuation`, with the recursive call as `again`.
unfoldable pub round : Lower → (Stabilizer → Text → Round) → Stabilizer → Text → Round
round lower again s text = elim (cut_at_boundary text) [
  | none ↦ (s, [], text)
  | some (segment, rest) ↦
      let (t, phrases) = consume lower s segment in
      elim phrases [
        | [] ↦ elim (is_ignorable_confirmed_gap lower segment) [
          | false ↦ (t, [], text)
          | true ↦ again (append_consumed segment t) rest
        ]
        | p ∷ ps ↦ let more = again t rest in (more.0, (p ∷ ps) ++ more.1, more.2)
      ]
]

-- At most `n` rounds, and `spent` where they do not end.
unfoldable pub punctuate : Lower → (Stabilizer → Text → Round) → ℕ → Stabilizer → Text → Round
punctuate lower spent zero s text = spent s text
punctuate lower spent (suc n) s text = round lower (punctuate lower spent n) s text

-- Each round takes a segment off the text, so the fuel beyond its length is enough, whatever stands
-- for being out of fuel.
unfoldable pub consume_punctuation : Lower → Stabilizer → Text → Round
consume_punctuation lower s text =
    punctuate lower (λ t rest. (t, [], rest)) (suc (length text)) s text

-- `none` where the snapshot no longer extends what was consumed.
unfoldable pub remaining : Stabilizer → Text → Option Text
remaining s text = elim (strip_prefix s.consumed (trim_space text)) [
  | none ↦ none
  | some rest ↦ some (trim_space rest)
]

-- A candidate keeps its time while the recognizer only appends to it; a revision keeps what the
-- two have in common, from now on.
unfoldable pub set_candidate : Text → Time → Stabilizer → Stabilizer
set_candidate given now s =
    let text = trim_space given in
    let shared = common_phrase_prefix s.candidate text in
    if is_empty text
    then clear_candidate s
    else if is_empty s.candidate
    then record s { candidate = text; candidate_at = now }
    else elim (strip_prefix s.candidate text) [
      | some rest ↦ record s { candidate = text }
      | none ↦
          if is_empty shared
          then record s { candidate = text; candidate_at = now }
          else record s { candidate = shared; candidate_at = now }
    ]

unfoldable pub observe : Lower → Text → Time → Stabilizer → Stabilizer × List StablePhrase
observe lower text now s = elim (remaining s text) [
  | none ↦ (clear_candidate s, [])
  | some rest ↦
      let (t, phrases, tail) = consume_punctuation lower s rest in
      (set_candidate tail now t, phrases)
]

-- A difference of durations stops at 0, as the source's does.
unfoldable pub stability_delay : Time → Stabilizer → Option ℕ
stability_delay now s =
    if is_empty s.candidate || s.candidate_at == 0
    then none
    else some ((s.candidate_at + s.options.stable_after) - now)

-- The loop of `takeStablePhraseRunes`, from `index` - 1 down.
unfoldable pub word_cut : Text → ℕ → ℕ → Option Text
word_cut text minimum zero = none
word_cut text minimum (suc index) = elim (get_elem? text index) [
  | none ↦ word_cut text minimum index
  | some c ↦ elim (is_space c && leb minimum (length (trim_space (take (index + 1) text)))) [
    | true ↦ some (take (index + 1) text)
    | false ↦ word_cut text minimum index
  ]
]

unfoldable pub take_stable_phrase_runes : Text → ℕ → ℕ → Text
take_stable_phrase_runes text minimum limit =
    if limit == 0
    then []
    else if leb (length text) limit
    then text
    else elim (word_cut text minimum limit) [ some cut ↦ cut | none ↦ take limit text ]

-- The rest of `Advance`, on a candidate that is long enough and stable.
unfoldable pub advance_cut : Lower → Text → Time → Stabilizer → Stabilizer × List StablePhrase
advance_cut lower cut now s =
    let (t, phrases) = consume lower s cut in
    let rest =
      trim_space (elim (strip_prefix cut s.candidate) [ none ↦ s.candidate | some r ↦ r ]) in
    (
      if is_empty rest
          then clear_candidate t
          else record t { candidate = rest; candidate_at = now },
      phrases,
    )

unfoldable pub advance : Lower → Time → Stabilizer → Stabilizer × List StablePhrase
advance lower now s = elim (stability_delay now s) [
  | none ↦ (s, [])
  | some delay ↦
      if ltb 0 delay || ltb (length s.candidate) s.options.live_min_runes
      then (s, [])
      else advance_cut lower
          (take_stable_phrase_runes s.candidate s.options.live_min_runes s.options.live_max_runes)
          now s
]

unfoldable pub flush : Lower → Text → Stabilizer → Stabilizer × List StablePhrase
flush lower text s = elim (remaining s text) [
  | none ↦ (clear_candidate s, [])
  | some rest ↦
      let (t, phrases, tail) = consume_punctuation lower s rest in
      let last = consume lower (clear_candidate t) tail in (last.0, phrases ++ last.1)
]
