-- ===== src/Stabilizer/Tests.antt =====
-- services/realtime-audio/pipeline/phrase_stabilizer.go: runs on concrete snapshots.
use xe6_tsy.Common.{◌≤◌, ◌<◌, ◌≡◌, refl, List, [], ◌∷◌, map, codes, length, arith}
use xe6_tsy.Stabilizer.Prefixes.{Begins, Ends, take_stable_phrase_runes-Ends}
use xe6_tsy.Stabilizer.Rounds.{consume_punctuation_lem}
use xe6_tsy.Stabilizer.Ledger.{Ledger}
use xe6_tsy.Stabilizer.Runs.{Call, observing, advancing, flushing, step, run, run-Ledger}
use xe6_tsy.Stabilizer.Scan.{
  Text, Lower, is_space, trim_space, trim_of, common_phrase_prefix, phrase_boundary,
  cut_at_boundary, is_trivial_asr_text,
}
use xe6_tsy.Stabilizer.{
  Options, StablePhrase, Stabilizer, new_phrase_stabilizer, consume, round, punctuate,
  consume_punctuation, remaining, set_candidate, observe, stability_delay, word_cut,
  take_stable_phrase_runes, advance_cut, advance, flush,
}

abbrev plain : Lower
plain c = c

abbrev fresh : Stabilizer
fresh =
    new_phrase_stabilizer
      (record { stable_after = 100; min_runes = 0; live_min_runes = 8; live_max_runes = 18 })

abbrev final_text : Text
final_text = codes "Today I want to tell you something important"

abbrev watched : Stabilizer
watched = (observe plain final_text 1000 fresh).0

abbrev live : Stabilizer × List StablePhrase
live = advance plain 1100 watched

whole_words : map (λ p. p.text) live.1 ≡ codes "Today I want to" ∷ []
unfolding new_phrase_stabilizer observe remaining consume_punctuation punctuate round
    cut_at_boundary phrase_boundary set_candidate trim_space trim_of is_space common_phrase_prefix
    advance stability_delay take_stable_phrase_runes word_cut advance_cut consume
    is_trivial_asr_text
whole_words = refl

-- A snapshot that ends in a boundary, and the next ones: the space after the boundary was never
-- consumed, so the third snapshot does not extend what was.
abbrev greeted : Stabilizer × List StablePhrase
greeted = observe plain (codes "Hello,") 1 fresh

abbrev asked : Stabilizer × List StablePhrase
asked = observe plain (codes "Hello, how are you?") 2 greeted.0

asked_text : map (λ p. p.text) asked.1 ≡ codes "how are you?" ∷ []
unfolding new_phrase_stabilizer observe remaining consume_punctuation punctuate round
    cut_at_boundary phrase_boundary set_candidate trim_space trim_of is_space common_phrase_prefix
    consume is_trivial_asr_text
asked_text = refl

tail_lost : (flush plain (codes "Hello, how are you? Bye now.") asked.0).1 ≡ []
unfolding new_phrase_stabilizer observe remaining consume_punctuation punctuate round
    cut_at_boundary phrase_boundary set_candidate trim_space trim_of is_space common_phrase_prefix
    consume is_trivial_asr_text flush
tail_lost = refl

abbrev calls : List Call
calls = observing final_text 1000 ∷ advancing 1050 ∷ advancing 1100 ∷ flushing final_text ∷ []

abbrev given : Options
given = record { stable_after = 100; min_runes = 0; live_min_runes = 8; live_max_runes = 18 }

two_phrases :
    map (λ p. p.text) (run plain calls fresh).1
    ≡ codes "Today I want to" ∷ codes "tell you something important" ∷ []
unfolding run step new_phrase_stabilizer observe remaining consume_punctuation punctuate round
    cut_at_boundary phrase_boundary set_candidate trim_space trim_of is_space common_phrase_prefix
    advance stability_delay take_stable_phrase_runes word_cut advance_cut consume
    is_trivial_asr_text flush
two_phrases = refl

run-Ledger_example :
    Ledger plain [] 0
      (run plain calls fresh).1
      (run plain calls fresh).0.consumed
      (run plain calls fresh).0.next_seq
run-Ledger_example = run-Ledger plain given calls

consume_punctuation_lem_example :
    (punctuate plain (λ t rest. (fresh, [], [])) 16 fresh (codes "Well, then. Yes")
      ≡ consume_punctuation plain fresh (codes "Well, then. Yes"))
    × (consume_punctuation plain fresh (codes "Well, then. Yes")
        ≡ round plain (consume_punctuation plain) fresh (codes "Well, then. Yes"))
consume_punctuation_lem_example =
    consume_punctuation_lem plain (λ t rest. (fresh, [], [])) 16 fresh (codes "Well, then. Yes")
      (omega arith)

take_stable_phrase_runes-Ends_example :
    let cut = take_stable_phrase_runes final_text 8 18 in
    Begins cut final_text × (0 < length cut) × (length cut ≤ 18) × Ends final_text 8 18 cut
take_stable_phrase_runes-Ends_example =
    take_stable_phrase_runes-Ends final_text 8 18 (omega arith) (omega arith)
