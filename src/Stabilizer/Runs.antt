-- ===== src/Stabilizer/Runs.antt =====
-- services/realtime-audio/pipeline/phrase_stabilizer.go: what one utterance's stabilizer emits, call after call.
use xe6_tsy.Common.{
  suc, ◌≡◌, refl, inl, inr, ◌||◌, List, [], ◌∷◌, ◌++◌, arith, length, Bool-cases, Option-cases, ltb,
}
use xe6_tsy.Contract.Mode.{Time}
use xe6_tsy.Stabilizer.Scan.{Text, Lower}
use xe6_tsy.Stabilizer.{
  Options, StablePhrase, Stabilizer, new_phrase_stabilizer, clear_candidate, consume,
  consume_punctuation, remaining, set_candidate, observe, stability_delay, advance_cut, advance,
  flush, take_stable_phrase_runes,
}
use xe6_tsy.Stabilizer.Ledger.{
  Ledger, still, Ledger-append, Moves, consume-Moves, punctuate-Accounts,
}

-- What consuming the punctuation of a text emits is accounted for by what was consumed of the text, and
-- the rest of the text is the tail.
pub consume_punctuation-Moves :
    (lower : Lower) (s : Stabilizer) (text : Text)
    → let r = consume_punctuation lower s text in
      Moves lower s r.1 r.0 × (r.0.consumed ++ r.2 ≡ s.consumed ++ text)
unfolding consume_punctuation
consume_punctuation-Moves lower s text =
    punctuate-Accounts lower _ (λ t rest. (still t.consumed t.next_seq, refl)) (suc (length text)) s
      text

set_candidate-same :
    (tail : Text) (now : Time) (s : Stabilizer)
    → ((set_candidate tail now s).consumed ≡ s.consumed)
      × ((set_candidate tail now s).next_seq ≡ s.next_seq)
unfolding set_candidate
set_candidate-same tail now s = ground arith

module _ (lower : Lower) where
  observe-Moves :
      (text : Text) (now : Time) (s : Stabilizer)
      → Moves lower s (observe lower text now s).1 (observe lower text now s).0
  unfolding observe
  observe-Moves text now s = elim (Option-cases (remaining s text)) [
    | inl e ↦ simp (e, observe) (still s.consumed s.next_seq)
    | inr (rest, e) ↦
        let r = consume_punctuation lower s rest in
        let same = set_candidate-same r.2 now r.0 in
        simp (e, same.0, same.1, observe) (consume_punctuation-Moves lower s rest).0
  ]

  advance_cut-same :
      (cut : Text) (now : Time) (s : Stabilizer)
      → let a = advance_cut lower cut now s in
        let c = consume lower s cut in
        (a.0.consumed ≡ c.0.consumed) × (a.0.next_seq ≡ c.0.next_seq) × (a.1 ≡ c.1)
  unfolding advance_cut
  advance_cut-same cut now s = ground arith

  advance-Moves :
      (now : Time) (s : Stabilizer) → Moves lower s (advance lower now s).1 (advance lower now s).0
  unfolding advance
  advance-Moves now s = elim (Option-cases (stability_delay now s)) [
    | inl e ↦ simp (e, advance) (still s.consumed s.next_seq)
    | inr (delay, e) ↦
        elim (Bool-cases (ltb 0 delay || ltb (length s.candidate) s.options.live_min_runes)) [
          | inl f ↦ simp (e, f, advance) (still s.consumed s.next_seq)
          | inr f ↦
              let cut =
                take_stable_phrase_runes s.candidate s.options.live_min_runes
                  s.options.live_max_runes in
              let same = advance_cut-same cut now s in
              simp (e, f, same.0, same.1, same.2, advance) (consume-Moves lower s cut)
        ]
  ]

  flush-Moves :
      (text : Text) (s : Stabilizer) → Moves lower s (flush lower text s).1 (flush lower text s).0
  unfolding flush
  flush-Moves text s = elim (Option-cases (remaining s text)) [
    | inl e ↦ simp (e, flush) (still s.consumed s.next_seq)
    | inr (rest, e) ↦
        let r = consume_punctuation lower s rest in
        simp (e, flush)
          (Ledger-append lower (consume_punctuation-Moves lower s rest).0
            (consume-Moves lower (clear_candidate r.0) r.2))
  ]

pub data Call : Type 0 where
  observing : Text → Time → Call
  advancing : Time → Call
  flushing : Text → Call

unfoldable pub step : Lower → Call → Stabilizer → Stabilizer × List StablePhrase
step lower (observing text now) s = observe lower text now s
step lower (advancing now) s = advance lower now s
step lower (flushing text) s = flush lower text s

unfoldable pub run : Lower → List Call → Stabilizer → Stabilizer × List StablePhrase
run lower [] s = (s, [])
run lower (call ∷ calls) s =
    let now = step lower call s in let later = run lower calls now.0 in (later.0, now.1 ++ later.1)

run-Moves :
    (lower : Lower) (calls : List Call) (s : Stabilizer)
    → Moves lower s (run lower calls s).1 (run lower calls s).0
unfolding run step
run-Moves lower [] s = still s.consumed s.next_seq
run-Moves lower (observing text now ∷ calls) s =
    Ledger-append lower (observe-Moves lower text now s) (run-Moves lower calls _)
run-Moves lower (advancing now ∷ calls) s =
    Ledger-append lower (advance-Moves lower now s) (run-Moves lower calls _)
run-Moves lower (flushing text ∷ calls) s =
    Ledger-append lower (flush-Moves lower text s) (run-Moves lower calls _)

-- Whatever snapshots, timer calls and final texts come to a new stabilizer, its consumed text is cut into
-- segments, of which the confirmed gaps are dropped and the others, trimmed, are the phrases emitted, in
-- order and numbered one after the other.
pub run-Ledger :
    (lower : Lower) (options : Options) (calls : List Call)
    → let r = run lower calls (new_phrase_stabilizer options) in
      Ledger lower [] 0 r.1 r.0.consumed r.0.next_seq
unfolding new_phrase_stabilizer
run-Ledger lower options calls = run-Moves lower calls (new_phrase_stabilizer options)
