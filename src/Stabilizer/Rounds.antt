-- ===== src/Stabilizer/Rounds.antt =====
-- services/realtime-audio/pipeline/phrase_stabilizer.go: the rounds of `consumePunctuation`.
use xe6_tsy.Common.{
  ℕ, zero, suc, ◌<◌, ◌≡◌, refl, ap, ◌⊎◌, inl, inr, false, [], ◌∷◌, ◌++◌, arith, if◌then◌else◌,
  length, ltb, incr, codes, Bool-cases, Option-cases,
}
use xe6_tsy.Stabilizer.Scan.{
  Text, Lower, is_empty, trim_space, trim_of, cut_at_boundary, is_trivial_asr_text,
  is_ignorable_confirmed_gap,
}
use xe6_tsy.Stabilizer.{
  StablePhrase, Stabilizer, append_consumed, consume, Round, round, punctuate, consume_punctuation,
}
use xe6_tsy.Stabilizer.Prefixes.{cut_at_boundary-joins}

pub appended :
    (s : Stabilizer) (segment : Text) → (append_consumed segment s).consumed ≡ s.consumed ++ segment
appended s segment =
    elim s.consumed as (λ t. (if is_empty t then segment else t ++ segment) ≡ t ++ segment) [
      | [] ↦ refl
      | c ∷ cs ↦ refl
    ]

-- What `consume` does with a segment: leaves it, or makes the next phrase of it.
pub record Phrased (lower : Lower) (s : Stabilizer) (segment : Text) (t : Stabilizer)
    (p : StablePhrase) : Type 0 where
  pub shown : p.text ≡ trim_space segment
  pub told : is_empty (trim_space segment) ≡ false
  pub worth : is_trivial_asr_text lower (trim_space segment) ≡ false
  pub numbered : p.sequence_no ≡ incr s.next_seq
  pub counted : t.next_seq ≡ incr s.next_seq
  pub taken : t.consumed ≡ s.consumed ++ segment
  pub kept :
      (t.options ≡ s.options) × (t.candidate ≡ s.candidate) × (t.candidate_at ≡ s.candidate_at)

pub consume-cases :
    (lower : Lower) (s : Stabilizer) (segment : Text)
    → (consume lower s segment ≡ (s, []))
      ⊎ ((t : Stabilizer) × (p : StablePhrase) × (consume lower s segment ≡ (t, p ∷ []))
          × Phrased lower s segment t p)
unfolding consume
consume-cases lower s segment = elim (Bool-cases (is_empty (trim_space segment))) [
  | inl e ↦ inl (simp e refl)
  | inr e ↦
      elim (Bool-cases (
        ltb (length (trim_of (codes "。.!！?？，,;；:：、 ") (trim_space segment))) s.options.min_runes)) [
          | inl f ↦ inl (simp (e, f) refl)
          | inr f ↦ elim (Bool-cases (is_trivial_asr_text lower (trim_space segment))) [
            | inl g ↦ inl (simp (e, f, g) refl)
            | inr g ↦ inr (
              _,
              _,
              simp (e, f, g) refl,
              record {
                shown = refl;
                told = e;
                worth = g;
                numbered = refl;
                counted = refl;
                taken = appended s segment;
                kept = (refl, refl, refl);
              },
            )
          ]
        ]
]

-- Two ways of the recursive call that agree on shorter texts give the same round.
round-agrees :
    (lower : Lower) (f g : Stabilizer → Text → Round) (s : Stabilizer) (text : Text)
    → ((t : Stabilizer) (rest : Text) → length rest < length text → f t rest ≡ g t rest)
    → round lower f s text ≡ round lower g s text
unfolding round
round-agrees lower f g s text same = elim (Option-cases (cut_at_boundary text)) [
  | inl e ↦ simp (e, round) refl
  | inr ((segment, rest), e) ↦
      let shorter = (cut_at_boundary-joins text segment rest e).1 in
      elim (consume-cases lower s segment) [
        | inl h ↦ elim (Bool-cases (is_ignorable_confirmed_gap lower segment)) [
          | inl k ↦ simp (e, h, k, round) (same _ rest shorter)
          | inr k ↦ simp (e, h, k, round) refl
        ]
        | inr (t, p, h, i) ↦
            simp (e, h, round) (ap (λ r. (r.0, p ∷ r.1, r.2)) (same t rest shorter))
      ]
]

-- With more fuel than code points, neither more fuel nor what stands for being out of it matters.
punctuate_fuel :
    (lower : Lower) (f g : Stabilizer → Text → Round) (n m : ℕ) (s : Stabilizer) (text : Text)
    → length text < n
    → length text < m
    → punctuate lower f n s text ≡ punctuate lower g m s text
unfolding punctuate
punctuate_fuel lower f g zero m s text h k = absurd (omega (arith, h))
punctuate_fuel lower f g (suc n) zero s text h k = absurd (omega (arith, k))
punctuate_fuel lower f g (suc n) (suc m) s text h k =
    round-agrees lower (punctuate lower f n) (punctuate lower g m) s text (λ t rest shorter.
      punctuate_fuel lower f g n m t rest (omega (arith, shorter, h)) (omega (arith, shorter, k)))

-- `consumePunctuation` ends within one round more than its text has code points: with that fuel the
-- result is the same whatever stands for being out of fuel, so that is never reached. And the result is
-- the body with `consumePunctuation` as the recursive call.
pub consume_punctuation_lem :
    (lower : Lower) (spent : Stabilizer → Text → Round) (n : ℕ) (s : Stabilizer) (text : Text)
    → length text < n
    → (punctuate lower spent n s text ≡ consume_punctuation lower s text)
      × (consume_punctuation lower s text ≡ round lower (consume_punctuation lower) s text)
unfolding consume_punctuation punctuate
consume_punctuation_lem lower spent n s text h = (
  punctuate_fuel lower spent _ n (suc (length text)) s text h (omega arith),
  round-agrees lower _ _ s text (λ t rest shorter.
      punctuate_fuel lower _ _ (length text) (suc (length rest)) t rest (omega (arith, shorter))
        (omega arith)),
)
