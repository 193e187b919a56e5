-- ===== src/Stabilizer/Ledger.antt =====
-- services/realtime-audio/pipeline/phrase_stabilizer.go: what was consumed is the phrases that were
-- emitted, with confirmed gaps between them.
use xe6_tsy.Common.{
  ℕ, zero, suc, ◌≡◌, refl, ap, ◌∙◌, inl, inr, true, false, List, [], ◌∷◌, ◌++◌, append_assoc, incr,
  Bool-cases, Option-cases,
}
use xe6_tsy.Stabilizer.Scan.{
  Text, Lower, is_empty, trim_space, cut_at_boundary, is_trivial_asr_text,
  is_ignorable_confirmed_gap,
}
use xe6_tsy.Stabilizer.{StablePhrase, Stabilizer, append_consumed, consume, Round, round, punctuate}
use xe6_tsy.Stabilizer.Prefixes.{cut_at_boundary-joins}
use xe6_tsy.Stabilizer.Rounds.{appended, Phrased, consume-cases}

-- From a consumed text and a last number to others, by the phrases emitted in between: each is the next
-- number with a trimmed segment of the text that says something, and other segments are confirmed gaps.
pub data Ledger (lower : Lower) : Text → ℕ → List StablePhrase → Text → ℕ → Type 0 where
  still : (t : Text) (n : ℕ) → Ledger lower t n [] t n
  phrase :
      (segment t u : Text) (n m : ℕ) (ps : List StablePhrase)
      → is_empty (trim_space segment) ≡ false
      → is_trivial_asr_text lower (trim_space segment) ≡ false
      → Ledger lower (t ++ segment) (incr n) ps u m
      → Ledger lower t n (record { sequence_no = incr n; text = trim_space segment } ∷ ps) u m
  gap :
      (segment t u : Text) (n m : ℕ) (ps : List StablePhrase)
      → is_ignorable_confirmed_gap lower segment ≡ true
      → Ledger lower (t ++ segment) n ps u m
      → Ledger lower t n ps u m

module _ (lower : Lower) where
  pub Ledger-append :
      {t u v : Text} {n m k : ℕ} {ps qs : List StablePhrase}
      → Ledger lower t n ps u m
      → Ledger lower u m qs v k
      → Ledger lower t n (ps ++ qs) v k
  Ledger-append (still t n) k = k
  Ledger-append (phrase segment t u n m ps a b h) k =
      phrase segment t _ n _ _ a b (Ledger-append h k)
  Ledger-append (gap segment t u n m ps a h) k = gap segment t _ n _ _ a (Ledger-append h k)

  -- From one state to another.
  abbrev pub Moves : Stabilizer → List StablePhrase → Stabilizer → Type 0
  Moves s ps t = Ledger lower s.consumed s.next_seq ps t.consumed t.next_seq

  Phrased-Moves :
      (s t : Stabilizer) (segment : Text) (p : StablePhrase)
      → Phrased lower s segment t p
      → Moves s (p ∷ []) t
  Phrased-Moves s t segment p h =
      let same : p ≡ record { sequence_no = incr s.next_seq; text = trim_space segment } =
        cc (h.shown, h.numbered) in
      simp (same, h.taken, h.counted)
        (phrase segment s.consumed _ s.next_seq _ [] h.told h.worth (still _ _))

  gap-Moves :
      (s : Stabilizer) (segment : Text)
      → is_ignorable_confirmed_gap lower segment ≡ true
      → Moves s [] (append_consumed segment s)
  gap-Moves s segment h =
      simp (appended s segment) (gap segment s.consumed _ s.next_seq _ [] h (still _ _))

  pub consume-Moves :
      (s : Stabilizer) (segment : Text)
      → Moves s (consume lower s segment).1 (consume lower s segment).0
  consume-Moves s segment = elim (consume-cases lower s segment) [
    | inl e ↦ simp e (still s.consumed s.next_seq)
    | inr (t, p, e, h) ↦ simp e (Phrased-Moves s t segment p h)
  ]

  -- What a round leaves and gives, of a text that follows the consumed one.
  abbrev pub Accounts : Stabilizer → Text → Round → Type 0
  Accounts s text r = Moves s r.1 r.0 × (r.0.consumed ++ r.2 ≡ s.consumed ++ text)

  round-Accounts :
      (again : Stabilizer → Text → Round) (s : Stabilizer) (text : Text)
      → ((t : Stabilizer) (rest : Text) → Accounts t rest (again t rest))
      → Accounts s text (round lower again s text)
  unfolding round
  round-Accounts again s text h = elim (Option-cases (cut_at_boundary text)) [
    | inl e ↦ simp (e, round) (still s.consumed s.next_seq, refl)
    | inr ((segment, rest), e) ↦
        let joined : s.consumed ++ segment ++ rest ≡ s.consumed ++ text =
          append_assoc s.consumed segment rest
          ∙ ap (λ z. s.consumed ++ z) (cut_at_boundary-joins text segment rest e).0 in
        elim (consume-cases lower s segment) [
          | inl f ↦ elim (Bool-cases (is_ignorable_confirmed_gap lower segment)) [
            | inr g ↦ simp (e, f, g, round) (still s.consumed s.next_seq, refl)
            | inl g ↦
                let (i, j) = h (append_consumed segment s) rest in
                simp (e, f, g, round)
                  (
                    Ledger-append (gap-Moves s segment g) i,
                    j ∙ ap (λ z. z ++ rest) (appended s segment) ∙ joined,
                  )
          ]
          | inr (t, p, f, taken) ↦
              let (i, j) = h t rest in
              simp (e, f, round)
                (
                  Ledger-append (Phrased-Moves s t segment p taken) i,
                  j ∙ ap (λ z. z ++ rest) taken.taken ∙ joined,
                )
        ]
  ]

  pub punctuate-Accounts :
      (spent : Stabilizer → Text → Round)
      → ((t : Stabilizer) (rest : Text) → Accounts t rest (spent t rest))
      → (n : ℕ) (s : Stabilizer) (text : Text) → Accounts s text (punctuate lower spent n s text)
  unfolding punctuate
  punctuate-Accounts spent h zero s text = h s text
  punctuate-Accounts spent h (suc n) s text =
      round-Accounts (punctuate lower spent n) s text (punctuate-Accounts spent h n)
