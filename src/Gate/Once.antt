-- ===== src/Gate/Once.antt =====
-- services/realtime-audio/command/gate.go: over any calls each attempt has one outcome.
use xe6_tsy.Common.{
  ℕ, ◌+◌, ◌%◌, ◌≤◌, ◌<◌, true, false, ◌≡◌, refl, ap, ◌∙◌, sym, subst, inl, inr, some, List, [], ◌∷◌,
  ◌==◌, ==_iff, arith, Bool-cases, length, word_mod,
}
use xe6_tsy.Contract.Mode.{Time}
use xe6_tsy.Segmenter.{Segmenter}
use xe6_tsy.Gate.{OpenRequest, Deps, Gate, Options, idle_gate, new_gate}
use xe6_tsy.Gate.Terminal.{close_stream, abandon}
use xe6_tsy.Gate.Calls.{supersede, arm, remember_command_id, cancel, Call, step, run}
use xe6_tsy.Gate.Weight.{
  Kind, recording, told, pending, running, count_if, weight, told-close_stream,
}
use xe6_tsy.Gate.Settles.{Settles}
use xe6_tsy.Gate.Moves.{Moves, settling, opens, cancels, step-Moves, new_gate-idle}
use xe6_tsy.Gate.Opening.{told-if_closed, opened, opened-most, opened-least}

-- Each attempt so far was told its outcome once or is owed it, unless the gate was closed.
record Settled (d : Deps) (g : Gate) : Type 0 where
  at_most : (k : Kind) (a : ℕ) → weight k a g ≤ 1
  fresh : (k : Kind) (a : ℕ) → g.attempt < a → weight k a g ≡ 0
  exact :
      d.observer ≡ true
      → g.closed ≡ false
      → (a : ℕ) → 1 ≤ a
      → a ≤ g.attempt
      → weight recording a g ≡ 1

keep-Settled : (d : Deps) (g h : Gate) → Settles d g h → Settled d g → Settled d h
keep-Settled d g h s i =
    let attempt : h.attempt ≡ g.attempt = ap (λ x. x.0) s.same in
    let closed : h.closed ≡ g.closed = ap (λ x. x.1) s.same in
    record {
      at_most = λ k a. omega (arith, s.most k a, i.at_most k a);
      fresh = λ k a l. omega (arith, s.most k a, i.fresh k a (rw (sym attempt) l));
      exact = λ o c a l u. omega (
        arith,
        s.least o a,
        s.most recording a,
        i.exact o (sym closed ∙ c) a l (rw (sym attempt) u),
      );
    }

bump : (m a : ℕ) → count_if (m == a) ≤ 1
bump m a = ground arith

no_bump : (m a : ℕ) → (m == a) ≡ false → count_if (m == a) ≡ 0
no_bump m a h = rw h refl

full_bump : (m a : ℕ) → (m == a) ≡ true → count_if (m == a) ≡ 1
full_bump m a h = rw h refl

==-false : (m a : ℕ) → m < a → (m == a) ≡ false
==-false m a h = ground arith

below : (m a : ℕ) → (m == a) ≡ false → a ≤ m → a < m
below m a h l = ground arith

next_attempt : (n : ℕ) → n + 1 < word_mod → (n + 1) % word_mod ≡ n + 1
next_attempt n h = omega (arith, h)

opened-Settled :
    (d : Deps) (now : Time) (q : OpenRequest) (g : Gate)
    → g.attempt + 1 < word_mod
    → g.closed ≡ false
    → Settled d g
    → Settled d (opened d now q g)
unfolding arm abandon supersede remember_command_id
opened-Settled d now q g w c i =
    let m = (g.attempt + 1) % word_mod in
    let next = next_attempt g.attempt w in
    record {
      at_most = λ k a. elim (Bool-cases (m == a)) [
        | inl e ↦ omega (
          arith,
          opened-most d now q g k a,
          i.fresh k a (omega (arith, next, (==_iff m a).0 e)),
          bump m a,
        )
        | inr e ↦ omega (arith, opened-most d now q g k a, i.at_most k a, no_bump m a e)
      ];
      fresh = λ k a l. omega (
        arith,
        opened-most d now q g k a,
        i.fresh k a (omega (arith, next, l)),
        no_bump m a (==-false m a l),
      );
      exact = λ o z a l u. elim (Bool-cases (m == a)) [
        | inl e ↦ omega (
          arith,
          opened-most d now q g recording a,
          opened-least d now q g a o,
          i.fresh recording a (omega (arith, next, (==_iff m a).0 e)),
          full_bump m a e,
        )
        | inr e ↦ omega (
          arith,
          opened-most d now q g recording a,
          opened-least d now q g a o,
          i.exact o c a l (omega (arith, next, below m a e u)),
          no_bump m a e,
        )
      ];
    }

cancel-Settled : (d : Deps) (g : Gate) → Settled d g → Settled d (cancel d g)
unfolding cancel abandon
cancel-Settled d g i =
    let most : (k : Kind) (a : ℕ) → weight k a (cancel d g) ≤ weight k a g = λ k a. omega (
      arith,
      told-if_closed d.feedback k a g.attempt (close_stream g.stream g.attempt g.log),
      told-close_stream g.stream k a g.attempt g.log,
    ) in
    record {
      at_most = λ k a. omega (arith, most k a, i.at_most k a);
      fresh = λ k a l. omega (arith, most k a, i.fresh k a l);
      exact = λ o c a l u. cc;
    }

step-Settled :
    (d : Deps) (g h : Gate) → g.attempt + 1 < word_mod → Moves d g h → Settled d g → Settled d h
step-Settled d g h w (settling s) i = keep-Settled d g h s i
step-Settled d g h w (opens now q c s e) i =
    subst (λ h. Settled d h) (sym e) (opened-Settled d now q g w c i)
step-Settled d g h w (cancels e) i = subst (λ h. Settled d h) (sym e) (cancel-Settled d g i)

step-attempt :
    (d : Deps) (g h : Gate) → g.attempt + 1 < word_mod → Moves d g h → h.attempt ≤ g.attempt + 1
unfolding arm cancel abandon supersede remember_command_id
step-attempt d g h w (settling s) = omega (arith, ap (λ x. x.0) s.same)
step-attempt d g h w (opens now q c s e) =
    let same : h.attempt ≡ (g.attempt + 1) % word_mod = ap (λ h. h.attempt) e in
    omega (arith, same, next_attempt g.attempt w)
step-attempt d g h w (cancels e) =
    let same : h.attempt ≡ g.attempt = ap (λ h. h.attempt) e in omega (arith, same)

run-Settled :
    (d : Deps) (calls : List Call) (g : Gate)
    → g.attempt + length calls < word_mod
    → Settled d g
    → Settled d (run d calls g)
unfolding run
run-Settled d [] g w i = i
run-Settled d (call ∷ calls) g w i =
    let one : g.attempt + 1 < word_mod = omega arith in
    let moved = step-Moves d call g in
    run-Settled d calls (step d call g) (omega (arith, step-attempt d g (step d call g) one moved))
      (step-Settled d g (step d call g) one moved i)

idle-Settled : (d : Deps) (o : Options) (s : Segmenter) → Settled d (idle_gate o s)
idle-Settled d o s = record {
  at_most = λ k a. omega arith;
  fresh = λ k a l. omega arith;
  exact = λ t c a l u. omega arith;
}

ran-Settled :
    (d : Deps) (o : Options) (g : Gate) (calls : List Call)
    → new_gate o ≡ some g
    → length calls < word_mod
    → Settled d (run d calls g)
ran-Settled d o g calls e l =
    let (s, same, inactive) = new_gate-idle o g e in
    run-Settled d calls g (omega (arith, l, ap (λ g. g.attempt) same))
      (subst (λ g. Settled d g) (sym same) (idle-Settled d o s))

-- Over any fewer than 2 ^ 64 calls on a new gate, no attempt has a command executed, or its outcome
-- published, spoken as feedback or recorded, more than once, in whatever order expiries, audio, workers,
-- new openings and a cancellation come.
pub at_most_once :
    (d : Deps) (o : Options) (g : Gate) (calls : List Call) (k : Kind) (a : ℕ)
    → new_gate o ≡ some g
    → length calls < word_mod
    → told k a (run d calls g).log ≤ 1
at_most_once d o g calls k a e l = omega (arith, (ran-Settled d o g calls e l).at_most k a)

-- Over any fewer than 2 ^ 64 calls on a new gate that has an observer, while the gate is not closed: each
-- attempt opened so far has had its outcome recorded exactly once, or it is still under way, or exactly
-- one worker is about to record it.
pub one_outcome_each :
    (d : Deps) (o : Options) (g : Gate) (calls : List Call) (a : ℕ)
    → new_gate o ≡ some g
    → length calls < word_mod
    → d.observer ≡ true
    → (run d calls g).closed ≡ false
    → 1 ≤ a
    → a ≤ (run d calls g).attempt
    → told recording a (run d calls g).log
        + (pending recording a (run d calls g).tasks
            + running recording a (run d calls g).state (run d calls g).attempt)
      ≡ 1
one_outcome_each d o g calls a e l t c x y = (ran-Settled d o g calls e l).exact t c a x y
