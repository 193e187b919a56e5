-- ===== src/Gate/Settles.antt =====
-- services/realtime-audio/command/gate.go: a call that opens no attempt tells an outcome only of an attempt
-- that is owed one, and then owes it no longer.
use xe6_tsy.Common.{ℕ, ◌≤◌, Bool, true, false, ◌≡◌, refl, ◌∙◌, List, String, arith}
use xe6_tsy.Contract.Mode.{Time}
use xe6_tsy.Gate.{is_dormant, Failure, stream_closed, Effect, Deps, Gate}
use xe6_tsy.Gate.Terminal.{publish_terminal_outcome, abandon, failure_outcome, fail}
use xe6_tsy.Gate.Tally.{counted, counted-if, counted-publish_terminal_outcome, Unlawful}
use xe6_tsy.Gate.Weight.{
  Kind, recording, weight, told-publish_terminal_outcome, recorded-publish_terminal_outcome,
  told-close_stream, running-awake, running-recording,
}

-- What only opening and cancellation change.
abbrev pub kept : Gate → ℕ × Bool × List String × (String → Bool)
kept g = (g.attempt, g.closed, g.command_id_order, g.seen_command_ids)

pub record Settles (d : Deps) (g h : Gate) : Type 0 where
  pub same : kept h ≡ kept g
  pub asleep : is_dormant g.state ≡ true → is_dormant h.state ≡ true
  pub most : (k : Kind) (a : ℕ) → weight k a h ≤ weight k a g
  pub lawful : (p : Effect → Bool) → Unlawful d p → counted p h.log ≡ counted p g.log
  pub least : d.observer ≡ true → (a : ℕ) → weight recording a g ≤ weight recording a h

pub Settles-equal :
    (d : Deps) (g h : Gate)
    → kept h ≡ kept g
    → (is_dormant g.state ≡ true → is_dormant h.state ≡ true)
    → ((k : Kind) (a : ℕ) → weight k a h ≡ weight k a g)
    → ((p : Effect → Bool) → Unlawful d p → counted p h.log ≡ counted p g.log)
    → Settles d g h
Settles-equal d g h e z f l = record {
  lawful = l;
  same = e;
  asleep = z;
  most = λ k a. omega (arith, f k a);
  least = λ o a. omega (arith, f recording a);
}

pub Settles-refl : (d : Deps) (g : Gate) → Settles d g g
Settles-refl d g = Settles-equal d g g refl (λ z. z) (λ k a. refl) (λ p n. refl)

pub Settles-trans : (d : Deps) (g h i : Gate) → Settles d g h → Settles d h i → Settles d g i
Settles-trans d g h i x y = record {
  same = y.same ∙ x.same;
  asleep = λ z. y.asleep (x.asleep z);
  lawful = λ p n. y.lawful p n ∙ x.lawful p n;
  most = λ k a. omega (arith, x.most k a, y.most k a);
  least = λ o a. omega (arith, x.least o a, y.least o a);
}

pub fail-Settles :
    (d : Deps) (now : Time) (f : Failure) (g : Gate)
    → is_dormant g.state ≡ false
    → Settles d g (fail d now f g)
unfolding fail abandon
fail-Settles d now f g h = record {
  same = refl;
  asleep = λ z. refl;
  lawful = λ p n.
      counted-if p g.stream g.attempt stream_closed _ n.closes
      ∙ counted-publish_terminal_outcome p d g.attempt (failure_outcome g.request f now) g.log
          n.outcomes;
  most = λ k a. omega (
    arith,
    told-close_stream g.stream k a g.attempt
        (publish_terminal_outcome d g.attempt (failure_outcome g.request f now) g.log),
    told-publish_terminal_outcome d k a g.attempt (failure_outcome g.request f now) g.log,
    running-awake k a g.state g.attempt h,
  );
  least = λ o a. omega (
    arith,
    told-close_stream g.stream recording a g.attempt
        (publish_terminal_outcome d g.attempt (failure_outcome g.request f now) g.log),
    recorded-publish_terminal_outcome d a g.attempt (failure_outcome g.request f now) g.log o,
    running-recording a g.state g.attempt h,
  );
}
