-- ===== src/Gate/Workers.antt =====
-- services/realtime-audio/command/gate.go: a worker's step tells an outcome only of an attempt that is owed
-- one.
use xe6_tsy.Common.{
  ℕ, ◌+◌, true, ◌&&◌, ◌≡◌, refl, ap, ◌∙◌, inl, inr, some, ◌==◌, ==_iff, arith, Bool-cases,
  Option-cases,
}
use xe6_tsy.Gate.{
  is_recognizing, OpenRequest, Outcome, Phase, finishing, processing, concluded, publishing,
  completing, Worker, Deps, Gate, stream_closed,
}
use xe6_tsy.Gate.Terminal.{publish_terminal_outcome, abandon}
use xe6_tsy.Gate.Recognition.{WorkEnv, settle, find, remove, enter, advance, work}
use xe6_tsy.Gate.Tally.{counted-if, counted-publish_terminal_outcome}
use xe6_tsy.Gate.Weight.{
  Kind, recording, count_if, weight, told-publish_terminal_outcome,
  recorded-publish_terminal_outcome, told-close_stream, executing, is_outcome, announcing, speaking,
  handed, running,
}
use xe6_tsy.Gate.Settles.{Settles, Settles-equal, Settles-refl}
use xe6_tsy.Gate.Pending.{owing, pending-remove, weight-enter}
use xe6_tsy.Gate.Processing.{plain-Settles, finish-Settles, process-Settles}

weight-abandon :
    (k : Kind) (b : ℕ) (g : Gate)
    → weight k b (abandon g) + running k b g.state g.attempt ≡ weight k b g
unfolding abandon
weight-abandon k b g = omega (arith, told-close_stream g.stream k b g.attempt g.log)

-- The worker takes over what is owed to its attempt.
hand_over :
    (d : Deps) (a : ℕ) (o : Outcome) (g : Gate) (w : Worker)
    → find a g.tasks ≡ some w
    → w.phase ≡ concluded o
    → (g.attempt == a) ≡ true
    → is_recognizing g.state ≡ true
    → Settles d g (enter a (abandon g, publishing o))
unfolding abandon
hand_over d a o g w h p e r =
    Settles-equal d g (enter a (abandon g, publishing o)) refl (λ z. refl)
      (λ k b.
        let before : owing k w.phase a b ≡ 0 = ap (λ p. owing k p a b) p in
        let same : owing k (publishing o) g.attempt b ≡ owing k (publishing o) a b =
          ap (λ n. owing k (publishing o) n b) ((==_iff g.attempt a).0 e) in
        omega (
          arith,
          weight-enter k a b (abandon g, publishing o) w h,
          before,
          same,
          handed k b g.attempt o g.state r,
          weight-abandon k b g,
        ))
      (λ p n. counted-if p g.stream g.attempt stream_closed g.log n.closes)

settle-Settles :
    (d : Deps) (a : ℕ) (o : Outcome) (g : Gate) (w : Worker)
    → find a g.tasks ≡ some w
    → w.phase ≡ concluded o
    → Settles d g (enter a (settle a o g))
unfolding settle
settle-Settles d a o g w h p =
    let late =
      plain-Settles d a g (g, completing) w h refl refl (λ z. z) (λ k b. refl) (λ p n. refl)
        (rw p refl) refl (λ n. cc) in
    elim (Bool-cases (g.attempt == a)) [
      | inr e ↦ rw e late
      | inl e ↦ elim (Bool-cases (is_recognizing g.state)) [
        | inl r ↦ rw (e, r) (hand_over d a o g w h p e r)
        | inr r ↦ rw (e, r) late
      ]
    ]

publishing_outcome :
    (k : Kind) (o : Outcome) (a b : ℕ)
    → owing k (publishing o) a b ≡ count_if (is_outcome k && a == b)
publishing_outcome announcing o a b = refl
publishing_outcome speaking o a b = refl
publishing_outcome recording o a b = refl
publishing_outcome executing o a b = refl

publish-Settles :
    (d : Deps) (a : ℕ) (o : Outcome) (g : Gate) (w : Worker)
    → find a g.tasks ≡ some w
    → w.phase ≡ publishing o
    → Settles d g (enter a (record g { log = publish_terminal_outcome d a o g.log }, completing))
publish-Settles d a o g w h p =
    let r : Gate × Phase = (record g { log = publish_terminal_outcome d a o g.log }, completing) in
    let before : (k : Kind) (b : ℕ) → owing k w.phase a b ≡ count_if (is_outcome k && a == b) =
      λ k b. ap (λ p. owing k p a b) p ∙ publishing_outcome k o a b in
    record {
      same = refl;
      asleep = λ z. z;
      lawful = λ p n. counted-publish_terminal_outcome p d a o g.log n.outcomes;
      most = λ k b. omega (
        arith,
        weight-enter k a b r w h,
        before k b,
        told-publish_terminal_outcome d k b a o g.log,
      );
      least = λ t b. omega (
        arith,
        weight-enter recording a b r w h,
        before recording b,
        recorded-publish_terminal_outcome d b a o g.log t,
      );
    }

complete-Settles :
    (d : Deps) (a : ℕ) (g : Gate) (w : Worker)
    → find a g.tasks ≡ some w
    → w.phase ≡ completing
    → Settles d g (record g { tasks = remove a g.tasks })
complete-Settles d a g w h p =
    Settles-equal d g (record g { tasks = remove a g.tasks }) refl (λ z. z)
      (λ k b.
        let before : owing k w.phase a b ≡ 0 = ap (λ p. owing k p a b) p in
        omega (arith, pending-remove k a b g.tasks w h, before))
      (λ p n. refl)

advance-Settles :
    (d : Deps) (env : WorkEnv) (a : ℕ) (q : OpenRequest) (p : Phase) (g : Gate) (w : Worker)
    → find a g.tasks ≡ some w
    → w.phase ≡ p
    → Settles d g (advance d env a q p g)
unfolding advance
advance-Settles d env a q finishing g w h e = finish-Settles d env a q env.transcript g w h e
advance-Settles d env a q (processing t) g w h e = process-Settles d env a q t g w h e
advance-Settles d env a q (concluded o) g w h e = settle-Settles d a o g w h e
advance-Settles d env a q (publishing o) g w h e = publish-Settles d a o g w h e
advance-Settles d env a q completing g w h e = complete-Settles d a g w h e

pub work-Settles : (d : Deps) (env : WorkEnv) (a : ℕ) (g : Gate) → Settles d g (work d env a g)
unfolding work
work-Settles d env a g = elim (Option-cases (find a g.tasks)) [
  | inl e ↦ rw (e, work) (Settles-refl d g)
  | inr (w, e) ↦ rw (e, work) (advance-Settles d env a w.request w.phase g w e refl)
]
