-- ===== src/Gate/Lawful.antt =====
-- services/realtime-audio/command/gate.go and registry.go: only commands of the registry are executed.
use xe6_tsy.Common.{
  Bool, true, false, not, ◌||◌, ◌≡◌, refl, ap, ◌∙◌, subst, inl, inr, Option, none, some, List, [],
  ◌∷◌, if◌then◌else◌, Bool-cases,
}
use xe6_tsy.Contract.Mode.{Time, valid}
use xe6_tsy.Gate.{
  is_dormant, Effect, stream_closed, executed, interrupted, feedback_closed, Deps, Gate, Options,
  new_gate, canceled,
}
use xe6_tsy.Gate.Registry.{
  Action, Candidate, Command, CapabilityDescriptor, Result, ok, err, by_mode, contains_action,
  valid_action, refused, candidate_invalid, capability_unavailable, validate,
}
use xe6_tsy.Gate.Terminal.{abandon, failure_outcome}
use xe6_tsy.Gate.Calls.{
  interrupt_feedback, remember_command_id, supersede, arm, cancel, Call, step, run,
}
use xe6_tsy.Gate.Tally.{counted, counted-if, counted-publish_terminal_outcome, Apart, Unlawful}
use xe6_tsy.Gate.Moves.{Moves, settling, opens, cancels, step-Moves, new_gate-idle}

-- Whether the descriptor of a command's mode lists its action.
abbrev pub lists : Action → Option CapabilityDescriptor → Bool
lists a none = false
lists a (some d) = contains_action a d.actions

abbrev pub allowed : List CapabilityDescriptor → Command → Bool
allowed registry c = lists c.action (by_mode c.target_mode registry)

first_passes : (a b c e : Bool) → (not a || b || c || e) ≡ false → a ≡ true
first_passes true b c e h = refl
first_passes false b c e h = cc

refused-lists :
    (d : CapabilityDescriptor) (c : Candidate)
    → refused d c ≡ false
    → contains_action c.action d.actions ≡ true
unfolding refused
refused-lists d c h = first_passes (contains_action c.action d.actions) _ _ _ h

validate-allowed :
    (registry : List CapabilityDescriptor) (c : Candidate) (parsed : Command)
    → validate registry c ≡ ok parsed
    → allowed registry parsed ≡ true
unfolding validate
validate-allowed registry c parsed h =
    from (not (valid_action c.action) || not (valid c.target_mode)) (by_mode c.target_mode registry)
      refl h
  where
    command : Command
    command = record {
      text = c.text;
      action = c.action;
      target_mode = c.target_mode;
      arguments = c.arguments;
    }

    judged :
        (d : CapabilityDescriptor) (r : Bool)
        → by_mode c.target_mode registry ≡ some d
        → refused d c ≡ r
        → (if r then err candidate_invalid else ok command) ≡ ok parsed
        → allowed registry parsed ≡ true
    judged d true b e k = cc
    judged d false b e k =
        let same : command ≡ parsed = cc in
        subst (λ x. allowed registry x ≡ true) same (ap (lists c.action) b ∙ refused-lists d c e)

    from :
        (b : Bool) (o : Option CapabilityDescriptor)
        → by_mode c.target_mode registry ≡ o
        → (if b then err candidate_invalid else elim o as (λ o. Result Command) [
          | none ↦ err capability_unavailable
          | some d ↦ if refused d c then err candidate_invalid else ok command
        ])
          ≡ ok parsed
        → allowed registry parsed ≡ true
    from true o e k = cc
    from false none e k = cc
    from false (some d) e k = judged d (refused d c) e refl k

-- An execution that the registry does not allow.
abbrev pub unlawful : Deps → Effect → Bool
unlawful d (executed c) = not (allowed d.registry c)
unlawful d _ = false

unlawful-Unlawful : (d : Deps) → Unlawful d (unlawful d)
unlawful-Unlawful d = record {
  outcomes = (λ e. refl, λ e b. refl, λ s f. refl);
  starts = refl;
  closes = refl;
  pushes = λ pcm. refl;
  interrupts = refl;
  releases = refl;
  executes = λ c parsed v. rw (validate-allowed d.registry c parsed v) refl;
}

counted-supersede :
    (p : Effect → Bool) (d : Deps) (now : Time) (g : Gate)
    → Apart p
    → counted p (supersede d now g).log ≡ counted p g.log
unfolding supersede
counted-supersede p d now g h = elim (Bool-cases (is_dormant g.state)) [
  | inl e ↦ rw e refl
  | inr e ↦ rw e (
      counted-publish_terminal_outcome p d g.attempt (failure_outcome g.request canceled now) g.log
        h)
]

step-lawful :
    (d : Deps) (p : Effect → Bool) (g h : Gate)
    → Unlawful d p
    → Moves d g h
    → counted p h.log ≡ counted p g.log
unfolding arm abandon remember_command_id cancel
step-lawful d p g h n (settling s) = s.lawful p n
step-lawful d p g h n (opens now q c s e) =
    let noisy : Gate = interrupt_feedback d (remember_command_id q.command_id g) in
    let after : Gate = supersede d now noisy in
    ap (λ h. counted p h.log) e
    ∙ counted-if p after.stream after.attempt stream_closed after.log n.closes
    ∙ counted-supersede p d now noisy n.outcomes
    ∙ counted-if p d.feedback g.attempt interrupted g.log n.interrupts
step-lawful d p g h n (cancels e) =
    let left : Gate = abandon (record g { closed = true }) in
    ap (λ h. counted p h.log) e
    ∙ counted-if p d.feedback left.attempt feedback_closed left.log n.releases
    ∙ counted-if p g.stream g.attempt stream_closed g.log n.closes

run-lawful :
    (d : Deps) (p : Effect → Bool) (calls : List Call) (g : Gate)
    → Unlawful d p
    → counted p (run d calls g).log ≡ counted p g.log
unfolding run
run-lawful d p [] g n = refl
run-lawful d p (call ∷ calls) g n =
    run-lawful d p calls (step d call g) n
    ∙ step-lawful d p g (step d call g) n (step-Moves d call g)

-- Over any calls on a new gate, and whatever recognizer, interpreter and executor answer, no command is
-- executed but one whose mode has a descriptor in the registry that lists the command's action.
pub executes_allowed :
    (d : Deps) (o : Options) (g : Gate) (calls : List Call)
    → new_gate o ≡ some g
    → counted (unlawful d) (run d calls g).log ≡ 0
executes_allowed d o g calls e =
    let (s, same, inactive) = new_gate-idle o g e in
    run-lawful d (unlawful d) calls g (unlawful-Unlawful d)
    ∙ ap (λ g. counted (unlawful d) g.log) same
