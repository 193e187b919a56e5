-- ===== src/Gate/Balance.antt =====
-- services/realtime-audio/command/gate.go: over any calls no stream and no timer is left behind.
use xe6_tsy.Common.{
  ℕ, Bool, true, false, not, ◌&&◌, ◌||◌, ◌≡◌, refl, ◌∙◌, sym, subst, inl, inr, Option, none, some,
  List, [], ◌∷◌, if◌then◌else◌, ◌==◌, arith, Bool-cases, Option-cases, Sum-cases, str_eq,
}
use xe6_tsy.Contract.Mode.{Time}
use xe6_tsy.Segmenter.{reset, reset_active}
use xe6_tsy.Gate.{
  State, dormant, armed, capturing, recognizing, is_dormant, is_armed, is_recognizing, Failure,
  canceled, OpenRequest, Outcome, Transcript, Phase, finishing, processing, concluded, publishing,
  completing, Deps, Gate, Options, new_gate, interrupted, feedback_closed, Effect, Log,
}
use xe6_tsy.Gate.Terminal.{publish_terminal_outcome, abandon, failure_outcome}
use xe6_tsy.Gate.Recognition.{
  WorkEnv, understand, process, begin_processing, finish, settle, find, enter, advance, work,
}
use xe6_tsy.Gate.Calls.{
  interrupt_feedback, remember_command_id, supersede, arm, open_gate, is_no_speech,
  is_window_expired, expire, cancel, Call, opening, consuming, replaying, expiring, working,
  canceling, step, run,
}
use xe6_tsy.Gate.Tally.{counted, counted-publish_terminal_outcome, counted-if}
use xe6_tsy.Gate.Streams.{
  is_start, is_close, starts-Apart, closes-Apart, Balanced, Fits, Held, abandon-Held, fail-Held,
}
use xe6_tsy.Gate.Holding.{consume_locked-Held, replay-Held}
use xe6_tsy.Gate.Moves.{open_gate_rule, new_gate-idle}
use xe6_tsy.Gate.Opening.{opened}

enter-Held : (a : ℕ) (r : Gate × Phase) → Held r.0 → Held (enter a r)
enter-Held a (g, p) h = h

-- The window's timer ends as the audio is complete.
completed :
    (s : State) (stream active window silence complete : Bool)
    → is_recognizing s ≡ true
    → Fits s stream active window silence complete
    → Fits s stream active false silence true
completed dormant stream active window silence complete e f = cc
completed armed stream active window silence complete e f = cc
completed capturing stream active window silence complete e f = cc
completed recognizing stream active window silence complete e f = (f.0, f.1, refl)

all_pass : (a b c : Bool) → (not a || b || c) ≡ false → a ≡ true
all_pass true b c h = refl
all_pass false b c h = cc

finish-Held :
    (env : WorkEnv) (q : OpenRequest) (t : Option Transcript) (g : Gate)
    → Held g
    → Held (finish env q t g).0
unfolding finish begin_processing
finish-Held env q none g h = h
finish-Held env q (some t) g h =
    let other = not (str_eq g.request.command_id q.command_id) in
    elim (Bool-cases (not (is_recognizing g.state) || other || g.closed)) [
      | inl e ↦ rw e h
      | inr e ↦ rw e (
        h.0,
        completed g.state g.stream (g.segmenter).active g.window_timer g.silence_timer
            g.capture_complete (all_pass (is_recognizing g.state) other g.closed e) h.1,
      )
    ]

process-Held :
    (d : Deps) (env : WorkEnv) (a : ℕ) (q : OpenRequest) (t : Transcript) (g : Gate)
    → Held g
    → Held (process d env a q t g).0
unfolding process
process-Held d env a q t g h = elim (Sum-cases (understand d env q t)) [
  | inl (o, e) ↦ rw (e, process) h
  | inr (parsed, e) ↦ rw (e, process) (omega (arith, h.0), h.1)
]

settle-Held : (a : ℕ) (o : Outcome) (g : Gate) → Held g → Held (settle a o g).0
unfolding settle
settle-Held a o g h = elim (Bool-cases (not (g.attempt == a) || not (is_recognizing g.state))) [
  | inl e ↦ rw e h
  | inr e ↦ rw e (abandon-Held g h.0)
]

told-Held :
    (d : Deps) (a : ℕ) (o : Outcome) (g : Gate)
    → Held g
    → Held (record g { log = publish_terminal_outcome d a o g.log })
told-Held d a o g h = (
  omega (
    arith,
    h.0,
    counted-publish_terminal_outcome is_start d a o g.log starts-Apart,
    counted-publish_terminal_outcome is_close d a o g.log closes-Apart,
  ),
  h.1,
)

advance-Held :
    (d : Deps) (env : WorkEnv) (a : ℕ) (q : OpenRequest) (p : Phase) (g : Gate)
    → Held g
    → Held (advance d env a q p g)
unfolding advance
advance-Held d env a q finishing g h =
    enter-Held a (finish env q env.transcript g) (finish-Held env q env.transcript g h)
advance-Held d env a q (processing t) g h =
    enter-Held a (process d env a q t g) (process-Held d env a q t g h)
advance-Held d env a q (concluded o) g h = enter-Held a (settle a o g) (settle-Held a o g h)
advance-Held d env a q (publishing o) g h = told-Held d a o g h
advance-Held d env a q completing g h = h

work-Held : (d : Deps) (env : WorkEnv) (a : ℕ) (g : Gate) → Held g → Held (work d env a g)
unfolding work
work-Held d env a g h = elim (Option-cases (find a g.tasks)) [
  | inl e ↦ rw (e, work) h
  | inr (w, e) ↦ rw (e, work) (advance-Held d env a w.request w.phase g h)
]

unless : (c : Bool) (g h : Gate) → Held g → Held h → Held (if c then g else h)
unless true g h x y = x
unless false g h x y = y

expire-Held :
    (d : Deps) (now : Time) (a : ℕ) (f : Failure) (g : Gate) → Held g → Held (expire d now a f g)
unfolding expire
expire-Held d now a f g h = unless (is_dormant g.state || not (g.attempt == a)) g _ h (
    unless (is_no_speech f && not (is_armed g.state)) g _ h
      (unless (is_window_expired f && g.capture_complete) g _ h (fail-Held d now f g h.0)))

counted-supersede :
    (p : Effect → Bool) (c : Bool) (d : Deps) (a : ℕ) (o : Outcome) (log : Log)
    → counted p (publish_terminal_outcome d a o log) ≡ counted p log
    → counted p (if c then log else publish_terminal_outcome d a o log) ≡ counted p log
counted-supersede p true d a o log h = refl
counted-supersede p false d a o log h = h

opened-Held :
    (d : Deps) (now : Time) (q : OpenRequest) (g : Gate) → Held g → Held (opened d now q g)
unfolding arm remember_command_id supersede abandon reset reset_active
opened-Held d now q g h =
    let o = failure_outcome g.request canceled now in
    let noisy : Gate = interrupt_feedback d (remember_command_id q.command_id g) in
    let same : (p : Effect → Bool)
        → counted p (publish_terminal_outcome d g.attempt o noisy.log) ≡ counted p noisy.log
        → p interrupted ≡ false
        → counted p (supersede d now noisy).log ≡ counted p g.log =
      λ p e f.
        counted-supersede p (is_dormant g.state) d g.attempt o noisy.log e
        ∙ counted-if p d.feedback g.attempt interrupted g.log f in
    let balanced : Balanced (supersede d now noisy) = omega (
      arith,
      h.0,
      same is_start (counted-publish_terminal_outcome is_start d g.attempt o noisy.log starts-Apart)
          refl,
      same is_close (counted-publish_terminal_outcome is_close d g.attempt o noisy.log closes-Apart)
          refl,
    ) in
    ((abandon-Held (supersede d now noisy) balanced).0, (refl, refl, refl, refl, refl))

cancel-Held : (d : Deps) (g : Gate) → Held g → Held (cancel d g)
unfolding cancel abandon reset reset_active
cancel-Held d g h =
    let left : Gate = abandon (record g { closed = true }) in
    let a = abandon-Held (record g { closed = true }) h.0 in
    (
      omega (
        arith,
        a.0,
        counted-if is_start d.feedback left.attempt feedback_closed left.log refl,
        counted-if is_close d.feedback left.attempt feedback_closed left.log refl,
      ),
      (refl, refl, refl, refl, refl),
    )

open_gate-Held :
    (d : Deps) (now : Time) (q : OpenRequest) (g : Gate) → Held g → Held (open_gate d now q g).0
open_gate-Held d now q g h =
    open_gate_rule (λ r. Held r.0) d now q g (λ e. h) (λ c s. opened-Held d now q g h)

step-Held : (d : Deps) (call : Call) (g : Gate) → Held g → Held (step d call g)
unfolding step
step-Held d (opening now q) g h = open_gate-Held d now q g h
step-Held d (consuming env f) g h = consume_locked-Held d env f false g h
step-Held d (replaying fs) g h = replay-Held d fs g h
step-Held d (expiring now a f) g h = expire-Held d now a f g h
step-Held d (working env a) g h = work-Held d env a g h
step-Held d canceling g h = cancel-Held d g h

run-keeps : (d : Deps) (calls : List Call) (g : Gate) → Held g → Held (run d calls g)
unfolding run
run-keeps d [] g h = h
run-keeps d (call ∷ calls) g h = run-keeps d calls (step d call g) (step-Held d call g h)

-- Whatever calls are made on a new gate: each stream of the recognizer that was started has been closed
-- once, but for the one that is open; and stream, utterance and timers are those of the gate's state, so
-- that a dormant gate has none.
pub run-Held :
    (d : Deps) (o : Options) (g : Gate) (calls : List Call)
    → new_gate o ≡ some g
    → Held (run d calls g)
run-Held d o g calls e =
    let (s, same, inactive) = new_gate-idle o g e in
    run-keeps d calls g (subst (λ g. Held g) (sym same) (refl, (refl, inactive, refl, refl, refl)))
