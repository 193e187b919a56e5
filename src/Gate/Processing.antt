-- ===== src/Gate/Processing.antt =====
-- services/realtime-audio/command/gate.go: a worker up to the outcome of its command.
use xe6_tsy.Common.{
  ℕ, Bool, true, false, not, ◌&&◌, ◌||◌, ◌≤◌, ◌∷◌, ◌≡◌, refl, ap, ◌∙◌, ◌⊎◌, inl, inr, Option, none,
  some, if◌then◌else◌, ◌==◌, arith, Bool-cases, codes, Sum-cases, str_eq,
}
use xe6_tsy.Gate.{
  is_dormant, is_recognizing, OpenRequest, Outcome, Transcript, Phase, finishing, processing,
  concluded, publishing, completing, Worker, Deps, Gate, Effect, executed,
}
use xe6_tsy.Gate.Recognition.{
  WorkEnv, executed_outcome, understand, process, begin_processing, finish, find, enter,
}
use xe6_tsy.Stabilizer.Scan.{is_empty, trim_space}
use xe6_tsy.Gate.Wake.{strip_wake_word_prefix}
use xe6_tsy.Gate.Registry.{Candidate, Command, Result, ok, err, validate}
use xe6_tsy.Gate.Tally.{counted, counted-cons, Unlawful}
use xe6_tsy.Gate.Weight.{
  Kind, recording, count_if, weight, is_kind, tells, executing, is_outcome, announcing, speaking,
}
use xe6_tsy.Gate.Settles.{kept, Settles, Settles-equal}
use xe6_tsy.Gate.Pending.{owing, weight-enter}

abbrev pub calm : Phase → Bool
calm (publishing o) = false
calm p = true

abbrev pub starting : Phase → Bool
starting p = tells p executing

calm_owes :
    (k : Kind) (p : Phase) (a b : ℕ) → calm p ≡ true → is_outcome k ≡ true → owing k p a b ≡ 0
calm_owes executing p a b h o = cc
calm_owes announcing finishing a b h o = refl
calm_owes announcing (processing t) a b h o = refl
calm_owes announcing (concluded u) a b h o = refl
calm_owes announcing (publishing u) a b h o = cc
calm_owes announcing completing a b h o = refl
calm_owes speaking finishing a b h o = refl
calm_owes speaking (processing t) a b h o = refl
calm_owes speaking (concluded u) a b h o = refl
calm_owes speaking (publishing u) a b h o = cc
calm_owes speaking completing a b h o = refl
calm_owes recording finishing a b h o = refl
calm_owes recording (processing t) a b h o = refl
calm_owes recording (concluded u) a b h o = refl
calm_owes recording (publishing u) a b h o = cc
calm_owes recording completing a b h o = refl

fewer : (c e f : Bool) → (c ≡ true → e ≡ true) → count_if (c && f) ≤ count_if (e && f)
fewer true true f n = omega arith
fewer true false f n = let x = n refl in cc
fewer false e f n = omega arith

-- A worker that tells no outcome before or after its step, and executes nothing after it that it would
-- not have before.
owing-calm :
    (k : Kind) (p r : Phase) (a b : ℕ)
    → calm p ≡ true
    → calm r ≡ true
    → (starting r ≡ true → starting p ≡ true)
    → owing k r a b ≤ owing k p a b
owing-calm announcing p r a b x y n = omega (arith, calm_owes announcing r a b y refl)
owing-calm speaking p r a b x y n = omega (arith, calm_owes speaking r a b y refl)
owing-calm recording p r a b x y n = omega (arith, calm_owes recording r a b y refl)
owing-calm executing p r a b x y n = fewer (starting r) (starting p) (a == b) n

-- A step between two phases in neither of which the worker is about to tell an outcome.
pub plain-Settles :
    (d : Deps) (a : ℕ) (g : Gate) (r : Gate × Phase) (w : Worker)
    → find a g.tasks ≡ some w
    → r.0.tasks ≡ g.tasks
    → kept r.0 ≡ kept g
    → (is_dormant g.state ≡ true → is_dormant r.0.state ≡ true)
    → ((k : Kind) (b : ℕ) → weight k b r.0 ≡ weight k b g)
    → ((p : Effect → Bool) → Unlawful d p → counted p r.0.log ≡ counted p g.log)
    → calm w.phase ≡ true
    → calm r.1 ≡ true
    → (starting r.1 ≡ true → starting w.phase ≡ true)
    → Settles d g (enter a r)
plain-Settles d a g r w h t s z e l x y n = record {
  same = s;
  asleep = z;
  lawful = l;
  most = λ k b.
      omega (arith, weight-enter k a b r w (rw t h), owing-calm k w.phase r.1 a b x y n, e k b);
  least = λ o b. omega (
    arith,
    weight-enter recording a b r w (rw t h),
    calm_owes recording w.phase a b x refl,
    calm_owes recording r.1 a b y refl,
    e recording b,
  );
}

pub finish-Settles :
    (d : Deps) (env : WorkEnv) (a : ℕ) (q : OpenRequest) (t : Option Transcript) (g : Gate)
    (w : Worker)
    → find a g.tasks ≡ some w
    → w.phase ≡ finishing
    → Settles d g (enter a (finish env q t g))
unfolding finish begin_processing
finish-Settles d env a q none g w h p =
    plain-Settles d a g (finish env q none g) w h refl refl (λ z. z) (λ k b. refl) (λ p n. refl)
      (rw p refl) refl (λ n. rw p refl)
finish-Settles d env a q (some t) g w h p =
    elim (Bool-cases (
      not (is_recognizing g.state) || not (str_eq g.request.command_id q.command_id) || g.closed)) [
        | inl e ↦
            plain-Settles d a g (finish env q (some t) g) w h (rw e refl) (rw e refl) (λ z. rw e z)
              (λ k b. rw e refl) (λ p n. rw e refl) (rw p refl) (rw e refl) (λ n. rw p refl)
        | inr e ↦
            plain-Settles d a g (finish env q (some t) g) w h (rw e refl) (rw e refl) (λ z. rw e z)
              (λ k b. rw e refl) (λ p n. rw e refl) (rw p refl) (rw e refl) (λ n. rw p refl)
      ]

understand-validated :
    (d : Deps) (env : WorkEnv) (q : OpenRequest) (t : Transcript) (parsed : Command)
    → understand d env q t ≡ inr parsed
    → (c : Candidate) × (validate d.registry c ≡ ok parsed)
unfolding understand
understand-validated d env q t parsed h =
    from (is_empty (trim_space (strip_wake_word_prefix (codes t.text))))
      (env.interpret (strip_wake_word_prefix (codes t.text)) t.source_language) _ _ _ h
  where
    judged :
        (c : Candidate) (r : Result Command) (z : Outcome)
        → validate d.registry c ≡ r
        → (elim r as (λ r. Outcome ⊎ Command) [ err e ↦ inl z | ok parsed ↦ inr parsed ])
          ≡ inr parsed
        → (c : Candidate) × (validate d.registry c ≡ ok parsed)
    judged c (err e) z x k = cc
    judged c (ok p) z x k = (c, x ∙ cc)

    from :
        (b : Bool) (o : Option Candidate) (x y z : Outcome)
        → (if◌then◌else◌ {A = Outcome ⊎ Command} b (inl x) (elim o [
          | none ↦ inl y
          | some c ↦ elim (validate d.registry c) [ err e ↦ inl z | ok parsed ↦ inr parsed ]
        ]))
          ≡ inr parsed
        → (c : Candidate) × (validate d.registry c ≡ ok parsed)
    from true o x y z k = cc
    from false none x y z k = cc
    from false (some c) x y z k = judged c (validate d.registry c) z refl k

traded :
    (k : Kind) (a b : ℕ) (parsed : Command) (t : Transcript)
    → count_if (is_kind (executed parsed) k && a == b) ≡ owing k (processing t) a b
traded announcing a b parsed t = refl
traded speaking a b parsed t = refl
traded recording a b parsed t = refl
traded executing a b parsed t = refl

-- An execution is counted as its worker no longer has it before it.
execute-Settles :
    (d : Deps) (a : ℕ) (g : Gate) (c : Candidate) (parsed : Command) (o : Outcome) (t : Transcript)
    (w : Worker)
    → find a g.tasks ≡ some w
    → w.phase ≡ processing t
    → validate d.registry c ≡ ok parsed
    → Settles d g (enter a (record g { log = (a, executed parsed) ∷ g.log }, concluded o))
execute-Settles d a g c parsed o t w h p v =
    let r : Gate × Phase = (record g { log = (a, executed parsed) ∷ g.log }, concluded o) in
    let before : (k : Kind) (b : ℕ) → owing k w.phase a b ≡ owing k (processing t) a b =
      λ k b. ap (λ p. owing k p a b) p in
    let weighed : (k : Kind) (b : ℕ) → weight k b (enter a r) ≡ weight k b g =
      λ k b. omega (arith, weight-enter k a b r w h, before k b, traded k a b parsed t) in
    Settles-equal d g (enter a r) refl (λ z. z) weighed
      (λ p n. counted-cons p a (executed parsed) g.log (n.executes c parsed v))

pub process-Settles :
    (d : Deps) (env : WorkEnv) (a : ℕ) (q : OpenRequest) (t : Transcript) (g : Gate) (w : Worker)
    → find a g.tasks ≡ some w
    → w.phase ≡ processing t
    → Settles d g (enter a (process d env a q t g))
unfolding process
process-Settles d env a q t g w h p = elim (Sum-cases (understand d env q t)) [
  | inl (o, e) ↦
      rw (e, process)
        (plain-Settles d a g (g, concluded o) w h refl refl (λ z. z) (λ k b. refl) (λ p n. refl)
          (rw p refl) refl (λ n. rw p refl))
  | inr (parsed, e) ↦
      let (c, v) = understand-validated d env q t parsed e in
      rw (e, process)
        (execute-Settles d a g c parsed (executed_outcome env q parsed (env.execute parsed)) t w h p
          v)
]
