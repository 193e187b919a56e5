-- ===== src/Coordinator/Events.antt =====
-- The events that services/realtime-audio/runtime/mode.go hands to the sink are its runtime's own and
-- pass the contract's validation.
use text.Mathlib.TextLemmas.{append-eq-nil_iff}
use xe6_tsy.Common.{
  ◌≡◌, ◌≢◌, refl, sym, ◌∙◌, Bool, true, false, Option, none, some, String, List, [], ◌∷◌, ◌++◌,
  arith, All, All-append, Option-cases, inl, inr, str_eq, str_eq_iff, Bool-cases,
}
use xe6_tsy.Contract.Mode.{
  Time, Mode, valid, mode_eq, ModeState, ModeChanged, SwitchCommand, SwitchResult, validate,
}
use xe6_tsy.Coordinator.{
  Coordinator, Pending, Env, ok, remember, commit_pending, command_ok, prepare, event_id_of, stay,
  switch, run, new,
}
use xe6_tsy.Coordinator.Induction.{switch_rule}
use xe6_tsy.Coordinator.History.{remember_keeps}

-- An event of the runtime in state `s` that is complete, but for its generation.
pub record Issued (s : ModeState) (e : ModeChanged) : Type 0 where
  pub session : e.session_id ≡ s.session_id
  pub instance_id : e.runtime_instance_id ≡ s.runtime_instance_id
  pub complete : validate (record e { resulting_generation = 2 }) ≡ none

abbrev pub Frozen : ModeState → Option Pending → Type 0
Frozen s none = Unit {0}
Frozen s (some p) =
    Issued s p.event
    × (p.result.state.session_id ≡ s.session_id)
    × (p.result.state.runtime_instance_id ≡ s.runtime_instance_id)
    × (valid p.result.state.active_mode ≡ true)

pub record Issues (c : Coordinator) : Type 0 where
  pub valid_mode : valid c.state.active_mode ≡ true
  pub acknowledged : All (Issued c.state) c.accepted
  pub frozen : Frozen c.state c.pending

Issued-moved :
    (s t : ModeState) (es : List ModeChanged)
    → t.session_id ≡ s.session_id
    → t.runtime_instance_id ≡ s.runtime_instance_id
    → All (Issued s) es
    → All (Issued t) es
Issued-moved s t [] i j h = tt
Issued-moved s t (e ∷ es) i j h = (
  record {
    session = h.0.session ∙ sym i;
    instance_id = h.0.instance_id ∙ sym j;
    complete = h.0.complete;
  },
  Issued-moved s t es i j h.1,
)

remember-Issues :
    (q : SwitchCommand) (r : SwitchResult) (c : Coordinator) → Issues c → Issues (remember q r c)
remember-Issues q r c h = record {
  valid_mode = rw ((remember_keeps q r c).0) h.valid_mode;
  acknowledged = rw ((remember_keeps q r c).0, (remember_keeps q r c).2) h.acknowledged;
  frozen = rw ((remember_keeps q r c).0, (remember_keeps q r c).1) h.frozen;
}

commit-Issues :
    (env : Env) (p : Pending) (c : Coordinator)
    → Issues c
    → c.pending ≡ some p
    → Issues (commit_pending env p c).0
unfolding commit_pending
commit-Issues env p c h i = elim (Option-cases (env.publish p.event)) [
  | inr (why, e) ↦ rw (e, commit_pending) h
  | inl e ↦
      let f : Frozen c.state (some p) = rw i at h.frozen in
      rw (e, commit_pending)
        (record {
          valid_mode = rw ((remember_keeps p.command p.result _).0) f.3;
          acknowledged = rw ((remember_keeps p.command p.result _).0) (
              Issued-moved c.state p.result.state (c.accepted ++ p.event ∷ []) f.1 f.2
                (All-append _ c.accepted (p.event ∷ []) h.acknowledged (f.0, tt)));
          frozen = tt;
        })
]

prefix_present : str_eq "mode_changed_" "" ≡ false
unfolding str_eq
prefix_present = refl

commit-session_id :
    (env : Env) (p : Pending) (c : Coordinator)
    → Issues c
    → c.pending ≡ some p
    → (commit_pending env p c).0.state.session_id ≡ c.state.session_id
unfolding commit_pending
commit-session_id env p c h i =
    let f : Frozen c.state (some p) = rw i at h.frozen in
    elim (Option-cases (env.publish p.event)) [
      | inr (why, e) ↦ rw (e, commit_pending) refl
      | inl e ↦
          rw
            (
              e,
              commit_pending,
              (remember_keeps p.command p.result (record c { state = p.result.state })).0,
            )
            f.1
    ]

module _ (sha256_hex : String → String) where
  event_id_present : (q : SwitchCommand) → str_eq (event_id_of sha256_hex q) "" ≡ false
  unfolding event_id_of
  event_id_present q = elim (Bool-cases (str_eq (event_id_of sha256_hex q) "")) [
    | inl e ↦
        let nil = append-eq-nil_iff.0 ((str_eq_iff (event_id_of sha256_hex q) "").0 e) in
        cc (prefix_present, (str_eq_iff "mode_changed_" "").1 nil.0)
    | inr e ↦ e
  ]

  freeze-Issues :
      (now : Time) (q : SwitchCommand) (c : Coordinator)
      → now ≢ 0
      → command_ok q ≡ true
      → q.session_id ≡ c.state.session_id
      → q.runtime_instance_id ≡ c.state.runtime_instance_id
      → mode_eq q.target_mode c.state.active_mode ≡ false
      → Issues c
      → Issues (record c { pending = some (prepare sha256_hex now q c) })
  unfolding prepare command_ok validate
  freeze-Issues now q c t o i j d h = record {
    valid_mode = h.valid_mode;
    acknowledged = h.acknowledged;
    frozen = (
      record { session = i; instance_id = j; complete = ground (arith, event_id_present q) },
      refl,
      refl,
      ground arith,
    );
  }

  stay-Issues :
      (now : Time) (q : SwitchCommand) (c : Coordinator)
      → c.pending ≡ none
      → Issues c
      → Issues (stay now q c).0
  unfolding stay
  stay-Issues now q c i h = remember-Issues q _ _ (record {
    valid_mode = h.valid_mode;
    acknowledged = Issued-moved c.state _ c.accepted refl refl h.acknowledged;
    frozen = rw i tt;
  })

  pub switch-Issues :
      (env : Env) (q : SwitchCommand) (c : Coordinator)
      → env.now ≢ 0
      → Issues c
      → Issues (switch sha256_hex env q c).0
  switch-Issues env q c t h =
      switch_rule sha256_hex env q Asked (λ a. Issues a.0) (λ e c h. h.0) (λ previous c h u e. h.0)
        (λ p c h i d.
          (commit-Issues env p c h.0 i, h.1, h.2 ∙ sym (commit-session_id env p c h.0 i)))
        (λ p c h i e. commit-Issues env p c h.0 i)
        (λ c h u i e f g k. (freeze-Issues env.now q c t h.1 h.2 e k h.0, h.1, h.2))
        (λ c h u i e f g k. stay-Issues env.now q c i h.0) c (λ e. h) (λ o k. (h, o, k))
    where
      Asked : Coordinator → Type 0
      Asked d = Issues d × (command_ok q ≡ true) × (q.session_id ≡ d.state.session_id)

  pub run-Issues :
      (calls : List (Env × SwitchCommand)) (c : Coordinator)
      → All (λ call. call.0.now ≢ 0) calls
      → Issues c
      → Issues (run sha256_hex calls c)
  unfolding run
  run-Issues [] c t h = h
  run-Issues ((env, q) ∷ rest) c t h =
      run-Issues rest (switch sha256_hex env q c).0 t.1 (switch-Issues env q c t.0 h)

pub new-Issues :
    (session_id instance_id : String) (m : Mode) (modes : List Mode) (wired : Bool) (now : Time)
    (c : Coordinator)
    → new session_id instance_id m modes wired now ≡ ok c
    → Issues c
unfolding new
new-Issues session_id instance_id m modes wired now c h = ground arith
