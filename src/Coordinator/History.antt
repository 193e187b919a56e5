-- ===== src/Coordinator/History.antt =====
-- The events that the sink has acknowledged tell the whole story of a coordinator's mode.
use xe6_tsy.Common.{
  ℕ, ◌≡◌, ◌≢◌, refl, sym, ap, ◌∙◌, Bool, false, Option, none, some, String, List, [], ◌∷◌, ◌++◌,
  arith, incr, Option-cases, inl, inr,
}
use xe6_tsy.Contract.Mode.{Time, Mode, ModeState, SwitchCommand, SwitchResult, ModeChanged, mode_eq}
use xe6_tsy.Contract.Equality.{mode_eq_iff}
use xe6_tsy.Coordinator.Induction.{switch_rule}
use xe6_tsy.Coordinator.{
  new, Coordinator, Pending, Env, ok, remember, commit_pending, prepare, stay, switch, run,
}

-- Starting in mode `m` at generation `g`, the events lead to the state `s`: each leaves the mode that
-- the one before it entered, enters another, and carries the next generation.
abbrev pub Follows : Mode → ℕ → List ModeChanged → ModeState → Type 0
Follows m g [] s = (s.active_mode ≡ m) × (s.generation ≡ g)
Follows m g (e ∷ es) s =
    (e.from_mode ≡ m)
    × (e.to_mode ≢ m)
    × (e.resulting_generation ≡ incr g)
    × Follows e.to_mode e.resulting_generation es s

-- The frozen event is the next one of the story, and its result is the state that it leads to.
pub record Stages (s : ModeState) (p : Pending) : Type 0 where
  pub leaves : p.event.from_mode ≡ s.active_mode
  pub differs : p.event.to_mode ≢ s.active_mode
  pub counts : p.event.resulting_generation ≡ incr s.generation
  pub enters : p.result.state.active_mode ≡ p.event.to_mode
  pub numbers : p.result.state.generation ≡ p.event.resulting_generation
  pub session : p.result.state.session_id ≡ s.session_id
  pub instance_id : p.result.state.runtime_instance_id ≡ s.runtime_instance_id

abbrev pub Staged : ModeState → Option Pending → Type 0
Staged s none = Unit {0}
Staged s (some p) = Stages s p

pub record Consistent (m : Mode) (c : Coordinator) : Type 0 where
  pub story : Follows m 1 c.accepted c.state
  pub staged : Staged c.state c.pending

Follows-snoc :
    (m : Mode) (g : ℕ) (es : List ModeChanged) (s : ModeState) (p : Pending)
    → Follows m g es s
    → Stages s p
    → Follows m g (es ++ p.event ∷ []) p.result.state
Follows-snoc m g [] s p h k =
    (k.leaves ∙ h.0, λ e. k.differs (e ∙ sym h.0), k.counts ∙ ap incr h.1, (k.enters, k.numbers))
Follows-snoc m g (e ∷ es) s p h k =
    (h.0, h.1, h.2, Follows-snoc e.to_mode e.resulting_generation es s p h.3 k)

-- Only the replay window changes.
pub remember_keeps :
    (q : SwitchCommand) (r : SwitchResult) (c : Coordinator)
    → ((remember q r c).state ≡ c.state)
      × ((remember q r c).pending ≡ c.pending)
      × ((remember q r c).accepted ≡ c.accepted)
unfolding remember
remember_keeps q r c = ground arith

Follows-same :
    (m : Mode) (g : ℕ) (es : List ModeChanged) (s t : ModeState)
    → t.active_mode ≡ s.active_mode
    → t.generation ≡ s.generation
    → Follows m g es s
    → Follows m g es t
Follows-same m g [] s t a n h = (a ∙ h.0, n ∙ h.1)
Follows-same m g (e ∷ es) s t a n h =
    (h.0, h.1, h.2, Follows-same e.to_mode e.resulting_generation es s t a n h.3)

remember-Consistent :
    (m : Mode) (q : SwitchCommand) (r : SwitchResult) (c : Coordinator)
    → Consistent m c
    → Consistent m (remember q r c)
remember-Consistent m q r c h = record {
  story = rw ((remember_keeps q r c).0, (remember_keeps q r c).2) h.story;
  staged = rw ((remember_keeps q r c).0, (remember_keeps q r c).1) h.staged;
}

pub commit-Consistent :
    (m : Mode) (env : Env) (p : Pending) (c : Coordinator)
    → Consistent m c
    → c.pending ≡ some p
    → Consistent m (commit_pending env p c).0
unfolding commit_pending
commit-Consistent m env p c h i = elim (Option-cases (env.publish p.event)) [
  | inr (why, e) ↦ rw (e, commit_pending) h
  | inl e ↦
      rw (e, commit_pending)
        (record {
          story =
              rw ((remember_keeps p.command p.result _).0)
                (Follows-snoc m 1 c.accepted c.state p h.story (rw i at h.staged));
          staged = tt;
        })
]

module _ (sha256_hex : String → String) (m : Mode) where
  pub freeze-Consistent :
      (now : Time) (q : SwitchCommand) (c : Coordinator)
      → Consistent m c
      → mode_eq q.target_mode c.state.active_mode ≡ false
      → Consistent m (record c { pending = some (prepare sha256_hex now q c) })
  unfolding prepare
  freeze-Consistent now q c h d = record {
    story = h.story;
    staged = record {
      leaves = refl;
      differs = λ e. cc (d, (mode_eq_iff q.target_mode c.state.active_mode).1 e);
      counts = refl;
      enters = refl;
      numbers = refl;
      session = refl;
      instance_id = refl;
    };
  }

  pub stay-Consistent :
      (now : Time) (q : SwitchCommand) (c : Coordinator)
      → Consistent m c
      → c.pending ≡ none
      → Consistent m (stay now q c).0
  unfolding stay
  stay-Consistent now q c h i =
      remember-Consistent m q _ _ (record {
        story = Follows-same m 1 c.accepted c.state _ refl refl h.story;
        staged = rw i tt;
      })

  -- Every call of `Switch`, whatever it answers, keeps the acknowledged events and the frozen
  -- transition in line with the coordinator's state: the events lead from mode `m` at generation 1
  -- to the current mode and generation, and the frozen event is the next one.
  pub switch-Consistent :
      (env : Env) (q : SwitchCommand) (c : Coordinator)
      → Consistent m c
      → Consistent m (switch sha256_hex env q c).0
  switch-Consistent env q c h =
      switch_rule sha256_hex env q (Consistent m) (λ a. Consistent m a.0) (λ e c h. h)
        (λ previous c h u e. h) (λ p c h i d. commit-Consistent m env p c h i)
        (λ p c h i e. commit-Consistent m env p c h i)
        (λ c h u i e f g k. freeze-Consistent env.now q c h k)
        (λ c h u i e f g k. stay-Consistent env.now q c h i) c (λ e. h) (λ f k. h)

  pub run-Consistent :
      (calls : List (Env × SwitchCommand)) (c : Coordinator)
      → Consistent m c
      → Consistent m (run sha256_hex calls c)
  unfolding run
  run-Consistent [] c h = h
  run-Consistent ((env, q) ∷ rest) c h =
      run-Consistent rest (switch sha256_hex env q c).0 (switch-Consistent env q c h)

pub new-Consistent :
    (session_id instance_id : String) (m : Mode) (modes : List Mode) (wired : Bool) (now : Time)
    (c : Coordinator)
    → new session_id instance_id m modes wired now ≡ ok c
    → Consistent m c
unfolding new
new-Consistent session_id instance_id m modes wired now c h = ground arith

-- A coordinator that `newModeCoordinator` built tells its whole story: after any calls, the events
-- that the sink acknowledged lead, one generation at a time and never to the mode being left, from
-- the initial mode at generation 1 to the mode and generation that the coordinator reports.
pub accepted-Follows :
    (sha256_hex : String → String) (session_id instance_id : String) (m : Mode) (modes : List Mode)
    (wired : Bool) (now : Time) (c : Coordinator)
    → new session_id instance_id m modes wired now ≡ ok c
    → (calls : List (Env × SwitchCommand))
    → let d = run sha256_hex calls c in Follows m 1 d.accepted d.state
accepted-Follows sha256_hex session_id instance_id m modes wired now c h calls =
    (run-Consistent sha256_hex m calls c
      (new-Consistent session_id instance_id m modes wired now c h)).story
