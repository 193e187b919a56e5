-- ===== src/Coordinator/Fence.antt =====
-- Mode switches and Turns of services/realtime-audio/runtime/mode.go together: a Turn that opened
-- before a switch is never published after it.
use xe6_tsy.Common.{
  ℕ, ◌+◌, ◌<◌, ◌≤◌, ◌≡◌, ◌≢◌, true, none, String, List, [], ◌∷◌, ◌++◌, arith, length, length-append,
  word_mod, str_eq_iff,
}
use xe6_tsy.Contract.Mode.{Mode, ModeState, ModeChanged, SwitchCommand}
use xe6_tsy.Contract.Equality.{mode_eq_iff}
use xe6_tsy.Turn.{Turn, OpenEnv, OpenRequest, Sequences, open_turn, opened, found}
use xe6_tsy.Turn.Numbers.{open_turn-IsOpened}
use xe6_tsy.Coordinator.{Coordinator, Pending, Env, ok, commit_pending, stay, switch, run}
use xe6_tsy.Coordinator.Induction.{switch_rule}
use xe6_tsy.Coordinator.History.{Follows, Consistent, run-Consistent, remember_keeps}
use xe6_tsy.Coordinator.Commit.{
  CommitEnv, turn_ok, is_current, turn_mode, commit_turn, commit_locked, commit_turn-published,
}

generation-Follows :
    (m : Mode) (g : ℕ) (es : List ModeChanged) (s : ModeState)
    → g + length es < word_mod
    → Follows m g es s
    → s.generation ≡ g + length es
generation-Follows m g [] s small h = omega (arith, h.1)
generation-Follows m g (e ∷ es) s small h =
    let next : e.resulting_generation ≡ g + 1 = omega (arith, h.2) in
    omega (
      arith,
      next,
      generation-Follows e.to_mode e.resulting_generation es s (omega (arith, next)) h.3,
    )

-- While fewer than 2 ^ 64 - 1 switches were acknowledged, the generation counts them from 1 on.
pub generation-accepted :
    (m : Mode) (c : Coordinator)
    → Consistent m c
    → length c.accepted + 1 < word_mod
    → c.state.generation ≡ length c.accepted + 1
generation-accepted m c h small =
    omega (arith, generation-Follows m 1 c.accepted c.state (omega arith) h.story)

accepted-commit_pending :
    (n : ℕ) (env : Env) (p : Pending) (c : Coordinator)
    → n ≤ length c.accepted
    → n ≤ length (commit_pending env p c).0.accepted
unfolding commit_pending
accepted-commit_pending n env p c h = ground (arith, length-append c.accepted (p.event ∷ []))

accepted-stay :
    (n : ℕ) (env : Env) (q : SwitchCommand) (c : Coordinator)
    → n ≤ length c.accepted
    → n ≤ length (stay env.now q c).0.accepted
unfolding stay
accepted-stay n env q c h = rw ((remember_keeps q _ (record c { state = _ })).2) h

module _ (sha256_hex : String → String) where
  accepted-switch :
      (env : Env) (q : SwitchCommand) (c : Coordinator)
      → length c.accepted ≤ length (switch sha256_hex env q c).0.accepted
  accepted-switch env q c =
      switch_rule sha256_hex env q (λ d. length c.accepted ≤ length d.accepted)
        (λ a. length c.accepted ≤ length a.0.accepted) (λ e d h. h) (λ previous d h u e. h)
        (λ p d h i o. accepted-commit_pending _ env p d h)
        (λ p d h i e. accepted-commit_pending _ env p d h) (λ d h u i e f g k. h)
        (λ d h u i e f g k. accepted-stay _ env q d h) c (λ e. omega arith) (λ f k. omega arith)

  accepted-run :
      (calls : List (Env × SwitchCommand)) (c : Coordinator)
      → length c.accepted ≤ length (run sha256_hex calls c).accepted
  unfolding run
  accepted-run [] c = omega arith
  accepted-run ((env, q) ∷ rest) c =
      omega (arith, accepted-switch env q c, accepted-run rest (switch sha256_hex env q c).0)

  -- A Turn that captured the mode of a coordinator is not published once another switch has been
  -- acknowledged, whatever calls lie in between, and nothing else is published in its place (while
  -- fewer than 2 ^ 64 - 1 switches were acknowledged).
  pub stale_turn_refused :
      (m : Mode) (c : Coordinator) (calls : List (Env × SwitchCommand)) (env : CommitEnv) (t : Turn)
      (facts : List Turn)
      → Consistent m c
      → t.mode ≡ turn_mode c
      → length c.accepted ≢ length (run sha256_hex calls c).accepted
      → length (run sha256_hex calls c).accepted + 1 < word_mod
      → ((commit_turn env t (run sha256_hex calls c) facts).0 ≡ facts)
        × ((commit_turn env t (run sha256_hex calls c) facts).1 ≢ ok true)
  unfolding turn_mode
  stale_turn_refused m c calls env t facts h captured moved small = ground (
    arith,
    accepted-run calls c,
    commit_turn-published env t (run sha256_hex calls c) facts,
    generation-accepted m c h (omega (arith, accepted-run calls c)),
    generation-accepted m (run sha256_hex calls c) (run-Consistent sha256_hex m calls c h) small,
  )

-- A Turn that opens on the mode of its session's coordinator passes the fence of that coordinator
-- while no switch comes in between: with a live context and a callback that publishes, it is
-- published.
pub opened_turn_published :
    (trim_space : String → String) (turn_id : String → ℕ → String) (env : OpenEnv)
    (request : OpenRequest) (before after : Sequences) (t : Turn) (c : Coordinator)
    (later : CommitEnv) (facts : List Turn)
    → open_turn trim_space turn_id env request before ≡ (after, opened t)
    → env.mode ≡ found (turn_mode c)
    → later.ctx_before ≡ none
    → later.ctx_locked ≡ none
    → later.callback ≡ none
    → commit_turn later t c facts ≡ (facts ++ t ∷ [], ok true)
unfolding commit_turn commit_locked turn_ok is_current turn_mode
opened_turn_published trim_space turn_id env request before after t c later facts h read a b p =
    let o = open_turn-IsOpened trim_space turn_id env request before after t h in
    let same : t.mode ≡ turn_mode c = ground (arith, o.mode_read) in
    ground (
      arith,
      o.session,
      o.session_given,
      o.mode_session,
      o.mode_instance,
      o.mode_valid,
      o.mode_generation,
      str_eq_iff t.mode.session_id t.session_id,
      str_eq_iff t.session_id c.state.session_id,
      str_eq_iff t.mode.runtime_instance_id c.state.runtime_instance_id,
      mode_eq_iff t.mode.mode c.state.active_mode,
    )
