-- ===== src/Coordinator/Retry.antt =====
-- Retrying a mode command after other calls: services/realtime-audio/runtime/mode.go.
use xe6_tsy.Common.{
  ◌<◌, ◌≡◌, refl, ap, subst, ◌∙◌, false, none, some, String, List, [], ◌∷◌, ◌++◌, arith, length,
  str_eq, str_eq_iff, Option-cases, inl, inr,
}
use xe6_tsy.Contract.Mode.{Mode, SwitchCommand, SwitchResult}
use xe6_tsy.Contract.Equality.{command_eq_refl}
use xe6_tsy.Coordinator.{
  Coordinator, Pending, Env, Result, ok, err, commit_pending, prepare, stay, replay, switch, run,
}
use xe6_tsy.Coordinator.Induction.{switch_rule, remember_unknown}
use xe6_tsy.Coordinator.History.{
  Consistent, remember_keeps, commit-Consistent, freeze-Consistent, switch-Consistent,
}
use xe6_tsy.Coordinator.Window.{
  recent, IsWindow, recent-remember, IsWindow-same, IsWindow-commit_pending, switch-IsWindow,
}
use xe6_tsy.Coordinator.Replay.{Kept, session-commit_pending, switch-Kept}
use xe6_tsy.Coordinator.Retention.{Retains, frozen, enqueue-last}
use xe6_tsy.Coordinator.Remembered.{run-Retains}

commit_unknown :
    (env : Env) (p : Pending) (c : Coordinator) (k : String)
    → str_eq p.command.operation_id k ≡ false
    → c.operations k ≡ none
    → (commit_pending env p c).0.operations k ≡ none
unfolding commit_pending
commit_unknown env p c k d h = elim (Option-cases (env.publish p.event)) [
  | inr (why, f) ↦ rw (f, commit_pending) h
  | inl f ↦
      rw (f, commit_pending)
        (remember_unknown k p.command p.result (record c { state = p.result.state }) d h)
]

module _ (sha256_hex : String → String) where
  -- The answered operation is the newest, and no transition is frozen.
  abbrev Newest : SwitchCommand → Coordinator × Result SwitchResult → Type 0
  Newest q (d, err x) = Unit {0}
  Newest q (d, ok r) =
      (kept : List String) × (recent d ≡ kept ++ q.operation_id ∷ []) × (d.pending ≡ none)

  abbrev New : SwitchCommand → Coordinator → Type 0
  New q c = IsWindow c × (c.operations q.operation_id ≡ none)

  commit-Newest :
      (env : Env) (q : SwitchCommand) (p : Pending) (c : Coordinator)
      → IsWindow c
      → c.pending ≡ some p
      → p.command ≡ q
      → Newest q (commit_pending env p c)
  unfolding commit_pending
  commit-Newest env q p c w i own = elim (Option-cases (env.publish p.event)) [
    | inr (why, f) ↦ rw (f, commit_pending) tt
    | inl f ↦
        let before = record c { state = p.result.state } in
        let (kept, queued) = enqueue-last p.command.operation_id (recent before) in
        let next =
          recent-remember p.command p.result before
            (IsWindow-same c before refl refl refl w.fresh w)
          ∙ queued in
        rw (f, commit_pending) (kept, next ∙ ap (λ x. kept ++ x.operation_id ∷ []) own, refl)
  ]

  stay-Newest :
      (env : Env) (q : SwitchCommand) (c : Coordinator)
      → IsWindow c
      → c.pending ≡ none
      → Newest q (stay env.now q c)
  unfolding stay
  stay-Newest env q c w i =
      let (kept, queued) = enqueue-last q.operation_id (recent c) in
      (
        kept,
        recent-remember q _ (record c { state = _ }) (IsWindow-same c _ refl refl refl w.fresh w)
            ∙ queued,
        (remember_keeps q _ _).1 ∙ i,
      )

  switch-Newest :
      (env : Env) (q : SwitchCommand) (c : Coordinator)
      → New q c
      → Newest q (switch sha256_hex env q c)
  unfolding prepare
  switch-Newest env q c h =
      switch_rule sha256_hex env q (New q) (Newest q) (λ x c g. tt)
        (λ previous c g u x. cc (g.1, u)) other (λ p c g i x. commit-Newest env q p c g.0 i x)
        (λ c g u i x f a k. (IsWindow-same c _ refl refl refl (u, refl) g.0, u))
        (λ c g u i x f a k. stay-Newest env q c g.0 i) c (λ x. tt) (λ f k. h)
    where
      other :
          (p : Pending) (c : Coordinator)
          → New q c
          → c.pending ≡ some p
          → str_eq p.command.operation_id q.operation_id ≡ false
          → New q (commit_pending env p c).0
      other p c g i d =
          (IsWindow-commit_pending env p c g.0 i, commit_unknown env p c q.operation_id d g.1)

  switch-Retains_new :
      (m : Mode) (env : Env) (q : SwitchCommand) (c d : Coordinator) (r : SwitchResult)
      → Consistent m c
      → New q c
      → switch sha256_hex env q c ≡ (d, ok r)
      → Retains q.operation_id (record { command = q; result = r }) 0 d
  switch-Retains_new m env q c d r h w e =
      let kept : Kept q (d, ok r) = subst (Kept q) e (switch-Kept sha256_hex m env q c h) in
      let (older, place, idle) = subst (Newest q) e (switch-Newest env q c w) in
      let window = switch-IsWindow sha256_hex env q c w.0 in
      let none_held : frozen d.pending ≡ 0 = ap frozen idle in
      record {
        window = subst (λ a. IsWindow a.0) e window;
        older = older;
        newer = [];
        place = place;
        room = omega (arith, none_held);
        entry = kept.0;
      }

  switch-session :
      (m : Mode) (env : Env) (q : SwitchCommand) (c : Coordinator)
      → Consistent m c
      → (switch sha256_hex env q c).0.state.session_id ≡ c.state.session_id
  switch-session m env q c h =
      switch_rule sha256_hex env q (λ d. Consistent m d × (d.state.session_id ≡ c.state.session_id))
        (λ a. a.0.state.session_id ≡ c.state.session_id) (λ x d g. g.1) (λ previous d g u x. g.1)
        (λ p d g i o.
          (commit-Consistent m env p d g.0 i, session-commit_pending m env p d g.0 i ∙ g.1))
        (λ p d g i x. session-commit_pending m env p d g.0 i ∙ g.1)
        (λ d g u i x f a k. (freeze-Consistent sha256_hex m env.now q d g.0 k, g.1))
        (λ d g u i x f a k. unfold stay in ap (λ s. s.session_id) (remember_keeps q _ _).0 ∙ g.1) c
        (λ x. refl) (λ f k. (h, refl))

  run-session :
      (m : Mode) (calls : List (Env × SwitchCommand)) (c : Coordinator)
      → Consistent m c
      → (run sha256_hex calls c).state.session_id ≡ c.state.session_id
  unfolding run
  run-session m [] c h = refl
  run-session m ((env, q) ∷ calls) c h =
      run-session m calls (switch sha256_hex env q c).0 (switch-Consistent sha256_hex m env q c h)
      ∙ switch-session m env q c h

  -- A command that was answered for the first time gets the same answer when it is sent again, and changes
  -- nothing, whatever fewer than 256 calls lie in between and whatever the clock and the sink do by then,
  -- if the context of the retry is alive. The coordinator is consistent and its replay window in order, as
  -- those of a new one are after any calls.
  pub switch_retry :
      (m : Mode) (env later : Env) (q : SwitchCommand) (c d : Coordinator) (r : SwitchResult)
      (calls : List (Env × SwitchCommand))
      → Consistent m c
      → IsWindow c
      → c.operations q.operation_id ≡ none
      → switch sha256_hex env q c ≡ (d, ok r)
      → length calls < 256
      → later.ctx_before ≡ none
      → later.ctx_locked ≡ none
      → switch sha256_hex later q (run sha256_hex calls d) ≡ (run sha256_hex calls d, ok r)
  unfolding switch replay
  switch_retry m env later q c d r calls h w new e few before locked =
      let kept : Kept q (d, ok r) = subst (Kept q) e (switch-Kept sha256_hex m env q c h) in
      let held =
        run-Retains sha256_hex q.operation_id _ 0 calls d (omega (arith, few))
          (switch-Retains_new m env q c d r h (w, new) e) in
      let still = subst (λ a. Consistent m a.0) e (switch-Consistent sha256_hex m env q c h) in
      let home : (run sha256_hex calls d).state.session_id ≡ q.session_id =
        run-session m calls d still ∙ kept.1 in
      ground (
        arith,
        kept.2,
        held.entry,
        home,
        str_eq_iff q.session_id (run sha256_hex calls d).state.session_id,
        command_eq_refl q,
      )
