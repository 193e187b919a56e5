-- ===== src/Coordinator/Remembered.antt =====
-- What services/realtime-audio/runtime/mode.go still remembers after further calls of `Switch`.
use xe6_tsy.Common.{
  ℕ, ◌+◌, ◌<◌, ◌≡◌, refl, ap, ◌∙◌, ◌⊎◌, true, false, none, some, String, List, [], ◌∷◌, arith,
  length, str_eq, str_eq_iff, inl, inr,
}
use xe6_tsy.Contract.Mode.{SwitchCommand, mode_eq}
use xe6_tsy.Coordinator.{
  Coordinator, OperationRecord, Pending, Env, commit_pending, prepare, stay, switch, run,
}
use xe6_tsy.Coordinator.Induction.{switch_rule}
use xe6_tsy.Coordinator.Window.{IsWindow-same}
use xe6_tsy.Coordinator.Retention.{Retains, Retains-weaken, commit-Retains, stay-Retains}

module _ (sha256_hex : String → String) where
  -- On the way through a call: as before it, or its own transition was frozen.
  abbrev Going : String → OperationRecord → ℕ → SwitchCommand → Coordinator → Type 0
  Going op e n q c =
      Retains op e n c
      ⊎ (Retains op e (n + 1) c × ((p : Pending) × (c.pending ≡ some p) × (p.command ≡ q)))

  gone :
      (op : String) (e : OperationRecord) (n : ℕ) (q : SwitchCommand) (c : Coordinator)
      → Going op e n q c
      → Retains op e (n + 1) c
  gone op e n q c (inl h) = Retains-weaken op e n (n + 1) c (omega arith) h
  gone op e n q c (inr h) = h.0

  -- One call makes at most one operation newer.
  switch-Retains :
      (op : String) (e : OperationRecord) (n : ℕ) (env : Env) (q : SwitchCommand) (c : Coordinator)
      → n < 255
      → Retains op e n c
      → Retains op e (n + 1) (switch sha256_hex env q c).0
  unfolding prepare
  switch-Retains op e n env q c l h =
      switch_rule sha256_hex env q (Going op e n q) (λ a. Retains op e (n + 1) a.0)
        (λ x c g. gone op e n q c g) (λ previous c g u x. gone op e n q c g) other
        (λ p c g i x. commit-Retains op e (n + 1) env p c (omega (arith, l)) (gone op e n q c g) i)
        freeze remain c (λ x. gone op e n q c (inl h)) (λ f k. inl h)
    where
      other :
          (p : Pending) (c : Coordinator)
          → Going op e n q c
          → c.pending ≡ some p
          → str_eq p.command.operation_id q.operation_id ≡ false
          → Going op e n q (commit_pending env p c).0
      other p c (inl g) i d = inl (commit-Retains op e n env p c (omega (arith, l)) g i)
      other p c (inr (g, (r, j, own))) i d =
          let same : p ≡ r = cc (i, j) in
          let id : p.command.operation_id ≡ q.operation_id =
            ap (λ x. x.command.operation_id) same ∙ ap (λ x. x.operation_id) own in
          let yes = (str_eq_iff p.command.operation_id q.operation_id).1 id in cc (yes, d)

      freeze :
          (c : Coordinator)
          → Going op e n q c
          → c.operations q.operation_id ≡ none
          → c.pending ≡ none
          → q.runtime_instance_id ≡ c.state.runtime_instance_id
          → q.expected_generation ≡ c.state.generation
          → c.available q.target_mode ≡ true
          → mode_eq q.target_mode c.state.active_mode ≡ false
          → Going op e n q (record c { pending = some (prepare sha256_hex env.now q c) })
      freeze c (inr (g, (r, j, own))) u i x f a k = cc (i, j)
      freeze c (inl g) u i x f a k = inr (
        record {
          window = IsWindow-same c _ refl refl refl (u, refl) g.window;
          older = g.older;
          newer = g.newer;
          place = g.place;
          room = omega (arith, g.room);
          entry = g.entry;
        },
        (prepare sha256_hex env.now q c, refl, refl),
      )

      remain :
          (c : Coordinator)
          → Going op e n q c
          → c.operations q.operation_id ≡ none
          → c.pending ≡ none
          → q.runtime_instance_id ≡ c.state.runtime_instance_id
          → q.expected_generation ≡ c.state.generation
          → c.available q.target_mode ≡ true
          → mode_eq q.target_mode c.state.active_mode ≡ true
          → Retains op e (n + 1) (stay env.now q c).0
      remain c (inr (g, (r, j, own))) u i x f a k = cc (i, j)
      remain c (inl g) u i x f a k = stay-Retains op e n env q c l g u i

  pub run-Retains :
      (op : String) (e : OperationRecord) (n : ℕ) (calls : List (Env × SwitchCommand))
      (c : Coordinator)
      → n + length calls < 256
      → Retains op e n c
      → Retains op e (n + length calls) (run sha256_hex calls c)
  unfolding run
  run-Retains op e n [] c l h = Retains-weaken op e n _ c (omega arith) h
  run-Retains op e n ((env, q) ∷ calls) c l h = Retains-weaken op e _ _ _ (omega arith) (
      run-Retains op e (n + 1) calls (switch sha256_hex env q c).0 (omega (arith, l))
        (switch-Retains op e n env q c (omega (arith, l)) h))
