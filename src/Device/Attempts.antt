-- ===== src/Device/Attempts.antt =====
-- sdks/device/reconnect.go: the loop of `Run` ends when the policy gives up.
use xe6_tsy.Common.{
  ℕ, zero, suc, ◌+◌, ◌≤◌, ◌<◌, Bool, true, false, ◌≡◌, refl, ◌∙◌, subst, ◌⊎◌, inl, inr, Option,
  none, some, String, List, [], ◌∷◌, incr, word_mod, arith, Bool-cases, Option-cases,
}
use xe6_tsy.Device.{ConnectionState, connecting, connected}
use xe6_tsy.Device.Reconnect.{
  Error, exhausted, stopped, Reconnector, Context, Effect, tried, shown, is_connected, show,
  attempts, or_else, run_reconnector,
}

abbrev pub tries : List Effect → ℕ
tries [] = 0
tries (tried a ∷ log) = suc (tries log)
tries (shown s ∷ log) = tries log

tries-show :
    (r : Reconnector) (s : ConnectionState) (log : List Effect) → tries (show r s log) ≡ tries log
unfolding show
tries-show r s log = elim (Bool-cases r.on_state) [ inl e ↦ rw e refl | inr e ↦ rw e refl ]

-- How the loop ends from an attempt on, with so many attempts before the one that is refused.
record Ended (connect : ℕ → Bool) (a k : ℕ) (log : List Effect) (x : Option Error × List Effect)
    : Type 0 where
  bounded : tries x.1 ≤ tries log + k
  result : ((e : Error) × (x.0 ≡ some e)) ⊎ ((m : ℕ) × (a ≤ m) × (m < a + k) × (connect m ≡ true))

module _ (r : Reconnector) (policy : ℕ → ConnectionState → Option ℕ) (connect : ℕ → Bool)
    (sleep : ℕ → ℕ → Option String) (ctx : Context) (state : ConnectionState) (n : ℕ)
    (last : policy n state ≡ none) (small : n < word_mod) where
  abbrev Ends : ℕ → ℕ → List Effect → Type 0
  Ends k a log =
      (x : Option Error × List Effect) × (attempts r policy connect sleep ctx state (suc k) a log
        ≡ some x)
      × Ended connect a k log x

  -- An end with an error.
  stops :
      (k a : ℕ) (log : List Effect) (e : Error) (left : List Effect)
      → attempts r policy connect sleep ctx state (suc k) a log ≡ some (some e, left)
      → tries left ≤ tries log + k
      → Ends k a log
  stops k a log e left h b = ((some e, left), h, record { bounded = b; result = inl (e, refl) })

  -- What is done as an attempt is made.
  abbrev made : ℕ → List Effect → List Effect
  made a log = tried a ∷ show r connecting log

  made-tries : (a : ℕ) (log : List Effect) → tries (made a log) ≡ tries log + 1
  made-tries a log = omega (arith, tries-show r connecting log)

  -- A refused attempt before others.
  goes_on :
      (k a : ℕ) (log : List Effect)
      → attempts r policy connect sleep ctx state (suc (suc k)) a log
        ≡ attempts r policy connect sleep ctx state (suc k) (incr a) (made a log)
      → a + suc k ≡ n
      → Ends k (incr a) (made a log)
      → Ends (suc k) a log
  goes_on k a log same h (x, ran, ended) =
      let next : incr a ≡ a + 1 = omega (arith, h, small) in
      (
        x,
        same ∙ ran,
        record {
          bounded = omega (arith, ended.bounded, made-tries a log);
          result = elim ended.result [
            | inl e ↦ inl e
            | inr (m, low, high, c) ↦
                inr (m, omega (arith, low, next), omega (arith, high, next), c)
          ];
        },
      )

  loop_ends : (k a : ℕ) (log : List Effect) → a + k ≡ n → Ends k a log
  unfolding attempts
  loop_ends zero a log h =
      let same : policy a state ≡ none =
        subst (λ m. policy m state ≡ none) (omega (arith, h)) last in
      stops zero a log exhausted log (rw (same, attempts) refl) (omega arith)
  loop_ends (suc k) a log h = elim (Option-cases (policy a state)) [
    | inl p ↦ stops (suc k) a log exhausted log (rw (p, attempts) refl) (omega arith)
    | inr (delay, p) ↦ elim (Option-cases (sleep a delay)) [
      | inr (e, s) ↦ stops (suc k) a log (stopped e) log (rw (p, s, attempts) refl) (omega arith)
      | inl s ↦ elim (Bool-cases (connect a)) [
        | inl c ↦ (
          (none, show r connected (made a log)),
          rw (p, s, c, attempts) refl,
          record {
            bounded = omega (arith, tries-show r connected (made a log), made-tries a log);
            result = inr (a, omega arith, omega arith, c);
          },
        )
        | inr c ↦ elim (Option-cases (ctx.after a)) [
          | inr (e, t) ↦
              stops (suc k) a log (stopped e) (made a log) (rw (p, s, c, t, attempts) refl)
                (omega (arith, made-tries a log))
          | inl t ↦
              goes_on k a log (rw (p, s, c, t, attempts) refl) h
                (loop_ends k (incr a) (made a log) (omega (arith, h, small)))
        ]
      ]
    ]
  ]

-- When the policy refuses an attempt below 2 ^ 64, `Run` ends, with fuel for the attempts up to it: it
-- has tried to connect less often than that attempt's number, and the connection was there, or it answers
-- an error, or one of the attempts before succeeded.
pub run_reconnector_ends :
    (r : Reconnector) (policy : ℕ → ConnectionState → Option ℕ) (connect : ℕ → Bool) (ctx : Context)
    (state : ConnectionState) (n : ℕ)
    → r.policy ≡ some policy
    → r.connect ≡ some connect
    → policy (suc n) state ≡ none
    → suc n < word_mod
    → (x : Option Error × List Effect) × (run_reconnector r ctx (suc n) state ≡ some x)
      × (tries x.1 < suc n)
      × ((is_connected state ≡ true)
          ⊎ (((e : Error) × (x.0 ≡ some e))
              ⊎ ((m : ℕ) × (1 ≤ m) × (m < suc n) × (connect m ≡ true))))
unfolding run_reconnector
run_reconnector_ends r policy connect ctx state n p c last small =
    elim (Bool-cases (is_connected state)) [
      | inl e ↦ ((none, []), rw (e, run_reconnector) refl, omega arith, inl e)
      | inr e ↦
          let (x, ran, ended) =
            loop_ends r policy connect (or_else r.sleep ctx) ctx state (suc n) last small n 1 []
              (omega arith) in
          (
            x,
            entered e ∙ ran,
            omega (arith, ended.bounded),
            elim ended.result [
              | inl e ↦ inr (inl e)
              | inr (m, low, high, ok) ↦ inr (inr (m, low, omega (arith, high), ok))
            ],
          )
    ]
  where
    entered :
        is_connected state ≡ false
        → run_reconnector r ctx (suc n) state
          ≡ attempts r policy connect (or_else r.sleep ctx) ctx state (suc n) 1 []
    entered e = simp (e, p, c, run_reconnector) refl
