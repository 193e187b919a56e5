-- ===== src/Device/Reconnect.antt =====
-- sdks/device/reconnect.go: the attempts to connect again.
use xe6_tsy.Common.{
  ℕ, zero, suc, Bool, true, false, not, Option, none, some, String, List, [], ◌∷◌, if◌then◌else◌,
  positive, incr,
}
use xe6_tsy.Device.{ConnectionState, connecting, connected}

pub data Error : Type 0 where
  exhausted : Error
  stopped : String → Error

-- What the caller plugs in, where it is there: the policy, the reconnection and the sleep, which answer for
-- an attempt, and whether states are shown.
pub record Reconnector : Type 0 where
  pub policy : Option (ℕ → ConnectionState → Option ℕ)
  pub connect : Option (ℕ → Bool)
  pub sleep : Option (ℕ → ℕ → Option String)
  pub on_state : Bool

-- The context's error, if it ends while an attempt's delay is slept, and after the attempt.
pub record Context : Type 0 where
  pub in_sleep : ℕ → Option String
  pub after : ℕ → Option String

pub data Effect : Type 0 where
  tried : ℕ → Effect
  shown : ConnectionState → Effect

abbrev pub is_connected : ConnectionState → Bool
is_connected connected = true
is_connected _ = false

unfoldable pub sleep_context : Context → ℕ → ℕ → Option String
sleep_context ctx attempt delay = if not (positive delay) then none else ctx.in_sleep attempt

unfoldable pub show : Reconnector → ConnectionState → List Effect → List Effect
show r state log = if r.on_state then shown state ∷ log else log

-- The loop from an attempt on, with what was done so far, the latest first. Without fuel it has not ended.
unfoldable pub attempts :
    Reconnector
    → (ℕ → ConnectionState → Option ℕ)
    → (ℕ → Bool)
    → (ℕ → ℕ → Option String)
    → Context
    → ConnectionState
    → ℕ
    → ℕ
    → List Effect
    → Option (Option Error × List Effect)
attempts r policy connect sleep ctx state zero attempt log = none
attempts r policy connect sleep ctx state (suc fuel) attempt log =
    let log_tried = tried attempt ∷ show r connecting log in
    let next = attempts r policy connect sleep ctx state fuel (incr attempt) log_tried in
    elim (policy attempt state) [
      | none ↦ some (some exhausted, log)
      | some delay ↦ elim (sleep attempt delay) [
        | some e ↦ some (some (stopped e), log)
        | none ↦ elim (connect attempt) [
          | true ↦ some (none, show r connected log_tried)
          | false ↦ elim (ctx.after attempt) [
            | some e ↦ some (some (stopped e), log_tried)
            | none ↦ next
          ]
        ]
      ]
    ]

abbrev pub or_else : Option (ℕ → ℕ → Option String) → Context → ℕ → ℕ → Option String
or_else none ctx = sleep_context ctx
or_else (some sleep) ctx = sleep

-- `Run`, with fuel for its loop.
unfoldable pub run_reconnector :
    Reconnector → Context → ℕ → ConnectionState → Option (Option Error × List Effect)
run_reconnector r ctx fuel state = if is_connected state then some (none, []) else elim r.policy [
  | none ↦ some (some exhausted, [])
  | some policy ↦ elim r.connect [
    | none ↦ some (some exhausted, [])
    | some connect ↦ attempts r policy connect (or_else r.sleep ctx) ctx state fuel 1 []
  ]
]
