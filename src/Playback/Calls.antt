-- ===== src/Playback/Calls.antt =====
-- services/realtime-audio/playback/service.go: sequences of calls on one playback.
use xe6_tsy.Common.{ℕ, none, some, String, List, [], ◌∷◌}
use xe6_tsy.Playback.{EventType, AudioChunk, Playback, Effect, Env, validate_chunk, deliver}
use xe6_tsy.Playback.Settle.{Ending, settle}

-- One call on a playback: a chunk, or the ending of a playback ID.
pub data Call : Type 0 where
  chunk : AudioChunk → Call
  ending : String → Ending → Call

module _ (event_id_text : String → EventType → ℕ → String) where
  unfoldable pub step : Env → Call → Playback × List Effect → Playback × List Effect
  step env (chunk c) (p, log) =
      let r = deliver event_id_text env c p log in
      elim (validate_chunk c) [ some e ↦ (p, log) | none ↦ (r.0, r.1) ]
  step env (ending id e) (p, log) = let r = settle event_id_text env id e p log in (r.0, r.1)

  unfoldable pub run : List (Env × Call) → Playback × List Effect → Playback × List Effect
  run [] a = a
  run ((env, call) ∷ rest) a = run rest (step env call a)
