-- ===== src/Playback/Log.antt =====
-- services/realtime-audio/playback/service.go: what the order of one playback's chunks and events is to
-- be, and what a playback knows of it.
use xe6_tsy.Common.{
  ℕ, ◌≡◌, Bool, true, false, not, ◌||◌, Option, none, some, List, [], ◌∷◌, ◌==◌, less, negative,
}
use xe6_tsy.Playback.{
  Playback, event_started, type_eq, is_playing, Event, Started, Settlement, Effect, published,
  wrote, completed, stopped,
}

abbrev pub is_start : Event → Bool
is_start e = type_eq e.event_type event_started

-- What the log says: whether playback was announced, the last chunk, and whether its end was published.
abbrev pub announced : List Effect → Bool
announced [] = false
announced (published e ∷ log) = is_start e || announced log
announced (x ∷ log) = announced log

abbrev pub last_written : List Effect → ℕ
last_written [] = 0
last_written (wrote c ∷ log) = c.sequence_no
last_written (x ∷ log) = last_written log

abbrev pub ended : List Effect → Bool
ended [] = false
ended (published e ∷ log) = not (is_start e) || ended log
ended (x ∷ log) = ended log

abbrev pub halted : List Effect → Bool
halted [] = false
halted (completed id ∷ log) = true
halted (stopped id ∷ log) = true
halted (x ∷ log) = halted log

-- What may happen after `log`: the start is published once and before any audio, a chunk is written
-- after the start and after all chunks before it in the sequence, the end is published once, the
-- track is halted once, and after either there is no start and no audio.
abbrev pub May : Effect → List Effect → Type 0
May (published e) log =
    (ended log ≡ false)
    × (is_start e ≡ true → (announced log ≡ false) × (last_written log ≡ 0) × (halted log ≡ false))
May (wrote c) log =
    (announced log ≡ true)
    × (less (last_written log) c.sequence_no ≡ true)
    × (ended log ≡ false)
    × (halted log ≡ false)
May (completed id) log = halted log ≡ false
May (stopped id) log = halted log ≡ false

abbrev pub Ordered : List Effect → Type 0
Ordered [] = Unit
Ordered (x ∷ log) = May x log × Ordered log

-- The start under way is the playback's first event, and has been published just if it says so.
abbrev pub Starting : Option Started → ℕ → Bool → Type 0
Starting none last said = said ≡ not (last == 0)
Starting (some st) last said =
    (last ≡ 0) × (is_start st.event ≡ true) × (said ≡ st.event_sent) × (st.audio_sent ≡ false)

abbrev pub Settling : Option Settlement → List Effect → Type 0
Settling none log = (ended log ≡ false) × (halted log ≡ false)
Settling (some s) log =
    (is_playing s.state ≡ false)
    × (is_start s.event ≡ false)
    × (ended log ≡ s.event_sent)
    × (s.track_stopped ≡ false → halted log ≡ false)

-- While it plays, the playback knows what its log says.
abbrev pub Playing : Playback → List Effect → Type 0
Playing p log =
    (last_written log ≡ p.snapshot.last_sequence)
    × (negative p.snapshot.last_sequence ≡ false)
    × Starting p.started p.snapshot.last_sequence (announced log)
    × Settling p.settlement log

pub record InOrder (p : Playback) (log : List Effect) : Type 0 where
  pub ordered : Ordered log
  pub known : is_playing p.snapshot.state ≡ true → Playing p log
  pub closed : is_playing p.snapshot.state ≡ false → p.settlement ≡ none
