-- ===== src/Segmenter/Tests.antt =====
-- Utterances cut from concrete frames.
use xe6_tsy.Common.{ℕ, ◌≡◌, refl, true, false, List, [], ◌∷◌, arith, All}
use xe6_tsy.Segmenter.{
  Frame, Options, Event, final, Segmenter, ok, validate_frame, push, advance, hear, pause, start,
  finalize, reset_active, opened_event, final_event,
}
use xe6_tsy.Segmenter.Stream.{listen, Agrees, push_stream}
use xe6_tsy.Segmenter.Accounting.{Accounts, IsSplit, push-Accounts}
use xe6_tsy.Segmenter.Bounds.{IsTimed, Lasts, push-Lasts}

abbrev options : Options
options = record {
  silence_after = 3;
  max_duration = 10;
  max_buffered_duration = 0;
  prefix_padding = 2;
}

abbrev at : ℕ → Frame
at t = record { pcm = 1 ∷ 2 ∷ []; sample_rate = 16_000; captured_at = t }

-- An utterance that began at time 5 and was last heard at time 6.
abbrev talking : Segmenter
talking = record {
  options = options;
  active = true;
  started_at = 5;
  last_speech = 6;
  last_seen = 6;
  frames = at 5 ∷ at 6 ∷ [];
  prefix_frames = [];
}

abbrev silent : Segmenter
silent = record talking {
  active = false;
  started_at = 0;
  last_speech = 0;
  last_seen = 9;
  frames = [];
}

abbrev ending : List Event
ending = final "" (at 5 ∷ at 6 ∷ at 9 ∷ []) 5 9 ∷ []

silence_ends : push false (at 9) false talking ≡ (silent, ok ending)
unfolding push validate_frame advance pause finalize reset_active final_event
silence_ends = refl

push_stream_example :
    ([] ≡ listen (at 5 ∷ at 6 ∷ []) ending) × All (Agrees (at 5 ∷ at 6 ∷ []) (at 9) false) ending
push_stream_example = push_stream (at 9) false false talking silent ending (λ e. cc) silence_ends

talking-IsSplit : IsSplit talking
talking-IsSplit = record { idle = λ e. cc; busy = λ e. refl; bare = λ e. refl }

push-Accounts_example : Accounts 2 (at 9) false talking (silent, ending)
push-Accounts_example =
    push-Accounts false (at 9) false talking silent ending talking-IsSplit silence_ends

talking-IsTimed : IsTimed talking
talking-IsTimed = record { began = λ e. omega arith; seen = λ e. omega arith; before = tt }

push-Lasts_example : All (Lasts talking) ending
push-Lasts_example =
    push-Lasts false (at 9) false talking silent ending talking-IsTimed silence_ends

-- Silence kept from long before joins the next utterance: the padding of 2 is not looked at again.
abbrev waiting : Segmenter
waiting = record silent { prefix_frames = at 9 ∷ [] }

stale_prefix_joins : (push false (at 100) true waiting).0 ≡ record {
  options = options;
  active = true;
  started_at = 9;
  last_speech = 100;
  last_seen = 100;
  frames = at 9 ∷ at 100 ∷ [];
  prefix_frames = [];
}
unfolding push validate_frame advance hear start opened_event
stale_prefix_joins = refl
