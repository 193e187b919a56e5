-- ===== src/Turn/Tests.antt =====
-- Turns at concrete inputs.
use xe6_tsy.Common.{ℕ, ◌<◌, ◌≡◌, refl, false, String, [], ◌∷◌, arith, str_eq, empty, insert}
use xe6_tsy.Contract.Mode.{assistant}
use xe6_tsy.Turn.{
  Turn, LanguageConfig, TurnMode, OpenEnv, OpenRequest, Sequences, opened, found, next, valid_pair,
  valid_pairs, valid_language_config, allocated_turn, capture_config, capture_mode, open_turn,
}
use xe6_tsy.Turn.Numbers.{open_all, later_turn_number}

abbrev pub trim : String → String
trim s = s

abbrev pub name_turn : String → ℕ → String
name_turn s n = s

abbrev pub config : LanguageConfig
config = record {
  session_id = "s";
  version = 1;
  language_pairs = record { source = "zh"; target = "en" } ∷ [];
  output_routes = [];
  status = "active";
  updated_at = 3;
}

abbrev pub mode : TurnMode
mode = record { session_id = "s"; runtime_instance_id = "rt"; mode = assistant; generation = 1 }

abbrev pub request : OpenRequest
request = record { session_id = "s"; account_id = "a"; trace_id = "t"; started_at = 7 }

abbrev pub readers : OpenEnv
readers = record { ctx_done = false; config = found config; mode = found mode; now = 8 }

abbrev pub turn : ℕ → Turn
turn n = record {
  id = "s";
  session_id = "s";
  account_id = "a";
  trace_id = "t";
  sequence_no = n;
  language_config = config;
  mode = mode;
  started_at = 7;
}

abbrev counted : ℕ → Sequences → Sequences
counted n m = insert "s" n m

pub first_turn : open_turn trim name_turn readers request empty ≡ (counted 1 empty, opened (turn 1))
unfolding open_turn allocated_turn capture_config capture_mode next valid_language_config
    valid_pairs valid_pair str_eq
first_turn = refl

second_turn :
    open_turn trim name_turn readers request (open_all trim name_turn [] (counted 1 empty))
    ≡ (counted 2 (counted 1 empty), opened (turn 2))
unfolding open_all open_turn allocated_turn capture_config capture_mode next valid_language_config
    valid_pairs valid_pair str_eq
second_turn = refl

later_turn_number_example : (turn 1).sequence_no < (turn 2).sequence_no
later_turn_number_example =
    later_turn_number trim name_turn readers readers request request empty (counted 1 empty)
      (counted 2 (counted 1 empty)) (turn 1) (turn 2) [] first_turn second_turn refl (omega arith)
