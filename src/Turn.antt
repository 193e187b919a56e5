-- ===== src/Turn.antt =====
-- services/realtime-audio/pipeline/turn.go: a Turn gets its number and its immutable snapshots when
-- it opens.
pub mod Tests
pub mod Numbers
use xe6_tsy.Common.{
  ℕ, Bool, true, false, not, ◌&&◌, ◌||◌, Option, none, some, String, List, [], ◌∷◌, if◌then◌else◌,
  ◌==◌, incr, positive, str_eq, is_blank, Map, empty, insert,
}
use xe6_tsy.Contract.Mode.{Time, Mode, valid}

pub record LanguagePair : Type 0 where
  pub source : String
  pub target : String

pub record OutputRoute : Type 0 where
  pub target_language : String
  pub tts_enabled : Bool
  pub delivery_enabled : Bool

pub record LanguageConfig : Type 0 where
  pub session_id : String
  pub version : ℕ  -- int64
  pub language_pairs : List LanguagePair
  pub output_routes : List OutputRoute
  pub status : String
  pub updated_at : Time

pub record TurnMode : Type 0 where
  pub session_id : String
  pub runtime_instance_id : String
  pub mode : Mode
  pub generation : ℕ  -- int64

pub record OpenRequest : Type 0 where
  pub session_id : String
  pub account_id : String
  pub trace_id : String
  pub started_at : Time

pub record Turn : Type 0 where
  pub id : String
  pub session_id : String
  pub account_id : String
  pub trace_id : String
  pub sequence_no : ℕ  -- int64
  pub language_config : LanguageConfig
  pub mode : TurnMode
  pub started_at : Time

-- The readers' own failures carry their message.
pub data OpenError : Type 0 where
  session_id_required context_done : OpenError
  config_unread mode_unread : String → OpenError
  config_session_mismatch config_unavailable mode_session_mismatch mode_unavailable : OpenError

pub data Opened {ℓ} (A : Type ℓ) : Type ℓ where
  opened : A → Opened A
  failed : OpenError → Opened A

-- `MemoryTurnAllocator`: a missing session counts from 0.
abbrev pub Sequences : Type 0
Sequences = Map ℕ

abbrev pub last_sequence : Option ℕ → ℕ
last_sequence none = 0
last_sequence (some n) = n

-- What the two readers answer.
pub data Read {ℓ} (A : Type ℓ) : Type ℓ where
  found : A → Read A
  unread : String → Read A

pub record OpenEnv : Type 0 where
  pub ctx_done : Bool
  pub config : Read LanguageConfig
  pub mode : Read TurnMode
  pub now : Time

abbrev pub no_pairs : List LanguagePair → Bool
no_pairs [] = true
no_pairs (p ∷ ps) = false

-- `trim_space` is `strings.TrimSpace`, `turn_id` is `fmt.Sprintf("turn_%s_%06d", …)`.
module _ (trim_space : String → String) where
  unfoldable pub valid_pair : LanguagePair → Bool
  valid_pair p = not (
      is_blank (trim_space p.source)
      || is_blank (trim_space p.target)
      || not (str_eq (trim_space p.source) p.source)
      || not (str_eq (trim_space p.target) p.target)
      || str_eq (trim_space p.source) (trim_space p.target))

  unfoldable pub valid_pairs : List LanguagePair → Bool
  valid_pairs [] = true
  valid_pairs (p ∷ ps) = valid_pair p && valid_pairs ps

  unfoldable pub valid_language_config : LanguageConfig → Bool
  valid_language_config c =
      if not (str_eq c.status "active") || not (positive c.version) || no_pairs c.language_pairs
      then false
      else valid_pairs c.language_pairs

module _ (turn_id : String → ℕ → String) where
  -- `Next`: the new counters, the Turn's ID and its number.
  unfoldable pub next : Bool → String → Sequences → Sequences × Opened (String × ℕ)
  next ctx_done session sequences =
      if ctx_done
      then (sequences, failed context_done)
      else if is_blank session
      then (sequences, failed session_id_required)
      else let n = incr (last_sequence (sequences session)) in
        (insert session n sequences, opened (turn_id session n, n))

module _ (trim_space : String → String) (turn_id : String → ℕ → String) where
  -- `OpenTurn` from the mode reader on.
  unfoldable pub capture_mode :
      OpenEnv → OpenRequest → String × ℕ → LanguageConfig → Read TurnMode → Opened Turn
  capture_mode env request (id, n) config (unread why) = failed (mode_unread why)
  capture_mode env request (id, n) config (found mode) =
      if not (str_eq mode.session_id request.session_id)
      then failed mode_session_mismatch
      else if is_blank mode.runtime_instance_id
          || not (valid mode.mode)
          || not (positive mode.generation)
      then failed mode_unavailable
      else opened (record {
        id = id;
        session_id = request.session_id;
        account_id = request.account_id;
        trace_id = request.trace_id;
        sequence_no = n;
        language_config = config;
        mode = mode;
        started_at = if request.started_at == 0 then env.now else request.started_at;
      })

  -- `OpenTurn` from the language reader on.
  unfoldable pub capture_config :
      OpenEnv → OpenRequest → String × ℕ → Read LanguageConfig → Opened Turn
  capture_config env request allocated (unread why) = failed (config_unread why)
  capture_config env request allocated (found config) =
      if not (str_eq config.session_id request.session_id)
      then failed config_session_mismatch
      else if not (valid_language_config trim_space config)
      then failed config_unavailable
      else capture_mode env request allocated config env.mode

  unfoldable pub allocated_turn :
      OpenEnv → OpenRequest → Sequences × Opened (String × ℕ) → Sequences × Opened Turn
  allocated_turn env request (sequences, failed e) = (sequences, failed e)
  allocated_turn env request (sequences, opened allocated) =
      (sequences, capture_config env request allocated env.config)

  -- `OpenTurn` with its dependencies wired: the number is taken before anything else can fail.
  unfoldable pub open_turn : OpenEnv → OpenRequest → Sequences → Sequences × Opened Turn
  open_turn env request sequences =
      if is_blank request.session_id
      then (sequences, failed session_id_required)
      else allocated_turn env request (next turn_id env.ctx_done request.session_id sequences)
