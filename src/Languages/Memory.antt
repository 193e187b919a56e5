-- ===== src/Languages/Memory.antt =====
-- services/api/languages/memory_store.go: the configurations, oldest first, and the keys that wrote them.
use xe6_tsy.Common.{
  ℕ, Bool, true, false, not, ◌&&◌, Option, none, some, String, List, [], ◌∷◌, ◌++◌, ◌⊎◌, inl, inr,
  if◌then◌else◌, ◌==◌, incr, str_eq, is_blank, Map, empty, insert,
}
use xe6_tsy.Contract.Mode.{Time}
use xe6_tsy.Languages.Validate.{
  Error, version_conflict, idempotency_conflict, LanguagePair, OutputRoute, OutputMode, unset,
  output_mode_for_routes,
}

pub data Status : Type 0 where
  active superseded : Status

pub record LanguageConfig : Type 0 where
  pub id : String
  pub session_id : String
  pub version : ℕ
  pub language_pairs : List LanguagePair
  pub output_routes : List OutputRoute
  pub output_mode : OutputMode
  pub status : Status
  pub effective_from : Time
  pub effective_until : Option Time
  pub created_by : String
  pub created_at : Time
  pub request_fingerprint : String

pub record Input : Type 0 where
  pub session_id : String
  pub language_pairs : List LanguagePair
  pub output_routes : List OutputRoute
  pub created_by : String
  pub idempotency_key : String
  pub expected_version : Option ℕ
  pub request_fingerprint : String

pub record Store : Type 0 where
  pub configs : List LanguageConfig
  pub idempo : Map String

abbrev pub new_memory_store : Store
new_memory_store = record { configs = []; idempo = empty }

unfoldable pub clone_config : LanguageConfig → LanguageConfig
clone_config c = record c { output_mode = output_mode_for_routes c.output_routes }

abbrev pub is_active : Status → Bool
is_active active = true
is_active superseded = false

abbrev pub serves : String → LanguageConfig → Bool
serves session c = str_eq c.session_id session && is_active c.status

-- The last active configuration of the session.
unfoldable pub get_active_config : String → List LanguageConfig → Option LanguageConfig
get_active_config session [] = none
get_active_config session (c ∷ cs) = elim (get_active_config session cs) [
  | some d ↦ some d
  | none ↦ if serves session c then some (clone_config c) else none
]

abbrev pub with_id : String → List LanguageConfig → Option LanguageConfig
with_id id [] = none
with_id id (c ∷ cs) = if str_eq c.id id then some c else with_id id cs

unfoldable pub get_config_by_idempotency_key : String → Store → Option LanguageConfig
get_config_by_idempotency_key key s = if is_blank key then none else elim (s.idempo key) [
  | none ↦ none
  | some id ↦ elim (with_id id s.configs) [ none ↦ none | some c ↦ some (clone_config c) ]
]

-- The version of the first active configuration, which is the one that is superseded.
abbrev pub current_version : String → List LanguageConfig → Option ℕ
current_version session [] = none
current_version session (c ∷ cs) =
    if serves session c then some c.version else current_version session cs

unfoldable pub supersede : String → Time → List LanguageConfig → List LanguageConfig
supersede session now [] = []
supersede session now (c ∷ cs) =
    let rest = supersede session now cs in
    if serves session c
    then record c { status = superseded; effective_until = some now } ∷ cs
    else c ∷ rest

abbrev pub next_version : Option ℕ → ℕ
next_version none = 1
next_version (some v) = incr v

abbrev pub as_expected : Option ℕ → Option ℕ → Bool
as_expected none current = true
as_expected (some v) none = false
as_expected (some v) (some current) = current == v

abbrev pub in_use : Option String → Bool
in_use none = false
in_use (some id) = true

abbrev pub new_config : Time → String → Input → Option ℕ → LanguageConfig
new_config now id input current = record {
  id = id;
  session_id = input.session_id;
  version = next_version current;
  language_pairs = input.language_pairs;
  output_routes = input.output_routes;
  output_mode = unset;
  status = active;
  effective_from = now;
  effective_until = none;
  created_by = input.created_by;
  created_at = now;
  request_fingerprint = input.request_fingerprint;
}

unfoldable pub create_active_config :
    Time → String → Input → Store → Store × (Error ⊎ LanguageConfig)
create_active_config now id input s =
    let current = current_version input.session_id s.configs in
    let config = new_config now id input current in
    if not (is_blank input.idempotency_key) && in_use (s.idempo input.idempotency_key)
    then (s, inl idempotency_conflict)
    else if not (as_expected input.expected_version current)
    then (s, inl version_conflict)
    else (
      record {
        configs = supersede input.session_id now s.configs ++ config ∷ [];
        idempo =
            if is_blank input.idempotency_key
            then s.idempo
            else insert input.idempotency_key id s.idempo;
      },
      inr (clone_config config),
    )
