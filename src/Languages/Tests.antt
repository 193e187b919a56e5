-- ===== src/Languages/Tests.antt =====
-- services/api/languages: its theorems at concrete requests.
use xe6_tsy.Common.{◌≡◌, refl, true, false, none, some, String, List, [], ◌∷◌, inr, str_eq}
use xe6_tsy.Contract.Mode.{Time}
use xe6_tsy.Languages.Validate.{
  LanguagePair, Catalog, check_pair, check_pairs, validate_p0_language_pairs, default_routes,
  normalize_output_routes, output_mode_for_routes, unset,
}
use xe6_tsy.Languages.Memory.{
  Input, new_memory_store, clone_config, get_active_config, get_config_by_idempotency_key,
  supersede, create_active_config, active,
}
use xe6_tsy.Languages.{
  Request, Env, authorize_session, write, deliver_or_write, create_valid, checked, create_config,
}
use xe6_tsy.Languages.Pairs.{Opposite, validate_p0_language_pairs-Opposite}
use xe6_tsy.Languages.Retry.{create_config_retry}
use xe6_tsy.Languages.Versions.{OneActive, write_all, writes_serve}

abbrev both_ways : List LanguagePair
both_ways =
    record { source = "zh-CN"; target = "en-US" }
    ∷ record { source = "en-US"; target = "zh-CN" }
    ∷ []

abbrev everything : Catalog
everything code = some (record { supports_as_source = true; supports_as_target = true })

abbrev request : Request
request = record {
  account_id = "a";
  session_id = "s";
  idempotency_key = "k";
  languages = both_ways;
  output_routes = [];
  expected_version = none;
  fingerprint = "f";
}

abbrev env : Env
env = record {
  key_length = 1;
  owner = inr "a";
  catalog = inr everything;
  ready = inr false;
  meanwhile = λ s. s;
  now = 5;
  new_id = "c1";
}

abbrev later : Env
later = record env { now = 9; new_id = "c2" }

abbrev input : Input
input = record {
  session_id = "s";
  language_pairs = both_ways;
  output_routes = [];
  created_by = "a";
  idempotency_key = "";
  expected_version = some 1;
  request_fingerprint = "";
}

abbrev first_write : List (Time × String × Input)
first_write = (1, "c1", record input { expected_version = none }) ∷ []

validate_p0_language_pairs-Opposite_example :
    (p : LanguagePair) × (q : LanguagePair) × (both_ways ≡ p ∷ q ∷ []) × Opposite everything p q
unfolding validate_p0_language_pairs check_pairs check_pair str_eq
validate_p0_language_pairs-Opposite_example =
    validate_p0_language_pairs-Opposite both_ways everything refl

create_config_retry_example :
    create_config later request (create_config env request new_memory_store).0 ≡ (
      (create_config env request new_memory_store).0,
      (create_config env request new_memory_store).1,
    )
unfolding create_config checked authorize_session validate_p0_language_pairs check_pairs check_pair
    normalize_output_routes default_routes create_valid get_config_by_idempotency_key
    deliver_or_write write create_active_config supersede clone_config str_eq
create_config_retry_example =
    create_config_retry env later request new_memory_store _ _ refl refl refl refl refl

writes_serve_example :
    let s = write_all first_write new_memory_store in
    OneActive s
    × (get_active_config "s" (create_active_config 2 "c2" input s).0.configs
        ≡ some (record {
          id = "c2";
          session_id = "s";
          version = 2;
          language_pairs = both_ways;
          output_routes = [];
          output_mode = unset;
          status = active;
          effective_from = 2;
          effective_until = none;
          created_by = "a";
          created_at = 2;
          request_fingerprint = "";
        }))
unfolding write_all create_active_config supersede clone_config output_mode_for_routes str_eq
writes_serve_example = writes_serve first_write 2 "c2" input _ refl
