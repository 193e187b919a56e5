-- ===== src/Languages.antt =====
-- services/api/languages: the language configuration of a session, which is validated, versioned and
-- written once for each idempotency key. A text's number of bytes, the owner of a session, the
-- catalog and the readiness of a delivery target come from the surroundings.
mod Tests
pub mod Validate
pub mod Memory
pub mod Versions
pub mod Retry
pub mod Pairs
use xe6_tsy.Common.{
  ℕ, Bool, true, false, not, ◌&&◌, ◌||◌, Option, none, some, String, List, [], ◌∷◌, ◌⊎◌, inl, inr,
  if◌then◌else◌, ltb, str_eq, is_blank,
}
use xe6_tsy.Contract.Mode.{Time}
use xe6_tsy.Languages.Validate.{
  Error, unauthenticated, forbidden, invalid_request, idempotency_conflict,
  delivery_target_required, port, LanguagePair, OutputRoute, Catalog, validate_p0_language_pairs,
  normalize_output_routes, has_delivery_route,
}
use xe6_tsy.Languages.Memory.{
  LanguageConfig, Input, Store, clone_config, get_config_by_idempotency_key, create_active_config,
}

pub record Request : Type 0 where
  pub account_id : String
  pub session_id : String
  pub idempotency_key : String
  pub languages : List LanguagePair
  pub output_routes : List OutputRoute
  pub expected_version : Option ℕ
  pub fingerprint : String

-- `meanwhile` is what other calls do to the store between the lookup of the key and the write.
pub record Env : Type 0 where
  pub key_length : ℕ
  pub owner : Error ⊎ String
  pub catalog : Error ⊎ Catalog
  pub ready : Error ⊎ Bool
  pub meanwhile : Store → Store
  pub now : Time
  pub new_id : String

-- `none` lets the account in.
unfoldable pub authorize_session : Env → Request → Option Error
authorize_session env q =
    if is_blank q.account_id
    then some unauthenticated
    else if is_blank q.session_id
    then some invalid_request
    else elim env.owner [
      | inl e ↦ some e
      | inr owner ↦ if str_eq owner q.account_id then none else some forbidden
    ]

unfoldable pub same_idempotent_request : LanguageConfig → String → String → Bool
same_idempotent_request existing session fingerprint =
    str_eq existing.session_id session
    && not (is_blank existing.request_fingerprint)
    && str_eq existing.request_fingerprint fingerprint

-- What a key that is in use answers.
unfoldable pub replayed : Request → LanguageConfig → Error ⊎ LanguageConfig
replayed q existing =
    if same_idempotent_request existing q.session_id q.fingerprint
    then inr existing
    else inl idempotency_conflict

abbrev pub Answer : Type 0
Answer = Store × (Error ⊎ LanguageConfig)

abbrev pub input_of : Request → List OutputRoute → Input
input_of q routes = record {
  session_id = q.session_id;
  language_pairs = q.languages;
  output_routes = routes;
  created_by = q.account_id;
  idempotency_key = q.idempotency_key;
  expected_version = q.expected_version;
  request_fingerprint = q.fingerprint;
}

-- The write, and the second lookup by which the loser of a race answers.
unfoldable pub write : Env → Request → List OutputRoute → Store → Answer
write env q routes s =
    let created = create_active_config env.now env.new_id (input_of q routes) s in
    elim created.1 [
      | inr config ↦ (created.0, inr config)
      | inl idempotency_conflict ↦
          if is_blank q.idempotency_key
          then (created.0, inl idempotency_conflict)
          else elim (get_config_by_idempotency_key q.idempotency_key created.0) [
            | none ↦ (created.0, inl idempotency_conflict)
            | some existing ↦ (created.0, replayed q existing)
          ]
      | inl e ↦ (created.0, inl e)
    ]

-- A delivery route needs a target that is ready.
unfoldable pub deliver_or_write : Env → Request → List OutputRoute → Store → Answer
deliver_or_write env q routes s =
    if has_delivery_route routes
    then elim env.ready [
      | inl e ↦ (s, inl e)
      | inr false ↦ (s, inl delivery_target_required)
      | inr true ↦ write env q routes (env.meanwhile s)
    ]
    else write env q routes (env.meanwhile s)

-- `createConfig` once the request is valid.
unfoldable pub create_valid : Env → Request → List OutputRoute → Store → Answer
create_valid env q routes s =
    if is_blank q.idempotency_key
    then deliver_or_write env q routes s
    else elim (get_config_by_idempotency_key q.idempotency_key s) [
      | some existing ↦ (s, replayed q existing)
      | none ↦ deliver_or_write env q routes s
    ]

-- The checks of the request, in the source's order, down to the routes.
unfoldable pub checked : Env → Request → Error ⊎ List OutputRoute
checked env q =
    if is_blank q.account_id
    then inl unauthenticated
    else if ltb 128 env.key_length
    then inl invalid_request
    else elim (authorize_session env q) [
      | some e ↦ inl e
      | none ↦ elim q.languages [
        | [] ↦ inl invalid_request
        | p ∷ ps ↦ elim env.catalog [
          | inl e ↦ inl e
          | inr catalog ↦ elim (validate_p0_language_pairs q.languages catalog) [
            | some e ↦ inl e
            | none ↦ normalize_output_routes q.languages q.output_routes
          ]
        ]
      ]
    ]

unfoldable pub create_config : Env → Request → Store → Answer
create_config env q s = elim (checked env q) [
  | inl e ↦ (s, inl e)
  | inr routes ↦ create_valid env q routes s
]
