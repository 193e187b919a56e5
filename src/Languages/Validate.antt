-- ===== src/Languages/Validate.antt =====
-- services/api/languages/validate.go: the language pairs and output routes that a configuration may have.
use xe6_tsy.Common.{
  ℕ, suc, Bool, true, false, not, ◌&&◌, ◌||◌, Option, none, some, String, List, [], ◌∷◌, ◌⊎◌, inl,
  inr, if◌then◌else◌, ltb, ◌==◌, length, str_eq, is_blank, Map,
}

pub data Error : Type 0 where
  invalid_request unauthenticated forbidden no_active_config version_conflict : Error
  idempotency_conflict unsupported_language invalid_language_pair delivery_target_required : Error
  port : String → Error

pub record LanguagePair : Type 0 where
  pub source : String
  pub target : String

pub record OutputRoute : Type 0 where
  pub target_language : String
  pub tts_enabled : Bool
  pub delivery_enabled : Bool

pub record SupportedLanguage : Type 0 where
  pub supports_as_source : Bool
  pub supports_as_target : Bool

abbrev pub Catalog : Type 0
Catalog = Map SupportedLanguage

abbrev pub usable_source : Option SupportedLanguage → Bool
usable_source none = false
usable_source (some l) = l.supports_as_source

abbrev pub usable_target : Option SupportedLanguage → Bool
usable_target none = false
usable_target (some l) = l.supports_as_target

-- The pairs seen so far are the map from their sources to their targets.
abbrev pub lookup : String → List LanguagePair → Option String
lookup source [] = none
lookup source (p ∷ ps) = if str_eq p.source source then some p.target else lookup source ps

abbrev pub contains : String → List String → Bool
contains x [] = false
contains x (y ∷ ys) = str_eq y x || contains x ys

abbrev pub add : String → List String → List String
add x ys = if contains x ys then ys else x ∷ ys

abbrev pub is_known : Option String → Bool
is_known none = false
is_known (some s) = true

-- One round of the loop over the pairs.
unfoldable pub check_pair : Catalog → List LanguagePair → LanguagePair → Option Error
check_pair catalog seen p =
    if is_blank p.source || is_blank p.target
    then some invalid_request
    else if str_eq p.source p.target
    then some invalid_language_pair
    else if is_known (lookup p.source seen)
    then some invalid_language_pair
    else if not (usable_source (catalog p.source))
    then some unsupported_language
    else if not (usable_target (catalog p.target))
    then some unsupported_language
    else none

unfoldable pub check_pairs : Catalog → List LanguagePair → List LanguagePair → Option Error
check_pairs catalog seen [] = none
check_pairs catalog seen (p ∷ ps) = elim (check_pair catalog seen p) [
  | some e ↦ some e
  | none ↦ check_pairs catalog (p ∷ seen) ps
]

abbrev pub covered : List LanguagePair → List String
covered [] = []
covered (p ∷ ps) = add p.target (add p.source (covered ps))

abbrev pub is_target : Option String → String → Bool
is_target none source = false
is_target (some target) source = str_eq target source

abbrev pub mutual_inverses : List LanguagePair → List LanguagePair → Bool
mutual_inverses seen [] = true
mutual_inverses seen (p ∷ ps) = is_target (lookup p.target seen) p.source && mutual_inverses seen ps

-- `none` accepts the pairs.
unfoldable pub validate_p0_language_pairs : List LanguagePair → Catalog → Option Error
validate_p0_language_pairs pairs catalog =
    if not (length pairs == 2)
    then some invalid_language_pair
    else elim (check_pairs catalog [] pairs) [
      | some e ↦ some e
      | none ↦
          if not (length (covered pairs) == 2)
          then some invalid_language_pair
          else if not (mutual_inverses pairs pairs)
          then some invalid_language_pair
          else none
    ]

abbrev pub targets_of : List LanguagePair → List String
targets_of [] = []
targets_of (p ∷ ps) = add p.target (targets_of ps)

-- The default routes: one for each target, by the target's first pair.
unfoldable pub default_routes : List String → List LanguagePair → List OutputRoute
default_routes used [] = []
default_routes used (p ∷ ps) =
    let rest = default_routes (p.target ∷ used) ps in
    if contains p.target used
    then rest
    else record { target_language = p.target; tts_enabled = true; delivery_enabled = false } ∷ rest

unfoldable pub check_route : List String → List String → OutputRoute → Option Error
check_route targets seen r =
    if is_blank r.target_language
    then some invalid_request
    else if not (contains r.target_language targets)
    then some invalid_language_pair
    else if contains r.target_language seen
    then some invalid_language_pair
    else if (r.tts_enabled && r.delivery_enabled) || (not r.tts_enabled && not r.delivery_enabled)
    then some invalid_request
    else none

unfoldable pub check_routes : List String → List String → List OutputRoute → Option Error
check_routes targets seen [] = none
check_routes targets seen (r ∷ rs) = elim (check_route targets seen r) [
  | some e ↦ some e
  | none ↦ check_routes targets (r.target_language ∷ seen) rs
]

abbrev pub routed : List OutputRoute → List String
routed [] = []
routed (r ∷ rs) = r.target_language ∷ routed rs

abbrev pub all_in : List String → List String → Bool
all_in [] ys = true
all_in (x ∷ xs) ys = contains x ys && all_in xs ys

abbrev pub tts_routes : List OutputRoute → ℕ
tts_routes [] = 0
tts_routes (r ∷ rs) = if r.tts_enabled then suc (tts_routes rs) else tts_routes rs

abbrev pub delivery_routes : List OutputRoute → ℕ
delivery_routes [] = 0
delivery_routes (r ∷ rs) =
    if r.delivery_enabled then suc (delivery_routes rs) else delivery_routes rs

unfoldable pub normalize_output_routes :
    List LanguagePair → List OutputRoute → Error ⊎ List OutputRoute
normalize_output_routes pairs [] = inr (default_routes [] pairs)
normalize_output_routes pairs (r ∷ rs) = elim (check_routes (targets_of pairs) [] (r ∷ rs)) [
  | some e ↦ inl e
  | none ↦
      if not (all_in (targets_of pairs) (routed (r ∷ rs)))
      then inl invalid_language_pair
      else if ltb 1 (delivery_routes (r ∷ rs))
      then inl invalid_request
      else inr (r ∷ rs)
]

abbrev pub has_delivery_route : List OutputRoute → Bool
has_delivery_route [] = false
has_delivery_route (r ∷ rs) = r.delivery_enabled || has_delivery_route rs

pub data OutputMode : Type 0 where
  unset bidirectional single : OutputMode

unfoldable pub output_mode_for_routes : List OutputRoute → OutputMode
output_mode_for_routes routes =
    if not (length routes == 2)
    then unset
    else if tts_routes routes == 2 && delivery_routes routes == 0
    then bidirectional
    else if tts_routes routes == 1 && delivery_routes routes == 1
    then single
    else unset
