-- ===== src/Gate/Registry.antt =====
-- services/realtime-audio/command/registry.go and interpreter.go: which commands the registered modes allow.
use xe6_tsy.Common.{
  ℕ, Bool, true, false, not, ◌&&◌, ◌||◌, Option, none, some, String, List, [], ◌∷◌, ◌++◌,
  if◌then◌else◌, str_eq, is_blank, positive,
}
use xe6_tsy.Contract.Mode.{Mode, assistant, interpretation, valid, mode_eq}
use xe6_tsy.Languages.Validate.{OutputMode, unset}

pub data Action : Type 0 where
  activate_mode return_to_assistant assistant_query : Action
  other : String → Action

abbrev pub valid_action : Action → Bool
valid_action (other s) = false
valid_action action = true

unfoldable pub action_eq : Action → Action → Bool
action_eq activate_mode activate_mode = true
action_eq return_to_assistant return_to_assistant = true
action_eq assistant_query assistant_query = true
action_eq (other a) (other b) = str_eq a b
action_eq _ _ = false

pub record Arguments : Type 0 where
  pub source_language : String
  pub target_language : String
  pub output_mode : OutputMode

abbrev pub no_mode : OutputMode → Bool
no_mode unset = true
no_mode _ = false

-- `candidate.Arguments == (Arguments{})`.
unfoldable pub no_arguments : Arguments → Bool
no_arguments a = is_blank a.source_language && is_blank a.target_language && no_mode a.output_mode

-- What the interpreter gives, and what it is once it is accepted.
pub record Candidate : Type 0 where
  pub text : String
  pub action : Action
  pub target_mode : Mode
  pub arguments : Arguments

pub record Command : Type 0 where
  pub text : String
  pub action : Action
  pub target_mode : Mode
  pub arguments : Arguments

pub record CapabilityDescriptor : Type 0 where
  pub mode : Mode
  pub description : String
  pub schema_version : ℕ
  pub actions : List Action

pub data Error : Type 0 where
  capability_invalid capability_duplicate capability_unavailable candidate_invalid : Error

pub data Result (A : Type 0) : Type 0 where
  ok : A → Result A
  err : Error → Result A

unfoldable pub contains_action : Action → List Action → Bool
contains_action target [] = false
contains_action target (a ∷ rest) = action_eq a target || contains_action target rest

-- The loop over the actions, with those seen.
unfoldable pub actions_ok : List Action → List Action → Bool
actions_ok seen [] = true
actions_ok seen (a ∷ rest) =
    valid_action a && not (contains_action a seen) && actions_ok (a ∷ seen) rest

abbrev pub is_nil : List Action → Bool
is_nil [] = true
is_nil (a ∷ rest) = false

unfoldable pub valid_descriptor : CapabilityDescriptor → Bool
valid_descriptor d =
    not (
      not (valid d.mode)
      || is_blank d.description
      || not (positive d.schema_version)
      || is_nil d.actions)
    && actions_ok [] d.actions

-- `byMode`: the descriptor of a mode, of which there is one.
abbrev pub by_mode : Mode → List CapabilityDescriptor → Option CapabilityDescriptor
by_mode mode [] = none
by_mode mode (d ∷ ds) = if mode_eq d.mode mode then some d else by_mode mode ds

abbrev pub exists : Option CapabilityDescriptor → Bool
exists none = false
exists (some d) = true

unfoldable pub register :
    List CapabilityDescriptor → List CapabilityDescriptor → Result (List CapabilityDescriptor)
register ordered [] = ok ordered
register ordered (d ∷ ds) = elim (valid_descriptor d) [
  | false ↦ err capability_invalid
  | true ↦ elim (exists (by_mode d.mode ordered)) [
    | true ↦ err capability_duplicate
    | false ↦ register (ordered ++ d ∷ []) ds
  ]
]

unfoldable pub new_registry : List CapabilityDescriptor → Result (List CapabilityDescriptor)
new_registry descriptors = register [] descriptors

-- The checks of a candidate whose mode has a descriptor.
unfoldable pub refused : CapabilityDescriptor → Candidate → Bool
refused d c =
    not (contains_action c.action d.actions)
    || (action_eq c.action return_to_assistant && not (mode_eq c.target_mode assistant))
    || (action_eq c.action assistant_query && not (mode_eq c.target_mode assistant))
    || (not (mode_eq c.target_mode interpretation) && not (no_arguments c.arguments))

unfoldable pub validate : List CapabilityDescriptor → Candidate → Result Command
validate registry c =
    if not (valid_action c.action) || not (valid c.target_mode)
    then err candidate_invalid
    else elim (by_mode c.target_mode registry) [
      | none ↦ err capability_unavailable
      | some d ↦
          if refused d c
          then err candidate_invalid
          else ok (record {
            text = c.text;
            action = c.action;
            target_mode = c.target_mode;
            arguments = c.arguments;
          })
    ]
