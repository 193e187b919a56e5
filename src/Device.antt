-- ===== src/Device.antt =====
-- sdks/device/state.go: what a device shows of its session, from observations that come in any order. The
-- states of a runtime and the phases of a mode are those of the contract, so that only other states can
-- be invalid. `blank` tells a text that has only spaces.
mod Tests
pub mod Display
pub mod Reconnect
pub mod Attempts
use xe6_tsy.Common.{
  ℕ, Bool, true, false, not, ◌&&◌, ◌||◌, Option, none, some, String, if◌then◌else◌, ltb, leb, ◌==◌,
  str_eq, is_blank, less, positive,
}
use xe6_tsy.Contract.Mode.{Time, ModeState, valid}
use xe6_tsy.Contract.Runtime.{RuntimeSnapshot}

pub data ConnectionState : Type 0 where
  new connecting connected disconnected failed closed : ConnectionState
  other : String → ConnectionState

abbrev pub valid_state : ConnectionState → Bool
valid_state (other s) = false
valid_state state = true

pub record ConnectionSnapshot : Type 0 where
  pub session_id : String
  pub connection_id : String
  pub state : ConnectionState
  pub version : ℕ  -- int64
  pub updated_at : Time

-- What is shown of one kind, and the identities that were shown before.
pub record Slot (A : Type 0) : Type 0 where
  pub shown : Option A
  pub retired : String → Bool

-- An observation of the identity that is shown must be newer by `newer`; one of another identity must
-- be fresher by `later`, and never have been shown.
module _ {A : Type 0} (identity : A → String) (newer later : A → A → Bool) where
  unfoldable pub replaces : A → A → (String → Bool) → Bool
  replaces previous next retired =
      if str_eq (identity previous) (identity next)
      then newer previous next
      else not (retired (identity next) || not (later previous next))

  abbrev pub retire : A → A → (String → Bool) → String → Bool
  retire previous next retired id =
      if str_eq (identity previous) (identity next)
      then retired id
      else str_eq (identity previous) id || retired id

  unfoldable pub apply : A → Slot A → Slot A
  apply next slot = elim slot.shown [
    | none ↦ record slot { shown = some next }
    | some previous ↦
        if replaces previous next slot.retired
        then record { shown = some next; retired = retire previous next slot.retired }
        else slot
  ]

pub record StateStore : Type 0 where
  pub session : String
  pub connection : Slot ConnectionSnapshot
  pub runtime : Slot RuntimeSnapshot
  pub mode : Slot ModeState

abbrev pub untouched : {A : Type 0} → Slot A
untouched = record { shown = none; retired = λ id. false }

unfoldable pub new_state_store : (String → Bool) → String → Option StateStore
new_state_store blank session =
    if blank session
    then none
    else some (record {
      session = session;
      connection = untouched;
      runtime = untouched;
      mode = untouched;
    })

abbrev pub connection_newer : ConnectionSnapshot → ConnectionSnapshot → Bool
connection_newer previous next = less previous.version next.version

abbrev pub connection_later : ConnectionSnapshot → ConnectionSnapshot → Bool
connection_later previous next = ltb previous.updated_at next.updated_at

unfoldable pub apply_connection : ConnectionSnapshot → StateStore → StateStore
apply_connection next s =
    if not (str_eq next.session_id s.session)
      || is_blank next.connection_id
      || not (valid_state next.state)
    then s
    else record s {
      connection = apply (λ c. c.connection_id) connection_newer connection_later next s.connection;
    }

abbrev pub runtime_later : RuntimeSnapshot → RuntimeSnapshot → Bool
runtime_later previous next = ltb previous.updated_at next.updated_at

unfoldable pub apply_runtime : (String → Bool) → RuntimeSnapshot → StateStore → StateStore
apply_runtime blank next s =
    if not (str_eq next.session_id s.session)
      || blank next.start_operation_id
      || next.updated_at == 0
    then s
    else record s {
      runtime = apply (λ r. r.start_operation_id) runtime_later runtime_later next s.runtime;
    }

abbrev pub mode_later : ModeState → ModeState → Bool
mode_later previous next = ltb previous.updated_at next.updated_at

abbrev pub mode_newer : ModeState → ModeState → Bool
mode_newer previous next = not (
    less next.generation previous.generation
    || (next.generation == previous.generation && not (mode_later previous next)))

abbrev pub valid_mode_state : (String → Bool) → ModeState → String → Bool
valid_mode_state blank state session =
    str_eq state.session_id session
    && not (blank state.runtime_instance_id)
    && valid state.active_mode
    && positive state.generation
    && not (state.updated_at == 0)

unfoldable pub apply_mode : (String → Bool) → ModeState → StateStore → StateStore
apply_mode blank next s =
    if not (str_eq next.session_id s.session) || not (valid_mode_state blank next s.session)
    then s
    else record s { mode = apply (λ m. m.runtime_instance_id) mode_newer mode_later next s.mode }
