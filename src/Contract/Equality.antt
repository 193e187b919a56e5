-- ===== src/Contract/Equality.antt =====
-- The comparisons of packages/contracts/realtime/v1/mode.go decide equality.
use xe6_tsy.Common.{◌≡◌, ◌↔◌, refl, true, arith, str_eq_iff}
use xe6_tsy.Contract.Mode.{
  Mode, assistant, interpretation, other, mode_eq, SwitchCommand, command_eq,
}

pub mode_eq_iff : (m n : Mode) → (mode_eq m n ≡ true) ↔ (m ≡ n)
unfolding mode_eq
mode_eq_iff assistant assistant = ground arith
mode_eq_iff assistant interpretation = ground arith
mode_eq_iff assistant (other t) = ground arith
mode_eq_iff interpretation assistant = ground arith
mode_eq_iff interpretation interpretation = ground arith
mode_eq_iff interpretation (other t) = ground arith
mode_eq_iff (other s) assistant = ground arith
mode_eq_iff (other s) interpretation = ground arith
mode_eq_iff (other s) (other t) = ground (arith, str_eq_iff s t)

pub mode_eq_refl : (m : Mode) → mode_eq m m ≡ true
mode_eq_refl m = (mode_eq_iff m m).1 refl

pub command_eq_iff : (a b : SwitchCommand) → (command_eq a b ≡ true) ↔ (a ≡ b)
unfolding command_eq
command_eq_iff a b = ground (
  arith,
  str_eq_iff a.session_id b.session_id,
  str_eq_iff a.runtime_instance_id b.runtime_instance_id,
  str_eq_iff a.operation_id b.operation_id,
  str_eq_iff a.trace_id b.trace_id,
  mode_eq_iff a.target_mode b.target_mode,
)

pub command_eq_refl : (a : SwitchCommand) → command_eq a a ≡ true
command_eq_refl a = (command_eq_iff a a).1 refl
