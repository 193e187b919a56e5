-- ===== src/Gate/Memory.antt =====
-- services/realtime-audio/command/gate.go: the command IDs that the gate remembers.
use xe6_tsy.Common.{
  Bool, false, ◌≡◌, Option, none, some, String, List, [], ◌∷◌, ◌++◌, if◌then◌else◌, ◌==◌, length,
}
use xe6_tsy.Gate.{Deps, Gate}
use xe6_tsy.Gate.Calls.{
  Error, command_id_retention_limit, forget_oldest, open_gate, Call, opening, step,
}
use xe6_tsy.Gate.Settles.{Settles}
use xe6_tsy.Gate.Recent.{contains, newest, tail, Distinct}

-- The order and the set of the IDs, after a history of accepted ones.
record Remembers (history order : List String) (seen : String → Bool) : Type 0 where
  order_is : order ≡ newest 256 history
  seen_is : (id : String) → seen id ≡ contains id order
  distinct : Distinct order

abbrev shrunk : List String → (String → Bool) → List String × (String → Bool)
shrunk order seen =
    if length order == command_id_retention_limit then forget_oldest order seen else (order, seen)

-- Making room keeps the set that of the order.
record Room (order : List String) (kept : List String × (String → Bool)) : Type 0 where
  shorter : kept.0 ≡ (if length order == 256 then tail order else order)
  seen_is : (id : String) → kept.1 id ≡ contains id kept.0
  distinct : Distinct kept.0
  absent : (x : String) → contains x order ≡ false → contains x kept.0 ≡ false

-- The IDs that a call, and calls, open attempts for.
abbrev granted : String → Option Error → List String
granted id none = id ∷ []
granted id (some e) = []

unfoldable pub accepted_ids : Deps → Call → Gate → List String
accepted_ids d (opening now q) g = granted q.command_id (open_gate d now q g).1
accepted_ids d call g = []

unfoldable pub accepted : Deps → List Call → Gate → List String
accepted d [] g = []
accepted d (call ∷ calls) g = accepted_ids d call g ++ accepted d calls (step d call g)

abbrev Recalls : List String → Gate → Type 0
Recalls history g = Remembers history g.command_id_order g.seen_command_ids
