-- ===== src/Gate/Drain.antt =====
-- services/realtime-audio/command/gate.go: the workers that a `Cancel` finds.
use xe6_tsy.Common.{ℕ, ◌+◌, none, some, List, [], ◌∷◌}
use xe6_tsy.Gate.{
  Phase, finishing, processing, concluded, publishing, completing, Worker, Deps, Gate,
}
use xe6_tsy.Gate.Calls.{Call, opening, consuming, replaying, expiring, working, canceling, step}
use xe6_tsy.Gate.Recognition.{find}

-- The steps that a worker has before it at most.
abbrev left : Phase → ℕ
left finishing = 5
left (processing t) = 4
left (concluded o) = 3
left (publishing o) = 2
left completing = 1

abbrev backlog : List Worker → ℕ
backlog [] = 0
backlog (w ∷ ws) = left w.phase + backlog ws

-- Whether the call is a step of a worker that is there.
abbrev took : Call → Gate → ℕ
took (working env a) g = elim (find a g.tasks) [ none ↦ 0 | some w ↦ 1 ]
took (opening now q) g = 0
took (consuming env f) g = 0
took (replaying fs) g = 0
took (expiring now a f) g = 0
took canceling g = 0

-- How many of the calls are.
unfoldable pub steps_taken : Deps → List Call → Gate → ℕ
steps_taken d [] g = 0
steps_taken d (call ∷ calls) g = took call g + steps_taken d calls (step d call g)
