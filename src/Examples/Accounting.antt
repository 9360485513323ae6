-- ===== src/Examples/Accounting.antt =====
-- The theorems on reference counts, applied to two objects with one reference each, and to a first object.
use lua_mtint.Base.{inl, refl, arith, ◌==◌, true, false, none, some, if◌then◌else◌}
use lua_mtint.Atomic.{inc32}
use lua_mtint.Interruptible.Buckets.{register, should_grow, rebuild, new_buckets, to_buckets}
use lua_mtint.Interruptible.Table.{Chains}
use lua_mtint.Interruptible.Objects.{World, Outcome, returns, raises, faults}
use lua_mtint.Interruptible.Objects.Accounting.{Accounted}
use lua_mtint.Interruptible.Objects.Accounting.Events.{Event, assures, perform, Allowed, Ends}
use lua_mtint.Interruptible.Objects.Accounting.Runs.{
  fresh_world, start, performed, Reachable-Accounted,
}
use lua_mtint.Examples.Objects.{world, guard}

abbrev two_references : World
two_references = record world {
  udata = λ u.
      if u == 0
      then some guard
      else if u == 1
      then some (record { interruptible = 2; is_main_guard = false })
      else none;
}

abbrev world_after : Outcome (Unit {0}) → World
world_after (returns x w) = w
world_after (raises x w) = w
world_after (faults x) = fresh_world 0

-- mtint.id() in the main thread, whose Lua state is at address 50
abbrev first_id : Event
first_id = assures 0 1 100 50 true

first_id-Allowed : Allowed 1 (fresh_world 77) first_id
first_id-Allowed = (
  omega arith,
  refl,
  (λ ne. refl),
  omega arith,
  (λ ne. refl),
  inl (omega arith),
  (λ v e. absurd (cc)),
)

first_id-Ends :
    Ends (perform first_id (fresh_world 77)) (world_after (perform first_id (fresh_world 77)))
unfolding perform register should_grow rebuild new_buckets to_buckets inc32
first_id-Ends = inl refl

Reachable-Accounted_example :
    (chain : Chains) × Accounted 1 (world_after (perform first_id (fresh_world 77))) chain
Reachable-Accounted_example =
    Reachable-Accounted {n = 1} {seed = 77} (omega arith) (omega arith)
      (performed first_id first_id-Allowed first_id-Ends start)
