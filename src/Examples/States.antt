-- ===== src/Examples/States.antt =====
-- Lua states that load the library, one of them twice, and close.
use lua_mtint.Base.{◌+◌, ◌*◌, ◌^◌, ◌<◌, ◌≡◌, refl, arith}
use lua_mtint.Base.Int.{pos, signed32}
use lua_mtint.Atomic.{inc32}
use lua_mtint.Startup.Seed.{ByteView, id_seed, id_seed-lt}
use lua_mtint.Startup.States.{
  Module, opens, closes, takes_id, step, unloaded, Reachable, start, opened, closed, counted,
  open_states, Reachable-state_counter,
}

abbrev busy : Module
unfolding step
busy =
    step (closes 0)
      (step takes_id (step (opens 9 1) (step (opens 8 1) (step (opens 7 0) unloaded))))

busy-Reachable : Reachable 2 busy
unfolding busy step
busy-Reachable = closed 0 (omega arith) refl (
    counted refl
      (opened 9 1 (omega arith) (opened 8 1 (omega arith) (opened 7 0 (omega arith) start))))

Reachable-state_counter_example : busy.state_counter ≡ open_states 2 busy.sentinel
Reachable-state_counter_example = Reachable-state_counter busy-Reachable

abbrev address : ByteView
address = record { size = 8; byte = λ i. 16 * i + 3 }

abbrev time : ByteView
time = record { size = 8; byte = λ i. 30 * i + 1 }

id_seed-lt_example :
    (id_seed address time < 2 ^ 24)
    × (signed32 (inc32 (id_seed address time + 100)) ≡ pos (id_seed address time + 100 + 1))
id_seed-lt_example = id_seed-lt address time 100 (omega arith)
