-- ===== src/Examples/Startup.antt =====
-- Two threads load the library.
use lua_mtint.Base.{ℕ, ◌≡◌, ◌≤◌, ◌<◌, refl, true, false, arith, List, [], ◌∷◌, ◌++◌}
use lua_mtint.Sync.{Mutex, stdthread, returned, taken, unlocked}
use lua_mtint.Sync.Locks.{async_lock_init, async_lock_acquire}
use lua_mtint.Sync.Mutexes.{async_mutex_init, async_mutex_lock, async_mutex_wait_millis}
use lua_mtint.Sync.Destruct.{wait_round, async_mutex_destruct}
use lua_mtint.Startup.Progress.{Turn, run, occurrences}
use lua_mtint.Startup.Progress.Schedule.{run-entered}
use lua_mtint.Startup.{
  Loading, step, step_from, unloaded, Reachable, start, next, entered, Reachable-entered,
}
use lua_mtint.Examples.Sync.{primitives}

abbrev forward : ℕ → Loading → Loading
unfolding step
forward t s = step primitives stdthread 0 0 t s

-- Thread 1 is ahead; thread 0 comes to the loop, waits for two rounds, and passes.
abbrev loaded : Loading
loaded = forward 0 (
    forward 0 (
      forward 1 (
        forward 0 (
          forward 0 (
            forward 1 (
              forward 0 (
                forward 1
                  (forward 1 (forward 0 (forward 0 (forward 1 (forward 1 unloaded))))))))))))

loaded-Reachable : Reachable primitives stdthread loaded
unfolding step
loaded-Reachable = next 0 0 0 (
    next 0 0 0 (
      next 0 0 1 (
        next 0 0 0 (
          next 0 0 0 (
            next 0 0 1 (
              next 0 0 0 (
                next 0 0 1
                  (next 0 0 1 (next 0 0 0 (next 0 0 0 (next 0 0 1 (next 0 0 1 start))))))))))))

loaded-entered : loaded.at 0 ≡ entered
unfolding step step_from wait_round async_mutex_init async_mutex_lock async_mutex_wait_millis
    async_lock_init async_lock_acquire async_mutex_destruct
loaded-entered = refl

Reachable-entered_example : (loaded.mutex_inits ≡ 1) × (loaded.global_lock ≡ true)
Reachable-entered_example = Reachable-entered loaded-Reachable 0 loaded-entered

-- Two threads, each five steps; then thread 0 twice more.
abbrev turn : ℕ → Turn
turn t = record { thread = t; sec = 12; usec = 500 }

abbrev schedule : List Turn
schedule =
    turn 1 ∷ turn 0 ∷ turn 1 ∷ turn 0 ∷ turn 0 ∷ turn 1 ∷ turn 1 ∷ turn 0 ∷ turn 0 ∷ turn 1 ∷ []

schedule-others : (q : ℕ) → 2 ≤ q → occurrences q schedule ≡ 0
schedule-others q above = ground arith

schedule-often : (q : ℕ) → q < 2 → 5 ≤ occurrences q schedule
schedule-often q below = ground arith

-- The timed wait comes to its end with its timeout.
round-returns :
    (t sec usec : ℕ) → (x : Mutex) × (wait_round primitives stdthread t sec usec ≡ returned x)
unfolding wait_round async_mutex_init async_mutex_lock async_mutex_wait_millis async_lock_init
    async_lock_acquire
round-returns t sec usec =
    (record { mutex = taken t unlocked; waiting_counter = 0; event = false }, refl)

run-entered_example :
    ((run primitives stdthread schedule unloaded).init_stage ≡ 2)
    × ((run primitives stdthread schedule unloaded).mutex_inits ≡ 1)
    × ((run primitives stdthread (schedule ++ turn 0 ∷ turn 0 ∷ []) unloaded).at 0 ≡ entered)
run-entered_example =
    run-entered primitives stdthread (λ e. cc) round-returns 2 0 schedule (turn 0 ∷ turn 0 ∷ [])
      schedule-others schedule-often (omega arith) (omega arith)
