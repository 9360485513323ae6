-- ===== src/Examples/Signals.antt =====
-- A thread that sets a hook, which runs before the thread returns.
use lua_mtint.Base.{◌≡◌, refl, false, true, some}
use lua_mtint.Interruptible.Objects.{interrupt_hook1, no_hook}
use lua_mtint.Interruptible.Objects.Signals.{
  Signalling, entered, tested, leaving, enter, test, sethook, dispatch, reset, go, signal_step,
  fresh_object, Reachable, start, next, Signals,
}
use lua_mtint.Interruptible.Objects.Signals.Sound.{Reachable-Signals}

abbrev locked : Signalling
locked = record (fresh_object 50) { lock = some 1 }

abbrev hooked : Signalling
hooked = go 1 (leaving true interrupt_hook1) (
    go 1 (tested interrupt_hook1)
      (go 1 (entered interrupt_hook1) (record locked { hook = interrupt_hook1 })))

-- Thread 1 has set the hook, and thread 2, which runs the Lua state, has called it.
abbrev hook_has_run : Signalling
hook_has_run = record hooked { hook = no_hook }

hook_has_run-Reachable : Reachable 50 hook_has_run
unfolding signal_step
hook_has_run-Reachable =
    next {s = record hooked { in_hook1 = true }} reset 2
      (next {s = hooked} dispatch 2
        (next {s = go 1 (tested interrupt_hook1) (go 1 (entered interrupt_hook1) locked)} sethook 1
          (next {s = go 1 (entered interrupt_hook1) locked} test 1
            (next {s = fresh_object 50} (enter interrupt_hook1) 1 start refl) refl)
          refl)
        refl)
      refl

Reachable-Signals_example :
    (hook_has_run.broken ≡ false) × Signals hook_has_run (leaving true interrupt_hook1)
Reachable-Signals_example = Reachable-Signals 1 hook_has_run-Reachable
