-- ===== src/Interruptible/Objects/Signals.antt =====
-- mtint_interrupt by any number of threads, while the Lua state calls its hook, or is finalised and
-- freed: one access to memory, to the lock of the object or to the hook to a step. The threads hold references, so that the
-- object itself stays.
pub mod Knows
pub mod Sound
use lua_mtint.Base.{
  ℕ, ◌≡◌, ◌≢◌, ◌⊎◌, inl, inr, refl, sym, ◌∙◌, ap, Bool, true, false, ◌||◌, ◌&&◌, not, Option, none,
  some, arith, ◌==◌, Bool-cases, if◌then◌else◌, subst, subst,
}
use lua_mtint.Interruptible.Store.{Ptr, null}
use lua_mtint.Interruptible.Objects.{Hook, no_hook, interrupt_hook1, interrupt_hook2}

-- Where a thread is: in neither function; in mtint_interrupt with the lock, with a hook to set, before the test of
-- L2, behind it, or with the result; or in a finalizer with the lock, before and after L2 = NULL.
pub data SignalStage : Type 0 where
  outside : SignalStage
  entered : Hook → SignalStage
  tested : Hook → SignalStage
  leaving : (signaled : Bool) → Hook → SignalStage
  finalising : SignalStage
  cleared : SignalStage

-- The lock, L2 and the Lua state. `in_hook1` from when Lua has called interruptHook1 until it has reset
-- the hook, and `broken` after a call of lua_sethook on NULL or on a state that is freed. `overlapped` is
-- not in the code: it says that the hook was last set while `in_hook1`.
pub record Signalling : Type 0 where
  pub lock : Option ℕ
  pub l2 : Ptr
  pub hook : Hook
  pub in_hook1 : Bool
  pub overlapped : Bool
  pub finalised : Bool
  pub freed : Bool
  pub broken : Bool
  pub at : ℕ → SignalStage

pub data SignalAction : Type 0 where
  enter : Hook → SignalAction
  test : SignalAction
  sethook : SignalAction
  leave : SignalAction
  finalise : SignalAction
  clear : SignalAction
  finish : SignalAction
  dispatch : SignalAction
  reset : SignalAction
  free_state : SignalAction

abbrev pub go : ℕ → SignalStage → Signalling → Signalling
go t c s = record s { at = λ q. if t == q then c else s.at q }

-- async_lock_acquire, which waits while another thread has the lock
abbrev pub lock_for : ℕ → SignalStage → Signalling → Option Signalling
lock_for t c s = elim s.lock [ none ↦ some (go t c (record s { lock = some t })) | some u ↦ none ]

-- lua_sethook on the Lua state that L2 is
abbrev pub set : Hook → Signalling → Signalling
set h s =
    if s.l2 == null || s.freed
    then record s { broken = true }
    else record s { hook = h; overlapped = s.in_hook1 }

-- Lua calls its hook. interruptHook2 changes nothing here.
abbrev pub dispatch_hook : Hook → Signalling → Option Signalling
dispatch_hook no_hook s = none
dispatch_hook interrupt_hook1 s = some (record s { in_hook1 = true })
dispatch_hook interrupt_hook2 s = some s

-- `lua_sethook(L2, NULL, 0, 0)` in interruptHook1, which is not under the lock.
abbrev pub reset_hook : Signalling → Signalling
reset_hook s =
    if s.freed
    then record s { in_hook1 = false; broken = true }
    else record s { in_hook1 = false; hook = no_hook }

-- What thread `t` does by an action at a stage; `none` where it has to wait or the code does not do it.
-- The Lua state calls its hook until it is freed, and no hook while one is called. It is freed only after it
-- has finalised its user data, and not while it calls its hook.
unfoldable pub signal_step_at : SignalStage → SignalAction → ℕ → Signalling → Option Signalling
signal_step_at outside (enter h) t s = lock_for t (entered h) s
signal_step_at (entered h) test t s =
    some (go t (if s.l2 == null then leaving false h else tested h) s)
signal_step_at (tested h) sethook t s = some (go t (leaving true h) (set h s))
signal_step_at (leaving signaled h) leave t s = some (go t outside (record s { lock = none }))
signal_step_at outside finalise t s = lock_for t finalising s
signal_step_at finalising clear t s = some (go t cleared (record s { l2 = null }))
signal_step_at cleared finish t s = some (go t outside (record s { lock = none; finalised = true }))
signal_step_at outside dispatch t s = if s.freed || s.in_hook1 then none else dispatch_hook s.hook s
signal_step_at outside reset t s = if s.in_hook1 then some (reset_hook s) else none
signal_step_at outside free_state t s =
    if s.finalised && not s.in_hook1 then some (record s { freed = true }) else none
signal_step_at _ _ t s = none

unfoldable pub signal_step : SignalAction → ℕ → Signalling → Option Signalling
unfolding signal_step_at
signal_step a t s = signal_step_at (s.at t) a t s

-- An object of the Lua state at `p`.
abbrev pub fresh_object : Ptr → Signalling
fresh_object p = record {
  lock = none;
  l2 = p;
  hook = no_hook;
  in_hook1 = false;
  overlapped = false;
  finalised = false;
  freed = false;
  broken = false;
  at = λ t. outside;
}

pub data Reachable (p : Ptr) : Signalling → Type 0 where
  start : Reachable p (fresh_object p)
  next :
      {s s' : Signalling} (a : SignalAction) (t : ℕ)
      → Reachable p s
      → signal_step a t s ≡ some s'
      → Reachable p s'

abbrev pub is_inside : SignalStage → Bool
is_inside outside = false
is_inside _ = true

abbrev pub owns : Option ℕ → ℕ → Bool
owns none t = false
owns (some u) t = u == t

-- What may have reset the hook that was set: interruptHook1 itself, after it was called, or an earlier
-- call of interruptHook1.
abbrev pub IsReset : Hook → Signalling → Type 0
IsReset h s = (h ≡ interrupt_hook1) ⊎ (s.overlapped ≡ true)

-- The hook is still the one that was set, or is reset.
abbrev pub Took : Hook → Signalling → Type 0
Took h s = (s.hook ≡ h) ⊎ ((s.hook ≡ no_hook) × IsReset h s)

-- What holds for the thread that has the lock.
abbrev pub Local : Signalling → SignalStage → Type 0
Local s (tested h) = s.l2 ≢ null
Local s (leaving true h) = (s.l2 ≢ null) × Took h s × ((s.in_hook1 ≡ false) ⊎ IsReset h s)
Local s (leaving false h) = s.l2 ≡ null
Local s cleared = s.l2 ≡ null
Local s _ = Unit

pub record IsSound (s : Signalling) : Type 0 where
  pub inside : (t : ℕ) → is_inside (s.at t) ≡ owns s.lock t
  pub local : (t : ℕ) → Local s (s.at t)
  pub finalised : s.finalised ≡ true → s.l2 ≡ null
  pub freed : s.freed ≡ true → s.finalised ≡ true
  pub calm : s.in_hook1 ≡ true → s.freed ≡ false
  pub unbroken : s.broken ≡ false

-- What a thread that is about to return knows.
abbrev pub Signals : Signalling → SignalStage → Type 0
Signals s (leaving true h) = (s.l2 ≢ null) × (s.freed ≡ false) × Took h s
Signals s (leaving false h) = s.l2 ≡ null
Signals s _ = Unit
