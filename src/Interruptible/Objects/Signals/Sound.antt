-- ===== src/Interruptible/Objects/Signals/Sound.antt =====
-- The invariant of the threads that set the hook of a Lua state, or finalise what belongs to it.
use lua_mtint.Base.{
  ℕ, ◌≡◌, ◌≢◌, inl, inr, refl, sym, ◌∙◌, ap, true, false, Option, none, some, arith, ◌==◌, ◌⊎◌,
  ◌||◌, ◌&&◌, not, Bool-cases, if◌then◌else◌, subst,
}
use lua_mtint.Interruptible.Store.{Ptr, null}
use lua_mtint.Interruptible.Objects.{Hook, no_hook, interrupt_hook1}
use lua_mtint.Interruptible.Objects.Signals.{
  SignalStage, outside, entered, tested, leaving, finalising, cleared, Signalling, SignalAction,
  enter, test, sethook, leave, finalise, clear, finish, dispatch, reset, free_state, go, lock_for,
  signal_step_at, signal_step, fresh_object, Reachable, start, next, is_inside, owns, Local,
  IsSound, Signals,
}
use lua_mtint.Interruptible.Objects.Signals.Knows.{
  alone, alone_free, freed-Local, moved, reset-Local, dispatch_hook-IsSound, some_inj,
}

module _ (s s' : Signalling) (t : ℕ) (i : IsSound s) where
  -- A step of the thread that has the lock or that takes it.
  module _ (c : SignalStage) (others : (q : ℕ) → (t == q) ≡ false → s.at q ≡ outside) where
    step-IsSound :
        (new : Signalling)
        → new.at ≡ (λ q. if t == q then c else s.at q)
        → Local new c
        → owns new.lock t ≡ is_inside c
        → ((q : ℕ) → (t == q) ≡ false → owns new.lock q ≡ false)
        → (new.finalised ≡ true → new.l2 ≡ null)
        → (new.freed ≡ true → new.finalised ≡ true)
        → new.broken ≡ false
        → (new.in_hook1 ≡ true → new.freed ≡ false)
        → some new ≡ some s'
        → IsSound s'
    step-IsSound new places here owner not_owner finalised freed unbroken calm run =
        subst IsSound (some_inj run) (record {
          inside = λ q. ground (arith, places, owner, not_owner q, others q);
          local = λ q. subst (λ f. Local new (f q)) (sym places) (moved new s.at t c others here q);
          finalised = finalised;
          freed = freed;
          calm = calm;
          unbroken = unbroken;
        })

  lock_for-IsSound :
      (c : SignalStage)
      → is_inside c ≡ true
      → ((new : Signalling) → Local new c)
      → lock_for t c s ≡ some s'
      → IsSound s'
  lock_for-IsSound c holds here = from s.lock refl
    where
      from :
          (x : Option ℕ)
          → s.lock ≡ x
          → elim x [ none ↦ some (go t c (record s { lock = some t })) | some u ↦ none ] ≡ some s'
          → IsSound s'
      from none e run =
          step-IsSound c (λ q ne. alone_free s q i e) (go t c (record s { lock = some t })) refl
            (here (go t c (record s { lock = some t }))) (ground (arith, holds)) (λ q ne. ne)
            i.finalised i.freed i.unbroken i.calm run
      from (some u) e run = absurd (cc)

  -- The steps inside, which keep the lock.
  kept :
      (c : SignalStage) (new : Signalling)
      → is_inside (s.at t) ≡ true
      → is_inside c ≡ true
      → new.at ≡ (λ q. if t == q then c else s.at q)
      → new.lock ≡ s.lock
      → Local new c
      → (new.finalised ≡ true → new.l2 ≡ null)
      → (new.freed ≡ true → new.finalised ≡ true)
      → new.broken ≡ false
      → (new.in_hook1 ≡ true → new.freed ≡ false)
      → some new ≡ some s'
      → IsSound s'
  kept c new was stays places same here finalised freed unbroken calm run =
      step-IsSound c (λ q ne. alone s t q i was ne) new places here
        (ap (λ o. owns o t) same ∙ sym (i.inside t) ∙ was ∙ sym stays)
        (λ q ne. ap (λ o. owns o q) same ∙ sym (i.inside q) ∙ ap is_inside (alone s t q i was ne))
        finalised freed unbroken calm run

  set-IsReset : (h : Hook) → (s.in_hook1 ≡ false) ⊎ ((h ≡ interrupt_hook1) ⊎ (s.in_hook1 ≡ true))
  set-IsReset h = elim (Bool-cases s.in_hook1) [
    | inl called ↦ inr (inr called)
    | inr calm ↦ inl calm
  ]

  signal_step_at-IsSound :
      (c : SignalStage) (a : SignalAction)
      → s.at t ≡ c
      → signal_step_at c a t s ≡ some s'
      → IsSound s'
  unfolding signal_step_at
  signal_step_at-IsSound outside (enter h) e run = lock_for-IsSound (entered h) refl (λ new. tt) run
  signal_step_at-IsSound outside finalise e run = lock_for-IsSound finalising refl (λ new. tt) run
  signal_step_at-IsSound (entered h) test e run = elim (Bool-cases (s.l2 == null)) [
    | inl no_state ↦
        kept (leaving false h) (go t (leaving false h) s) (ap is_inside e) refl refl refl
          (ground arith) i.finalised i.freed i.unbroken i.calm (ground (arith, run, no_state))
    | inr state ↦
        kept (tested h) (go t (tested h) s) (ap is_inside e) refl refl refl (ground arith)
          i.finalised i.freed i.unbroken i.calm (ground (arith, run, state))
  ]
  signal_step_at-IsSound (tested h) sethook e run =
      let some_state : s.l2 ≢ null = subst (Local s) e (i.local t) in
      let there : s.freed ≡ false = ground (arith, i.freed, i.finalised, some_state) in
      kept (leaving true h) (go t (leaving true h) (record s { hook = h; overlapped = s.in_hook1 }))
        (ap is_inside e) refl refl refl (some_state, inl refl, set-IsReset h) i.finalised i.freed
        i.unbroken i.calm (ground (arith, run, some_state, there))
  signal_step_at-IsSound (leaving signaled h) leave e run =
      step-IsSound outside (λ q ne. alone s t q i (ap is_inside e) ne)
        (go t outside (record s { lock = none })) refl tt refl (λ q ne. refl) i.finalised i.freed
        i.unbroken i.calm run
  signal_step_at-IsSound finalising clear e run =
      kept cleared (go t cleared (record s { l2 = null })) (ap is_inside e) refl refl refl refl
        (λ _. refl) i.freed i.unbroken i.calm run
  signal_step_at-IsSound cleared finish e run =
      step-IsSound outside (λ q ne. alone s t q i (ap is_inside e) ne)
        (go t outside (record s { lock = none; finalised = true })) refl tt refl (λ q ne. refl)
        (λ _. subst (Local s) e (i.local t)) (λ _. refl) i.unbroken i.calm run
  signal_step_at-IsSound outside dispatch e run' = elim (Bool-cases (s.freed || s.in_hook1)) [
    | inl busy ↦ absurd (ground (arith, busy, run'))
    | inr ready ↦
        dispatch_hook-IsSound s s' s.hook refl (ground arith) i (ground (arith, ready, run'))
  ]
  signal_step_at-IsSound outside reset e run' = elim (Bool-cases s.in_hook1) [
    | inr calm ↦ absurd (ground (arith, calm, run'))
    | inl called ↦
        let there : s.freed ≡ false = i.calm called in
        let same : some (record s { in_hook1 = false; hook = no_hook }) ≡ some s' =
          ground (arith, called, there, run') in
        subst IsSound (some_inj same) (record {
          inside = i.inside;
          local = λ q. reset-Local s (s.at q) called (i.local q);
          finalised = i.finalised;
          freed = i.freed;
          calm = λ h. absurd (cc);
          unbroken = i.unbroken;
        })
  ]
  signal_step_at-IsSound outside free_state e run' =
      elim (Bool-cases (s.finalised && not s.in_hook1)) [
        | inr still ↦ absurd (ground (arith, still, run'))
        | inl done ↦
            let same : some (record s { freed = true }) ≡ some s' = ground (arith, done, run') in
            subst IsSound (some_inj same) (record {
              inside = i.inside;
              local = λ q. freed-Local s (s.at q) (i.local q);
              finalised = i.finalised;
              freed = λ _. ground arith;
              calm = λ h. absurd (ground (arith, done));
              unbroken = i.unbroken;
            })
      ]
  signal_step_at-IsSound _ _ e run' = absurd (cc)

fresh_object-IsSound : (p : Ptr) → IsSound (fresh_object p)
fresh_object-IsSound p = record {
  inside = λ t. refl;
  local = λ t. tt;
  finalised = λ e. absurd (cc);
  freed = λ e. absurd (cc);
  calm = λ e. absurd (cc);
  unbroken = refl;
}

Reachable-IsSound : {p : Ptr} {s : Signalling} → Reachable p s → IsSound s
unfolding signal_step
Reachable-IsSound {p} start = fresh_object-IsSound p
Reachable-IsSound (next {s} {s'} a t r run) =
    signal_step_at-IsSound s s' t (Reachable-IsSound r) (s.at t) a refl run

IsSound-Signals : {s : Signalling} (c : SignalStage) → IsSound s → Local s c → Signals s c
IsSound-Signals outside i here = tt
IsSound-Signals (entered h) i here = tt
IsSound-Signals (tested h) i here = tt
IsSound-Signals {s} (leaving true h) i (some_state, took, _) =
    (some_state, ground (arith, i.freed, i.finalised, some_state), took)
IsSound-Signals (leaving false h) i here = here
IsSound-Signals finalising i here = tt
IsSound-Signals cleared i here = tt

-- Whatever threads interrupt a Lua state, call its hook, finalise its user data and free it, in any order of
-- their steps: lua_sethook is never called on NULL or on a Lua state that is freed. A thread that is about to
-- return true finds the Lua state not yet freed, with the hook that it has set; or with none, if that was
-- interruptHook1, or if Lua was between the call of interruptHook1 and its reset of the hook when the thread
-- set its own. A thread that is about to return false finds that L2 is NULL.
pub Reachable-Signals :
    {p : Ptr} {s : Signalling} (t : ℕ) → Reachable p s → (s.broken ≡ false) × Signals s (s.at t)
Reachable-Signals {p} {s} t r =
    let i = Reachable-IsSound r in (i.unbroken, IsSound-Signals (s.at t) i (i.local t))
