-- ===== src/Interruptible/Objects/Signals/Knows.antt =====
-- What the threads know at a stage, when another thread takes a step.
use lua_mtint.Base.{
  ℕ, ◌≡◌, inl, inr, refl, sym, ◌∙◌, ap, true, false, Option, none, some, arith, ◌==◌, Bool-cases,
  if◌then◌else◌, subst,
}
use lua_mtint.Interruptible.Objects.{Hook, no_hook, interrupt_hook1, interrupt_hook2}
use lua_mtint.Interruptible.Objects.Signals.{
  SignalStage, outside, entered, tested, leaving, finalising, cleared, Signalling, dispatch_hook,
  is_inside, owns, Local, IsSound,
}

pub some_inj : {a b : Signalling} → some a ≡ some b → a ≡ b
some_inj e = cc

pub outside_of : (c : SignalStage) → is_inside c ≡ false → c ≡ outside
outside_of outside e = refl
outside_of (entered h) e = absurd (cc)
outside_of (tested h) e = absurd (cc)
outside_of (leaving b h) e = absurd (cc)
outside_of finalising e = absurd (cc)
outside_of cleared e = absurd (cc)

-- While one thread has the lock, the others are outside.
pub alone :
    (s : Signalling) (t q : ℕ)
    → IsSound s
    → is_inside (s.at t) ≡ true
    → (t == q) ≡ false
    → s.at q ≡ outside
alone s t q i holds ne = outside_of (s.at q) (i.inside q ∙ from s.lock (sym (i.inside t) ∙ holds))
  where
    from : (o : Option ℕ) → owns o t ≡ true → owns o q ≡ false
    from none e = refl
    from (some u) e = ground (arith, e, ne)

pub alone_free : (s : Signalling) (q : ℕ) → IsSound s → s.lock ≡ none → s.at q ≡ outside
alone_free s q i none_has = outside_of (s.at q) (i.inside q ∙ ap (λ o. owns o q) none_has)

module _ (s' : Signalling) (at : ℕ → SignalStage) (t : ℕ) (c : SignalStage) where
  -- One thread moves and all others are outside.
  pub moved :
      ((q : ℕ) → (t == q) ≡ false → at q ≡ outside)
      → Local s' c
      → (q : ℕ) → Local s' (if t == q then c else at q)
  moved others here q = elim (Bool-cases (t == q)) [
    | inl e ↦ subst (Local s') (ap (λ b. if b then c else at q) (sym e)) here
    | inr ne ↦ subst (Local s') (sym (ap (λ b. if b then c else at q) ne ∙ others q ne)) tt
  ]

-- The hook is called or reset, whatever the threads do.
call-Local :
    (s : Signalling) (c : SignalStage)
    → s.hook ≡ interrupt_hook1
    → Local s c
    → Local (record s { in_hook1 = true }) c
call-Local s (leaving true h) e (some_state, inl same, _) =
    (some_state, inl same, inr (inl (sym same ∙ e)))
call-Local s (leaving true h) e (some_state, inr (gone, _), _) = absurd (cc)
call-Local s outside e here = tt
call-Local s (entered h) e here = tt
call-Local s (tested h) e here = here
call-Local s (leaving false h) e here = here
call-Local s finalising e here = tt
call-Local s cleared e here = here

pub reset-Local :
    (s : Signalling) (c : SignalStage)
    → s.in_hook1 ≡ true
    → Local s c
    → Local (record s { in_hook1 = false; hook = no_hook }) c
reset-Local s (leaving true h) e (some_state, took, inl calm) = absurd (cc)
reset-Local s (leaving true h) e (some_state, took, inr why) =
    (some_state, inr (refl, why), inl refl)
reset-Local s outside e here = tt
reset-Local s (entered h) e here = tt
reset-Local s (tested h) e here = here
reset-Local s (leaving false h) e here = here
reset-Local s finalising e here = tt
reset-Local s cleared e here = here

-- A call of the hook keeps what all threads know.
pub dispatch_hook-IsSound :
    (s s' : Signalling) (h : Hook)
    → s.hook ≡ h
    → s.freed ≡ false
    → IsSound s
    → dispatch_hook h s ≡ some s'
    → IsSound s'
dispatch_hook-IsSound s s' no_hook e there i run = absurd (cc)
dispatch_hook-IsSound s s' interrupt_hook1 e there i run = subst IsSound (some_inj run) (record {
  inside = i.inside;
  local = λ q. call-Local s (s.at q) e (i.local q);
  finalised = i.finalised;
  freed = i.freed;
  calm = λ _. there;
  unbroken = i.unbroken;
})
dispatch_hook-IsSound s s' interrupt_hook2 e there i run = subst IsSound (some_inj run) i

pub freed-Local :
    (s : Signalling) (c : SignalStage) → Local s c → Local (record s { freed = true }) c
freed-Local s outside here = tt
freed-Local s (entered h) here = tt
freed-Local s (tested h) here = here
freed-Local s (leaving true h) here = here
freed-Local s (leaving false h) here = here
freed-Local s finalising here = tt
freed-Local s cleared here = here
