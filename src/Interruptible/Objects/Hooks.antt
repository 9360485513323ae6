-- ===== src/Interruptible/Objects/Hooks.antt =====
-- The hooks that run on an interrupted Lua state, and Mtint_setHook, which says what they call.
use lua_mtint.Base.{
  ◌≡◌, ◌≢◌, inl, inr, refl, sym, ◌∙◌, ap, Bool, true, false, none, some, Option, arith, ◌==◌,
  Bool-cases, subst,
}
use lua_mtint.Base.Int.{ℤ}
use lua_mtint.Interruptible.Store.{Ptr, null, MtInterruptible, update}
use lua_mtint.Interruptible.Objects.{
  World, Hook, no_hook, interrupt_hook1, interrupt_hook2, Outcome, returns, raises, faults,
  existing, create, set_hook, then_do, Flag, none_or_nil, boolean, other, hook_of, mtint_interrupt,
}
use lua_mtint.Interruptible.Chain.{IsNat}
use lua_mtint.Interruptible.Table.{Chains}
use lua_mtint.Interruptible.Table.Valid.{IsValid}
use lua_mtint.Interruptible.Objects.Interrupt.{IsReferenced, IsKnown, mtint_interrupt_lem}

-- The first field of each user value: the function that Mtint_setHook was given, or nil.
abbrev pub Handlers : Type 0
Handlers = Ptr → Option Ptr

-- What the hook does: it calls a function, or raises mtint.error.interrupted.
pub data Reaction : Type 0 where
  calls : (func : Ptr) → Reaction
  raises_interrupted : Reaction

abbrev pub reaction_to : Option Ptr → Reaction
reaction_to none = raises_interrupted
reaction_to (some func) = calls func

-- interruptHookCommon, on the Lua state `l2`
unfoldable pub interrupt_hook_common : (l2 : Ptr) → World → Handlers → Reaction
interrupt_hook_common l2 w handlers = elim (w.lookup l2) [
  | none ↦ raises_interrupted
  | some u ↦ elim (handlers u) [ none ↦ raises_interrupted | some func ↦ calls func ]
]

-- The hook of `l2`, when Lua calls it: interruptHook1, interruptHook2, or none.
unfoldable pub run_hook : (l2 : Ptr) → World → Handlers → Option Reaction × World
unfolding interrupt_hook_common
run_hook l2 w handlers = elim (w.hook l2) [
  | no_hook ↦ (none, w)
  | interrupt_hook1 ↦
      let w' = set_hook l2 no_hook w in (some (interrupt_hook_common l2 w' handlers), w')
  | interrupt_hook2 ↦ (some (interrupt_hook_common l2 w handlers), w)
]

-- Mtint_setHook; `func` is `none` for nil. A new object has a new, empty user value.
unfoldable pub mtint_set_hook :
    (u intrp fresh l2 : Ptr) (is_main : Bool) (func : Option Ptr)
    → World
    → Handlers
    → Outcome Handlers
unfolding existing create
mtint_set_hook u intrp fresh l2 is_main func w handlers = then_do (existing l2 w) (λ found w0.
    elim found [
      | some v ↦ returns (update handlers v func) w0
      | none ↦
          then_do (create u intrp fresh l2 is_main w0)
            (λ v w1. returns (update (update handlers v none) v func) w1)
    ])

create-lookup :
    (u intrp fresh l2 v : Ptr) (is_main : Bool) (w w' : World)
    → create u intrp fresh l2 is_main w ≡ returns v w'
    → w'.lookup l2 ≡ some v
unfolding create
create-lookup u intrp fresh l2 v is_main w w' run = ground (arith, run)

existing-lookup :
    (l2 v : Ptr) (w w' : World) → existing l2 w ≡ returns (some v) w' → w'.lookup l2 ≡ some v
unfolding existing
existing-lookup l2 v w w' run = ground (arith, run)

returns_inj :
    {A : Type 0} {a b : A} {w w' : World} → returns a w ≡ returns b w' → (a ≡ b) × (w ≡ w')
returns_inj e = (cc, cc)

interrupt_hook_common-some :
    (l2 v : Ptr) (w : World) (handlers : Handlers)
    → w.lookup l2 ≡ some v
    → interrupt_hook_common l2 w handlers ≡ reaction_to (handlers v)
unfolding interrupt_hook_common
interrupt_hook_common-some l2 v w handlers at = ground (arith, at)

module _ (l2 : Ptr) (func : Option Ptr) (w' : World) (handlers' : Handlers) where
  -- The handler of the user data that the lookup table has is the new one.
  reaction_after :
      (v : Ptr) (w : World) (handlers : Handlers)
      → w.lookup l2 ≡ some v
      → returns (update handlers v func) w ≡ returns handlers' w'
      → interrupt_hook_common l2 w' handlers' ≡ reaction_to func
  reaction_after v w handlers at done =
      let (set', same) = returns_inj done in
      interrupt_hook_common-some l2 v w' handlers' (ap (λ (x : World). x.lookup l2) (sym same) ∙ at)
      ∙ ap reaction_to (ap (λ (k : Handlers). k v) (sym set') ∙ ground arith)

  module _ (u intrp fresh : Ptr) (is_main : Bool) (handlers : Handlers) where
    after_create :
        (w : World) (made : Outcome Ptr)
        → create u intrp fresh l2 is_main w ≡ made
        → then_do made (λ v w1. returns (update (update handlers v none) v func) w1)
          ≡ returns handlers' w'
        → interrupt_hook_common l2 w' handlers' ≡ reaction_to func
    after_create w (returns v w1) e done =
        reaction_after v w1 (update handlers v none)
          (create-lookup u intrp fresh l2 v is_main w w1 e) done
    after_create w (raises x w1) e done = absurd (cc)
    after_create w (faults x) e done = absurd (cc)

    after_existing :
        (w : World) (found : Outcome (Option Ptr))
        → existing l2 w ≡ found
        → then_do found (λ found' w0. elim found' [
          | some v ↦ returns (update handlers v func) w0
          | none ↦
              then_do
                (create u intrp fresh l2 is_main w0)
                (λ v w1. returns (update (update handlers v none) v func) w1)
        ])
          ≡ returns handlers' w'
        → interrupt_hook_common l2 w' handlers' ≡ reaction_to func
    after_existing w (returns (some v) w0) e done =
        reaction_after v w0 handlers (existing-lookup l2 v w w0 e) done
    after_existing w (returns none w0) e done = after_create w0 _ refl done
    after_existing w (raises x w0) e done = absurd (cc)
    after_existing w (faults x) e done = absurd (cc)

-- If Mtint_setHook returns, for a Lua state that had an object or not, a hook on that Lua state calls
-- the function that was given; given nil, it raises the error.
pub interrupt_hook_common-mtint_set_hook :
    (u intrp fresh l2 : Ptr) (is_main : Bool) (func : Option Ptr) (w w' : World)
    (handlers handlers' : Handlers)
    → mtint_set_hook u intrp fresh l2 is_main func w handlers ≡ returns handlers' w'
    → interrupt_hook_common l2 w' handlers' ≡ reaction_to func
unfolding mtint_set_hook
interrupt_hook_common-mtint_set_hook u intrp fresh l2 is_main func w w' handlers handlers' run =
    after_existing l2 func w' handlers' u intrp fresh is_main handlers w _ refl run

-- How often the hook comes.
abbrev Reacts : (l2 : Ptr) → World → Handlers → Hook → Type 0
Reacts l2 w handlers no_hook = run_hook l2 w handlers ≡ (none, w)
Reacts l2 w handlers interrupt_hook1 =
    ((run_hook l2 w handlers).0 ≡ some (interrupt_hook_common l2 w handlers))
    × ((run_hook l2 (run_hook l2 w handlers).1 handlers).0 ≡ none)
Reacts l2 w handlers interrupt_hook2 =
    run_hook l2 w handlers ≡ (some (interrupt_hook_common l2 w handlers), w)

set_hook-Reacts :
    (l2 : Ptr) (h : Hook) (w : World) (handlers : Handlers) → Reacts l2 (set_hook l2 h w) handlers h
unfolding run_hook interrupt_hook_common
set_hook-Reacts l2 no_hook w handlers = ground arith
set_hook-Reacts l2 interrupt_hook1 w handlers = (ground arith, ground arith)
set_hook-Reacts l2 interrupt_hook2 w handlers = ground arith

-- The same, by the flag that was given. Any other value is refused.
abbrev pub ReactsAs : (l2 : Ptr) → World → Handlers → Flag → Type 0
ReactsAs l2 w handlers none_or_nil =
    ((run_hook l2 w handlers).0 ≡ some (interrupt_hook_common l2 w handlers))
    × ((run_hook l2 (run_hook l2 w handlers).1 handlers).0 ≡ none)
ReactsAs l2 w handlers (boolean true) =
    run_hook l2 w handlers ≡ (some (interrupt_hook_common l2 w handlers), w)
ReactsAs l2 w handlers (boolean false) = run_hook l2 w handlers ≡ (none, w)
ReactsAs l2 w handlers other = ⊥

module _ (w : World) {chain : Chains} (v : IsValid w.store chain) (r : IsReferenced w.store chain)
    (fresh : Ptr) (id : ℤ) (nat : IsNat id) (handlers : Handlers) (w' : World) where
  mtint_interrupt-Reacts :
      (flag : Flag) (h : Hook)
      → hook_of flag ≡ some h
      → mtint_interrupt fresh id flag w ≡ returns true w'
      → (p : Ptr) × (o : MtInterruptible) × IsKnown w v r id nat p o
        × (o.l2 ≢ null)
        × Reacts o.l2 w' handlers h
  mtint_interrupt-Reacts flag h e run = elim (mtint_interrupt_lem w v r fresh id nat flag h e) [
    | inl (failed, _) ↦ absurd (cc)
    | inr (p, o, known, done) ↦ elim (Bool-cases (o.l2 == null)) [
      | inl gone ↦ absurd (ground (arith, done, run))
      | inr here ↦
          let same : set_hook o.l2 h w ≡ w' = ground (arith, done, run) in
          (
            p,
            o,
            known,
            ground arith,
            subst (λ x. Reacts o.l2 x handlers h) same (set_hook-Reacts o.l2 h w handlers),
          )
    ]
  ]

-- In a valid table of initialised and referenced objects, with an id that is not negative: if
-- Mtint_interrupt returns true, then the flag was none, nil or a boolean, and the Lua state of a live
-- object with the id reacts, once if no flag was given, at every hook if the flag is true, and not at
-- all if it is false.
pub mtint_interrupt-ReactsAs :
    (w : World) {chain : Chains} (v : IsValid w.store chain) (r : IsReferenced w.store chain)
    (fresh : Ptr) (id : ℤ) (nat : IsNat id) (flag : Flag) (handlers : Handlers) (w' : World)
    → mtint_interrupt fresh id flag w ≡ returns true w'
    → (p : Ptr) × (o : MtInterruptible) × IsKnown w v r id nat p o
      × (o.l2 ≢ null)
      × ReactsAs o.l2 w' handlers flag
unfolding mtint_interrupt
mtint_interrupt-ReactsAs w v r fresh id nat none_or_nil handlers w' run =
    mtint_interrupt-Reacts w v r fresh id nat handlers w' none_or_nil interrupt_hook1 refl run
mtint_interrupt-ReactsAs w v r fresh id nat (boolean true) handlers w' run =
    mtint_interrupt-Reacts w v r fresh id nat handlers w' (boolean true) interrupt_hook2 refl run
mtint_interrupt-ReactsAs w v r fresh id nat (boolean false) handlers w' run =
    mtint_interrupt-Reacts w v r fresh id nat handlers w' (boolean false) no_hook refl run
mtint_interrupt-ReactsAs w v r fresh id nat other handlers w' run = absurd (cc)
