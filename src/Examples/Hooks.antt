-- ===== src/Examples/Hooks.antt =====
-- An object is interrupted, and its Lua state has a handler.
use lua_mtint.Base.{◌≡◌, ◌≢◌, refl, true, none, some, ◌==◌, if◌then◌else◌}
use lua_mtint.Base.Int.{pos}
use lua_mtint.Atomic.{inc32, dec32}
use lua_mtint.Interruptible.Buckets.{find_interruptible_with_id}
use lua_mtint.Interruptible.Store.{Ptr, null, MtInterruptible, update}
use lua_mtint.Interruptible.Objects.{
  World, interrupt_hook1, none_or_nil, returns, existing, set_hook, mtint_interrupt,
}
use lua_mtint.Interruptible.Objects.Interrupt.{IsKnown, with_object}
use lua_mtint.Interruptible.Objects.Hooks.{
  Handlers, ReactsAs, interrupt_hook_common, reaction_to, mtint_set_hook, mtint_interrupt-ReactsAs,
  interrupt_hook_common-mtint_set_hook,
}
use lua_mtint.Examples.Stores.{first_object, two_objects-IsValid}
use lua_mtint.Examples.Objects.{world, two_objects-IsReferenced}

abbrev handlers : Handlers
handlers u = if u == 500 then some 900 else none

-- The object at address 1 has the Lua state 50 already.
known_set_hook :
    mtint_set_hook 600 9 200 50 true (some 901) world handlers
    ≡ returns (update handlers 500 (some 901)) world
unfolding mtint_set_hook existing
known_set_hook = refl

interrupt_hook_common-mtint_set_hook_example :
    interrupt_hook_common 50 world (update handlers 500 (some 901)) ≡ reaction_to (some 901)
interrupt_hook_common-mtint_set_hook_example =
    interrupt_hook_common-mtint_set_hook 600 9 200 50 true (some 901) world world handlers
      (update handlers 500 (some 901)) known_set_hook

-- The reference count goes up and down again.
abbrev interrupted : World
interrupted =
    with_object
      (set_hook 50 interrupt_hook1 (with_object world 1 (record first_object { used = 2 }))) 1
      first_object

world_interrupt : mtint_interrupt 200 (pos 1) none_or_nil world ≡ returns true interrupted
unfolding mtint_interrupt find_interruptible_with_id inc32 dec32
world_interrupt = refl

mtint_interrupt-ReactsAs_example :
    (p : Ptr) × (o : MtInterruptible) × IsKnown world two_objects-IsValid two_objects-IsReferenced
      (pos 1)
      refl
      p
      o
    × (o.l2 ≢ null)
    × ReactsAs o.l2 interrupted handlers none_or_nil
mtint_interrupt-ReactsAs_example =
    mtint_interrupt-ReactsAs world two_objects-IsValid two_objects-IsReferenced 200 (pos 1) refl
      none_or_nil handlers interrupted world_interrupt
