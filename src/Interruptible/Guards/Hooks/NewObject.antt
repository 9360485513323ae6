-- ===== src/Interruptible/Guards/Hooks/NewObject.antt =====
-- Mtint_setHook for a Lua state or coroutine that had no object, from the guard to the hook.
use lua_mtint.Base.{Bool, true, ℕ, ◌≡◌, ◌∙◌, ap, arith, Option, some, List, ◌∷◌, length}
use lua_mtint.Lua.{Ref, Value, table, userdata, thread, Heap, lua, from_bottom}
use lua_mtint.Lua.Api.{LuaApi}
use lua_mtint.Interruptible.Guards.Lookup.{IsSound}
use lua_mtint.Interruptible.Guards.Represents.{Represents}
use lua_mtint.Interruptible.Guards.Hooks.{
  attach_user_value, set_hook_value, interrupt_hook_common_in,
}
use lua_mtint.Interruptible.Guards.Hooks.UserValue.{HasUserValue, with_hook}
use lua_mtint.Lua.{slot, ◌▷◌}
use lua_mtint.Lua.Api.{is_of_class}
use lua_mtint.Interruptible.Store.{update}
use lua_mtint.Interruptible.Guards.{interruptible_class_name, setup_interruptible_guard}
use lua_mtint.Interruptible.Guards.Setup.{setup_interruptible_guard-Represents}
use lua_mtint.Interruptible.Guards.Hooks.Runs.{
  IsHook, hook_end, hook_set, attach_user_value-interrupt_hook_common_in,
}

-- If a Lua state's lookup table stands for `lookup`, and the user data `u` on top of the stack are of
-- the class of this library: setupInterruptibleGuard for a thread that is on the stack, as a main
-- guard and for a coroutine, the rest of assureCreatedMtInterruptible and that of Mtint_setHook leave
-- `u` with the user value on the stack and the tables sound. The lookup table then has `u` for the
-- thread, and for every other thread what it had. A hook on the thread calls the function that
-- Mtint_setHook was given, or raises the error for an interrupted Lua state if none was.
pub setup_interruptible_guard-interrupt_hook_common_in :
    (api : LuaApi) (st st' : List Value) (h : Heap) (lookup : Ref → Option Ref) (n func : ℕ)
    (l u : Ref) (b : Bool) (f : Value)
    → from_bottom n (userdata u ∷ st) ≡ some (thread l)
    → IsSound h
    → Represents h lookup
    → is_of_class interruptible_class_name u h ≡ true
    → IsHook func st f
    → (h' : Heap) × (uv : Ref) × ((lua (userdata u ∷ st) h
          ▷ setup_interruptible_guard api (slot (length (userdata u ∷ st))) (slot n) b
          ▷ attach_user_value api (length (userdata u ∷ st))
          ▷ set_hook_value api func)
        ≡ lua (table uv ∷ userdata u ∷ st) h')
      × IsSound h'
      × Represents h' (update lookup l (some u))
      × HasUserValue u uv h'
      × (interrupt_hook_common_in api l (lua st' h') ≡ hook_end api f st' h')
setup_interruptible_guard-interrupt_hook_common_in api st st' h lookup n func l u b f at s rep class
      given =
    let (h1, run1, s1, rep1) =
      setup_interruptible_guard-Represents api (userdata u ∷ st) (length (userdata u ∷ st)) n u l
        (ground arith) at b h lookup s rep class in
    let there : update lookup l (some u) l ≡ some u = ground arith in
    let (h2, run2, s2, rep2, has2, none2) =
      attach_user_value-interrupt_hook_common_in api st st' h1 (update lookup l (some u)) l u s1
        rep1 there in
    let (run3, s3, rep3, has3, hook3) =
      hook_set api st st' h2 (update lookup l (some u)) func l u h1.next f s2 rep2 there has2
        given in
    (
      with_hook h1.next f h2,
      h1.next,
      ap (λ x. x ▷ attach_user_value api (length (userdata u ∷ st)) ▷ set_hook_value api func) run1
          ∙ ap (set_hook_value api func) run2
          ∙ run3,
      s3,
      rep3,
      has3,
      hook3,
    )
