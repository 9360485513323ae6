-- ===== src/Interruptible/Guards/Hooks/Runs.antt =====
-- A hook runs the function that Mtint_setHook was given, or raises the error for an interrupted Lua
-- state.
use lua_mtint.Base.{
  false, ℕ, ◌+◌, ◌≡◌, ◌⊎◌, ◌∙◌, inl, inr, refl, ap, arith, Option, none, some, List, [], ◌∷◌, ◌==◌,
  length,
}
use lua_mtint.Base.Int.{pos}
use lua_mtint.Lua.{
  Ref, Value, nil, integer, table, userdata, thread, closure, function, lua_tfunction, kind, Heap,
  lua, from_bottom,
}
use lua_mtint.Lua.Api.{LuaApi, on_stack}
use lua_mtint.Lua.Rules.{lua_calls, pushvalue-two, settop-same}
use lua_mtint.Interruptible.Guards.Tables.{lookup_table}
use lua_mtint.Interruptible.Guards.Lookup.{IsSound, assured, guard_of, lookup_intr_user_data_lem}
use lua_mtint.Interruptible.Guards.Represents.{Represents}
use lua_mtint.Interruptible.Guards.Hooks.{
  HookEnd, returns, propagates, raises, attach_user_value, set_hook_value, end_call, call_hook,
  run_hook_of, interrupt_hook_common_in,
}
use lua_mtint.Interruptible.Guards.Hooks.UserValue.{
  HasUserValue, with_hook, with_hook-guard_of, with_hook-IsSound, with_hook-HasUserValue,
  with_user_value, with_user_value-IsSound, with_user_value-guard_of, with_user_value-HasUserValue,
}

-- What Mtint_setHook was given: nothing, or the function `f` at the index `func`.
abbrev pub IsHook : (func : ℕ) → List Value → Value → Type 0
IsHook func st f =
    ((func ≡ 0) × (f ≡ nil)) ⊎ ((from_bottom func st ≡ some f) × (kind f ≡ lua_tfunction))

abbrev ended : List Value → Option Heap → HookEnd
ended st none = propagates
ended st (some h) = returns (lua st h)

-- A hook that has found `f`, or nil.
abbrev pub hook_end : LuaApi → Value → List Value → Heap → HookEnd
hook_end api nil st h = raises (lua st h)
hook_end api f st h = ended st (api.called f h)

-- There is a lookup table where it has user data.
assured-found : (h : Heap) (l u : Ref) → IsSound h → guard_of h l ≡ some u → assured h ≡ h
assured-found h l u s e = elim s.lookup_is [
  | inl none' ↦ absurd (found none')
  | inr (t, is, _, _) ↦ rw is refl
]
  where
    found : lookup_table h ≡ nil → ⊥
    found none' = let nothing : guard_of h l ≡ none = rw none' refl in cc

from_bottom-zero : (st : List Value) → from_bottom 0 st ≡ none
from_bottom-zero [] = refl
from_bottom-zero (v ∷ st) = ground (arith, from_bottom-zero st)

set_hook_value_lem :
    (api : LuaApi) (st : List Value) (h : Heap) (func : ℕ) (u uv : Ref) (f : Value)
    → h.uservalue u ≡ table uv
    → IsHook func st f
    → set_hook_value api func (lua (userdata u ∷ st) h)
      ≡ lua (table uv ∷ userdata u ∷ st) (with_hook uv f h)
unfolding set_hook_value
set_hook_value_lem api st h func u uv f is (inl (zero', nothing)) =
    rw (zero', nothing) (simp (lua_calls, is))
set_hook_value_lem api st h func u uv f is (inr (at, fn)) =
    let given : (func == 0) ≡ false = ground (arith, from_bottom-zero st) in
    simp (lua_calls, is, given, pushvalue-two func st f at)

hook-none :
    (api : LuaApi) (st : List Value) (h : Heap) (l : Ref)
    → IsSound h
    → guard_of h l ≡ none
    → interrupt_hook_common_in api l (lua st h) ≡ raises (lua st (assured h))
unfolding interrupt_hook_common_in
hook-none api st h l s e = simp (
  lua_calls,
  interrupt_hook_common_in,
  run_hook_of,
  api.gettop_law st h,
  lookup_intr_user_data_lem api (thread l ∷ st) (length st + 1) l (ground arith) h s,
  e,
)

end_call_lem :
    (api : LuaApi) (st : List Value) (a b c : Value) (r : Option Heap)
    → end_call api (length st) (on_stack (a ∷ b ∷ c ∷ st) r) ≡ ended st r
unfolding end_call
end_call_lem api st a b c none = refl
end_call_lem api st a b c (some h) = simp lua_calls

hook-value :
    (api : LuaApi) (st : List Value) (h : Heap) (a b c f : Value)
    → (f ≡ nil) ⊎ (kind f ≡ lua_tfunction)
    → call_hook api (length st) (kind f) (lua (f ∷ a ∷ b ∷ c ∷ st) h) ≡ hook_end api f st h
unfolding call_hook
hook-value api st h a b c nil which = simp lua_calls
hook-value api st h a b c (function g) which =
    rw (api.call_law (function g) (a ∷ b ∷ c ∷ st) h refl) (end_call_lem api st a b c _)
hook-value api st h a b c (closure g) which =
    rw (api.call_law (closure g) (a ∷ b ∷ c ∷ st) h refl) (end_call_lem api st a b c _)
hook-value api st h a b c f (inl e) = absurd (cc)
hook-value api st h a b c f (inr e) = absurd (cc)

hook-found :
    (api : LuaApi) (st : List Value) (h : Heap) (l u uv : Ref)
    → IsSound h
    → guard_of h l ≡ some u
    → h.uservalue u ≡ table uv
    → (h.field uv (integer (pos 1)) ≡ nil) ⊎ (kind (h.field uv (integer (pos 1))) ≡ lua_tfunction)
    → interrupt_hook_common_in api l (lua st h) ≡ hook_end api (h.field uv (integer (pos 1))) st h
unfolding interrupt_hook_common_in
hook-found api st h l u uv s e is which = simp (
  lua_calls,
  interrupt_hook_common_in,
  run_hook_of,
  api.gettop_law st h,
  lookup_intr_user_data_lem api (thread l ∷ st) (length st + 1) l (ground arith) h s,
  e,
  assured-found h l u s e,
  is,
  hook-value api st h (table uv) (userdata u) (thread l) (h.field uv (integer (pos 1))) which,
)

given-kind :
    (func : ℕ) (st : List Value) (f : Value)
    → IsHook func st f
    → (f ≡ nil) ⊎ (kind f ≡ lua_tfunction)
given-kind func st f (inl (zero', nothing)) = inl nothing
given-kind func st f (inr (at, fn)) = inr fn

pub hook_set :
    (api : LuaApi) (st st' : List Value) (h : Heap) (lookup : Ref → Option Ref) (func : ℕ)
    (l u uv : Ref) (f : Value)
    → IsSound h
    → Represents h lookup
    → lookup l ≡ some u
    → HasUserValue u uv h
    → IsHook func st f
    → (set_hook_value api func (lua (userdata u ∷ st) h)
        ≡ lua (table uv ∷ userdata u ∷ st) (with_hook uv f h))
      × IsSound (with_hook uv f h)
      × Represents (with_hook uv f h) lookup
      × HasUserValue u uv (with_hook uv f h)
      × (interrupt_hook_common_in api l (lua st' (with_hook uv f h))
          ≡ hook_end api f st' (with_hook uv f h))
hook_set api st st' h lookup func l u uv f s rep at has given =
    let h' : Heap = with_hook uv f h in
    let s' : IsSound h' = with_hook-IsSound h uv f s in
    let rep' : Represents h' lookup = λ p. with_hook-guard_of h uv f p (has.no_guard p) ∙ rep p in
    let hook : h'.field uv (integer (pos 1)) ≡ f = ground arith in
    (
      set_hook_value_lem api st h func u uv f has.is given,
      s',
      rep',
      with_hook-HasUserValue h u uv f has,
      hook-found api st' h' l u uv s' (rep' l ∙ at) has.is (rw hook (given-kind func st f given))
          ∙ rw hook refl,
    )

-- If a Lua state's lookup table stands for `lookup`, with user data for `l` whose user value is a
-- table that is no guard: what Mtint_setHook does with the user data leaves the tables as sound, the
-- lookup table stands for the same, and the user value is as before but for the hook. A hook on `l`
-- then calls the function that was given, or raises the error for an interrupted Lua state if none
-- was. It leaves the stack as it was, unless the function ends with an error, which is passed on. A
-- hook on a thread that has no user data raises the error as before.
pub set_hook_value-interrupt_hook_common_in :
    (api : LuaApi) (st st' : List Value) (h : Heap) (lookup : Ref → Option Ref) (func : ℕ)
    (l q u uv : Ref) (f : Value)
    → IsSound h
    → Represents h lookup
    → lookup l ≡ some u
    → lookup q ≡ none
    → HasUserValue u uv h
    → IsHook func st f
    → (h' : Heap) × (set_hook_value api func (lua (userdata u ∷ st) h)
        ≡ lua (table uv ∷ userdata u ∷ st) h')
      × IsSound h'
      × Represents h' lookup
      × HasUserValue u uv h'
      × (interrupt_hook_common_in api l (lua st' h') ≡ hook_end api f st' h')
      × (interrupt_hook_common_in api q (lua st' h') ≡ raises (lua st' h'))
set_hook_value-interrupt_hook_common_in api st st' h lookup func l q u uv f s rep at no_udata has
      given =
    let (run, s', rep', has', hook) =
      hook_set api st st' h lookup func l u uv f s rep at has given in
    let other : interrupt_hook_common_in api q (lua st' (with_hook uv f h))
        ≡ raises (lua st' (with_hook uv f h)) =
      hook-none api st' (with_hook uv f h) q s' (rep' q ∙ no_udata)
      ∙ ap (λ x. raises (lua st' x)) (assured-found (with_hook uv f h) l u s' (rep' l ∙ at)) in
    (with_hook uv f h, run, s', rep', has', hook, other)

-- If a Lua state's lookup table stands for `lookup`, with user data for `l`: the end of
-- assureCreatedMtInterruptible gives them a table of their own as user value, which is no guard, and
-- leaves the stack as it was and the tables as sound, and the lookup table stands for the same. Until
-- a hook is set, a hook on `l` raises the error for an interrupted Lua state, with the stack as it
-- was.
pub attach_user_value-interrupt_hook_common_in :
    (api : LuaApi) (st st' : List Value) (h : Heap) (lookup : Ref → Option Ref) (l u : Ref)
    → IsSound h
    → Represents h lookup
    → lookup l ≡ some u
    → (h' : Heap) × (attach_user_value api (length (userdata u ∷ st)) (lua (userdata u ∷ st) h)
        ≡ lua (userdata u ∷ st) h')
      × IsSound h'
      × Represents h' lookup
      × HasUserValue u h.next h'
      × (interrupt_hook_common_in api l (lua st' h') ≡ raises (lua st' h'))
unfolding attach_user_value
attach_user_value-interrupt_hook_common_in api st st' h lookup l u s rep at =
    let h' : Heap = with_user_value u h in
    let s' : IsSound h' = with_user_value-IsSound h u s in
    let has : HasUserValue u h.next h' = with_user_value-HasUserValue h u s in
    let rep' : Represents h' lookup = λ q. with_user_value-guard_of h u q s ∙ rep q in
    let empty : h'.field h.next (integer (pos 1)) ≡ nil = ground arith in
    (
      h',
      simp (settop-same api (userdata u ∷ st) h, lua_calls),
      s',
      rep',
      has,
      hook-found api st' h' l u h.next s' (rep' l ∙ at) has.is (inl empty) ∙ rw empty refl,
    )
