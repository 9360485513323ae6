-- ===== src/Interruptible/Guards/Hooks.antt =====
-- The user value of an object's user data, a table that has the hook: the end of
-- assureCreatedMtInterruptible, that of Mtint_setHook, and interruptHookCommon, as calls of Lua's C
-- API.
pub mod UserValue
pub mod Runs
pub mod NewObject
use lua_mtint.Base.{
  false, ℕ, ◌+◌, ◌≡◌, ◌≢◌, ◌<◌, ◌⊎◌, ◌∙◌, inl, inr, refl, sym, arith, Option, none, some, List, [],
  ◌∷◌, ◌==◌, if◌then◌else◌, length,
}
use lua_mtint.Base.Int.{pos}
use lua_mtint.Lua.{
  Ref, Value, nil, integer, table, userdata, thread, closure, function, LuaType, lua_tfunction,
  kind, Heap, set_field, set_uservalue, new_table, registry, LuaState, lua, ◌▷◌, top, slot,
  from_bottom,
}
use lua_mtint.Lua.Api.{LuaApi, on_stack}
use lua_mtint.Lua.Rules.{lua_calls, pushvalue-two, settop-same}
use lua_mtint.Interruptible.Guards.{lookup_intr_user_data}
use lua_mtint.Interruptible.Guards.Tables.{udata_in, lookup_table, guard_udata, pushed}
use lua_mtint.Interruptible.Guards.Lookup.{
  IsSound, assured, guard_in, guard_of, lookup_intr_user_data_lem,
}
use lua_mtint.Interruptible.Guards.Represents.{Represents}

-- How a hook ends: it returns, an error of the function is passed on, or the error for an interrupted
-- Lua state is raised.
pub data HookEnd : Type 0 where
  returns : LuaState → HookEnd
  propagates : HookEnd
  raises : LuaState → HookEnd

module _ (api : LuaApi) where
  open api use {
    lua_gettop, lua_settop, lua_pushvalue, lua_pushnil, lua_newtable, lua_rawgeti, lua_rawseti,
    lua_pushthread, lua_getuservalue, lua_setuservalue, lua_call,
  }

  -- The end of assureCreatedMtInterruptible, for a new object.
  pub attach_user_value : (udata_idx : ℕ) → LuaState → LuaState
  attach_user_value udata_idx s = s ▷ lua_settop udata_idx ▷ lua_newtable ▷ lua_setuservalue (top 2)

  -- What Mtint_setHook does with the user data; `func` is 0 where no function was given.
  pub set_hook_value : (func : ℕ) → LuaState → LuaState
  set_hook_value func s =
      let s1 = s ▷ lua_getuservalue (top 1) in
      (if func == 0 then lua_pushnil s1 else lua_pushvalue (slot func) s1) ▷ lua_rawseti (top 2) 1

  pub end_call : (oldtop : ℕ) → Option LuaState → HookEnd
  end_call oldtop none = propagates
  end_call oldtop (some s) = returns (s ▷ lua_settop oldtop)

  pub call_hook : (oldtop : ℕ) → LuaType → LuaState → HookEnd
  unfolding end_call
  call_hook oldtop lua_tfunction s = end_call oldtop (lua_call s)
  call_hook oldtop _ s = raises (s ▷ lua_settop oldtop)

  pub run_hook_of : (oldtop : ℕ) → Option Ref → LuaState → HookEnd
  unfolding call_hook
  run_hook_of oldtop (some u) s =
      let (tp, s1) = s ▷ lua_getuservalue (top 1) ▷ lua_rawgeti (top 1) 1 in call_hook oldtop tp s1
  run_hook_of oldtop none s = raises (s ▷ lua_settop oldtop)

  pub interrupt_hook_common_in : (l2 : Ref) → LuaState → HookEnd
  unfolding run_hook_of
  interrupt_hook_common_in l2 s =
      let oldtop = lua_gettop s in
      let (udata, s1) = (s ▷ lua_pushthread l2).1 ▷ lookup_intr_user_data api (slot (oldtop + 1)) in
      run_hook_of oldtop udata s1
