-- ===== src/OpenModule/Sentinel.antt =====
-- The sentinel of a Lua state, whose finalizer is handleClosingLuaState.
use lua_mtint.Base.{
  ◌+◌, ◌≡◌, ◌<◌, ◌⊎◌, inl, inr, refl, arith, Bool, true, false, not, List, Bool-cases,
}
use lua_mtint.Errors.{codes}
use lua_mtint.Lua.{
  Ref, Value, text, light, function, table, userdata, Heap, lua, registry, kind, initialized,
  handle_closing_lua_state, new_table, new_userdata, set_field, set_metatable,
}
use lua_mtint.Lua.Api.{LuaApi}
use lua_mtint.Lua.Rules.{lua_calls}
use lua_mtint.Interruptible.Guards.{is_nil}
use lua_mtint.OpenModule.{assure_sentinel}

abbrev pub has_sentinel : Heap → Bool
has_sentinel h = not (is_nil (kind (h.field registry (light initialized))))

abbrev with_sentinel : Heap → Heap
with_sentinel h = set_field registry (light initialized) (userdata h.next) (
    set_metatable (userdata h.next) (table (h.next + 1)) (
      set_field (h.next + 1) (text (codes "__gc")) (function handle_closing_lua_state)
        (new_table (new_userdata h))))

-- The registry has user data that Lua finalises with handleClosingLuaState.
pub record IsWatched (h : Heap) : Type 0 where
  pub sentinel : Ref
  pub metatable : Ref
  pub entry_is : h.field registry (light initialized) ≡ userdata sentinel
  pub metatable_is : h.metatable (userdata sentinel) ≡ table metatable
  pub gc_is : h.field metatable (text (codes "__gc")) ≡ function handle_closing_lua_state

with_sentinel-IsWatched : (h : Heap) → registry < h.next → IsWatched (with_sentinel h)
with_sentinel-IsWatched h real = record {
  sentinel = h.next;
  metatable = h.next + 1;
  entry_is = ground arith;
  metatable_is = ground arith;
  gc_is = ground arith;
}

-- luaopen_mtint leaves the stack as it was and finds whether the Lua state has a sentinel. If so, it
-- changes nothing. If not, the registry has one afterwards, whose metatable has handleClosingLuaState
-- as its finalizer, so that the next call finds it.
pub assure_sentinel_lem :
    (api : LuaApi) (st : List Value) (h : Heap)
    → registry < h.next
    → (h' : Heap) × (assure_sentinel api (lua st h) ≡ (has_sentinel h, lua st h'))
      × (has_sentinel h' ≡ true)
      × (((has_sentinel h ≡ true) × (h' ≡ h)) ⊎ ((has_sentinel h ≡ false) × IsWatched h'))
unfolding assure_sentinel
assure_sentinel_lem api st h real =
    elim (Bool-cases (is_nil (kind (h.field registry (light initialized))))) [
      | inl absent ↦ (
        with_sentinel h,
        simp (lua_calls, absent),
        refl,
        inr (rw absent refl, with_sentinel-IsWatched h real),
      )
      | inr present ↦ (h, simp (lua_calls, present), rw present refl, inl (rw present refl, refl))
    ]
