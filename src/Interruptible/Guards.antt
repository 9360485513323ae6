-- ===== src/Interruptible/Guards.antt =====
-- The tables of src/interruptible.c that live in a Lua state: the lookup table, from a thread to
-- its guard, and the metatables. Each function is the sequence of its calls of Lua's C API, which is
-- a parameter.
pub mod Tables
pub mod Lookup
pub mod Extends
pub mod Entry
pub mod Represents
pub mod Setup
pub mod Class
pub mod Hooks
use lua_mtint.Base.{ℕ, Bool, true, false, not, Option, none, some, ◌≡◌, if◌then◌else◌, [], ◌∷◌}
use lua_mtint.Errors.{Text, codes}
use lua_mtint.Lua.{
  Ref, coroutine_guard_class_name, module_name, guard_coroutine_release, mt_interruptible_id,
  mt_interruptible_interrupt, mt_interruptible_to_string, mt_interruptible_release, mtint_id,
  mtint_set_hook, mtint_interrupt, mtint_interruptible, LuaType, lua_tnil, lua_ttable,
  lua_tuserdata, LuaState, ◌▷◌, Index, top, slot, registry_index,
}
use lua_mtint.Lua.Api.{LuaApi, Functions}

abbrev pub module_name_text : Text
module_name_text = codes "mtint"

abbrev pub interruptible_class_name : Text
interruptible_class_name = codes "mtint.interruptible"

abbrev pub coroutine_guard_class_name_text : Text
coroutine_guard_class_name_text = codes "mtint.guard.coroutine"

-- lua_isnil
abbrev pub is_nil : LuaType → Bool
is_nil lua_tnil = true
is_nil _ = false

abbrev pub interruptible_methods : Functions
interruptible_methods =
    (codes "id", mt_interruptible_id) ∷ (codes "interrupt", mt_interruptible_interrupt) ∷ []

abbrev pub interruptible_meta_methods : Functions
interruptible_meta_methods =
    (codes "__tostring", mt_interruptible_to_string) ∷ (codes "__gc", mt_interruptible_release) ∷ []

abbrev pub module_functions : Functions
module_functions =
    (codes "id", mtint_id)
    ∷ (codes "sethook", mtint_set_hook)
    ∷ (codes "interrupt", mtint_interrupt)
    ∷ (codes "interruptible", mtint_interruptible)
    ∷ []

module _ (api : LuaApi) where
  open api use {
    lua_type, lua_pushvalue, lua_pop, lua_remove, lua_pushlightuserdata, lua_pushstring,
    lua_pushcfunction, lua_newtable, lua_rawget, lua_rawset, lua_rawgeti, lua_rawseti, lua_setfield,
    lua_setmetatable, lua_l_newmetatable, lua_l_setfuncs, lua_l_testudata,
  }

  -- The branch of pushInterruptibleLookupTable that makes the table.
  pub make_lookup_table : LuaState → LuaState
  make_lookup_table s =
      s
      ▷ lua_pop 1
      ▷ lua_newtable
      ▷ lua_pushlightuserdata module_name
      ▷ lua_pushvalue (top 2)
      ▷ lua_newtable
      ▷ lua_pushstring (codes "k")
      ▷ lua_setfield (top 2) (codes "__mode")
      ▷ lua_pushstring module_name_text
      ▷ lua_setfield (top 2) (codes "__metatable")
      ▷ lua_setmetatable (top 2)
      ▷ lua_rawset registry_index

  pub push_interruptible_lookup_table : LuaState → LuaState
  unfolding make_lookup_table
  push_interruptible_lookup_table s =
      let s1 = (s ▷ lua_pushlightuserdata module_name ▷ lua_rawget registry_index).1 in
      if is_nil (s1 ▷ lua_type (top 1)) then make_lookup_table s1 else s1

  pub make_coroutine_guard_meta_table : LuaState → LuaState
  make_coroutine_guard_meta_table s =
      s
      ▷ lua_pop 1
      ▷ lua_newtable
      ▷ lua_pushlightuserdata coroutine_guard_class_name
      ▷ lua_pushvalue (top 2)
      ▷ lua_pushcfunction guard_coroutine_release
      ▷ lua_setfield (top 2) (codes "__gc")
      ▷ lua_pushstring coroutine_guard_class_name_text
      ▷ lua_setfield (top 2) (codes "__metatable")
      ▷ lua_rawset registry_index

  pub push_coroutine_guard_meta_table : LuaState → LuaState
  unfolding make_coroutine_guard_meta_table
  push_coroutine_guard_meta_table s =
      let s1 =
        (s ▷ lua_pushlightuserdata coroutine_guard_class_name ▷ lua_rawget registry_index).1 in
      if is_nil (s1 ▷ lua_type (top 1)) then make_coroutine_guard_meta_table s1 else s1

  -- The guard of a coroutine, which is a table with the user data and the thread.
  pub push_coroutine_guard : (intudata thread : Index) → LuaState → LuaState
  push_coroutine_guard intudata thread s =
      s
      ▷ lua_newtable
      ▷ lua_pushvalue intudata
      ▷ lua_rawseti (top 2) 1
      ▷ lua_pushvalue thread
      ▷ lua_rawseti (top 2) 2
      ▷ push_coroutine_guard_meta_table
      ▷ lua_setmetatable (top 2)

  pub setup_interruptible_guard :
      (intudata thread : Index) (is_main_guard : Bool) → LuaState → LuaState
  setup_interruptible_guard intudata thread is_main_guard s =
      let s1 = s ▷ push_interruptible_lookup_table ▷ lua_pushvalue thread in
      (if is_main_guard then lua_pushvalue intudata s1 else push_coroutine_guard intudata thread s1)
      ▷ lua_rawset (top 3)
      ▷ lua_pop 1

  -- The three branches of lookupIntrUserData on the type of the guard, which is on top of the stack.
  pub lookup_in_guard : LuaType → LuaState → Option Ref × LuaState
  lookup_in_guard lua_ttable s =
      let s1 = (s ▷ lua_rawgeti (top 1) 1).1 in
      elim (s1 ▷ lua_l_testudata (top 1) interruptible_class_name) [
        | some u ↦ (some u, s1 ▷ lua_remove (top 2) ▷ lua_remove (top 2))
        | none ↦ (none, s1 ▷ lua_pop 3)
      ]
  lookup_in_guard lua_tuserdata s = elim (s ▷ lua_l_testudata (top 1) interruptible_class_name) [
    | some u ↦ (some u, s ▷ lua_remove (top 2))
    | none ↦ (none, s ▷ lua_pop 2)
  ]
  lookup_in_guard _ s = (none, s ▷ lua_pop 2)

  pub lookup_intr_user_data : (thread : Index) → LuaState → Option Ref × LuaState
  lookup_intr_user_data thread s =
      let (tp, s1) =
        s ▷ push_interruptible_lookup_table ▷ lua_pushvalue thread ▷ lua_rawget (top 2) in
      lookup_in_guard tp s1

  pub setup_interruptible_meta : LuaState → LuaState
  setup_interruptible_meta s =
      s
      ▷ lua_pushstring interruptible_class_name
      ▷ lua_setfield (top 2) (codes "__metatable")
      ▷ lua_l_setfuncs interruptible_meta_methods
      ▷ lua_newtable
      ▷ lua_l_setfuncs interruptible_methods
      ▷ lua_setfield (top 2) (codes "__index")

  pub push_interruptible_meta : LuaState → LuaState
  unfolding setup_interruptible_meta
  push_interruptible_meta s =
      let (made, s1) = s ▷ lua_l_newmetatable interruptible_class_name in
      if made then setup_interruptible_meta s1 else s1

  -- Its first statements are those of pushInterruptibleMeta.
  unfoldable pub interruptible_init_module : (module_index : Index) → LuaState → LuaState
  interruptible_init_module module_index s =
      s
      ▷ push_interruptible_meta
      ▷ lua_pop 1
      ▷ lua_pushvalue module_index
      ▷ lua_l_setfuncs module_functions
      ▷ lua_pop 1
