-- ===== src/OpenModule.antt =====
-- The calls of Lua's C API in luaopen_mtint of src/main.c: the sentinel of a Lua state in the
-- registry, and the table of the module; and mtint_error_init_module of src/error.c.
pub mod Fields
pub mod Sentinel
pub mod Opens
use lua_mtint.Base.{ℕ, ◌+◌, Bool, true, false, if◌then◌else◌, [], ◌++◌}
use lua_mtint.Errors.{
  Text, codes, ErrorName, not_supported, object_exists, object_closed, unknown_object, interrupted,
  out_of_memory, publish_error,
}
use lua_mtint.Atomic.Backends.{Backend, win32, stdatomic, gnu}
use lua_mtint.Sync.{Platform, pthread, winthread, stdthread}
use lua_mtint.Lua.{
  initialized, handle_closing_lua_state, LuaState, ◌▷◌, Index, top, slot, registry_index,
}
use lua_mtint.Lua.Api.{LuaApi}
use lua_mtint.Interruptible.Guards.{is_nil, interruptible_init_module}

-- MTINT_INFO1 and MTINT_INFO2
abbrev pub info_1 : Backend → Text
info_1 win32 = codes "WIN32"
info_1 gnu = codes "GNU"
info_1 stdatomic = codes "STD"

abbrev pub info_2 : Platform → Text
info_2 winthread = codes "WIN32"
info_2 pthread = codes "PTHREAD"
info_2 stdthread = codes "STD"

abbrev pub info : Backend → Platform → Text
info b p = codes "atomic:" ++ (info_1 b ++ (codes ",thread:" ++ info_2 p))

module _ (api : LuaApi) where
  open api use {
    lua_gettop, lua_type, lua_pushvalue, lua_pop, lua_settop, lua_pushlightuserdata, lua_pushstring,
    lua_pushfstring, lua_pushcfunction, lua_newtable, lua_newuserdata, lua_checkstack, lua_rawget,
    lua_rawset, lua_setfield, lua_setmetatable, lua_l_setfuncs,
  }

  -- The user data whose finalizer is handleClosingLuaState.
  pub make_sentinel : LuaState → LuaState
  make_sentinel s =
      s
      ▷ lua_pushlightuserdata initialized
      ▷ lua_newuserdata
      ▷ lua_newtable
      ▷ lua_pushstring (codes "__gc")
      ▷ lua_pushcfunction handle_closing_lua_state
      ▷ lua_rawset (top 3)
      ▷ lua_setmetatable (top 2)
      ▷ lua_rawset registry_index

  -- Whether the initialisation had been done for this Lua state, and the sentinel if not.
  -- `stateCounter` is counted in Startup.States.
  pub assure_sentinel : LuaState → Bool × LuaState
  unfolding make_sentinel
  assure_sentinel s =
      let s1 = (s ▷ lua_pushlightuserdata initialized ▷ lua_rawget registry_index).1 in
      let s2 = s1 ▷ lua_pop 1 in
      if is_nil (s1 ▷ lua_type (top 1)) then (false, make_sentinel s2) else (true, s2)

  -- publishError, on the table `module_index`
  pub publish_error_in : (module_index : Index) → ErrorName → LuaState → LuaState
  unfolding publish_error
  publish_error_in module_index name s =
      s ▷ lua_pushfstring (publish_error name).1 ▷ lua_setfield module_index (publish_error name).0

  pub error_init_module_in : (error_module : Index) → LuaState → LuaState
  unfolding publish_error_in
  error_init_module_in error_module s =
      s
      ▷ publish_error_in error_module not_supported
      ▷ publish_error_in error_module object_exists
      ▷ publish_error_in error_module object_closed
      ▷ publish_error_in error_module unknown_object
      ▷ publish_error_in error_module interrupted
      ▷ publish_error_in error_module out_of_memory

  -- The functions of src/main.c itself, of which there are none, and the fields for the version, the
  -- platform and the errors.
  pub fill_module :
      (version : Text)
      → Backend
      → Platform
      → (module_index error_module : Index) → LuaState
      → LuaState
  fill_module version b p module_index error_module s =
      s
      ▷ lua_pushvalue module_index
      ▷ lua_l_setfuncs []
      ▷ lua_pop 1
      ▷ lua_pushstring version
      ▷ lua_setfield module_index (codes "_VERSION")
      ▷ lua_pushstring (info b p)
      ▷ lua_setfield module_index (codes "_INFO")
      ▷ lua_pushvalue error_module
      ▷ lua_setfield module_index (codes "error")

  -- What luaopen_mtint does once the Lua state has its sentinel. LUA_MINSTACK is 20.
  pub open_module : (version : Text) → Backend → Platform → LuaState → LuaState
  open_module version b p s =
      let n = lua_gettop s in
      s
      ▷ lua_newtable
      ▷ lua_newtable
      ▷ fill_module version b p (slot (n + 1)) (slot (n + 2))
      ▷ lua_checkstack 20
      ▷ interruptible_init_module api (slot (n + 1))
      ▷ error_init_module_in (slot (n + 2))
      ▷ lua_settop (n + 1)
