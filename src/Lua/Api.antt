-- ===== src/Lua/Api.antt =====
-- Lua's C API: the functions that the sources call, with what the Lua manual says of the calls that
-- the sources make. A call that the manual forbids, as of lua_rawget on no table, is not described,
-- and neither are the errors for want of memory. luaL_newmetatable, luaL_setfuncs and luaL_testudata
-- are spelled lua_l_newmetatable, lua_l_setfuncs and lua_l_testudata.
use lua_mtint.Base.{
  ℕ, ◌≡◌, ◌≢◌, Bool, true, false, not, ◌&&◌, Option, none, some, List, [], ◌∷◌, ◌++◌, if◌then◌else◌,
  length,
}
use lua_mtint.Base.Int.{pos}
use lua_mtint.Errors.{Text, codes}
use lua_mtint.Lua.{
  Ref, Address, thread, set_uservalue, lua_tfunction, CFunction, Value, nil, integer, text, light,
  function, table, userdata, LuaType, kind, same, Heap, registry, set_field, set_metatable,
  new_table, new_userdata, LuaState, lua, Index, top, value_at,
}

-- A luaL_Reg array, without its sentinel.
abbrev pub Functions : Type 0
Functions = List (Text × CFunction)

abbrev pub set_functions : Ref → Functions → Heap → Heap
set_functions t [] h = h
set_functions t ((name, f) ∷ rest) h = set_functions t rest (set_field t (text name) (function f) h)

-- Whether the user data `u` have the metatable that the registry has under `name`.
abbrev pub is_of_class : Text → Ref → Heap → Bool
is_of_class name u h =
    not (same (h.metatable (userdata u)) nil)
    && same (h.metatable (userdata u)) (h.field registry (text name))

-- luaL_newmetatable makes the table; some versions of Lua enter the name in it.
abbrev pub new_class : (sets_name : Bool) → Text → Heap → Heap
new_class sets_name name h =
    let made = set_field registry (text name) (table h.next) (new_table h) in
    if sets_name then set_field h.next (text (codes "__name")) (text name) made else made

-- What is on the stack when a call returns.
abbrev pub on_stack : List Value → Option Heap → Option LuaState
on_stack st none = none
on_stack st (some h) = some (lua st h)

pub record LuaApi : Type 0 where
  pub sets_name : Bool
  pub lua_gettop : LuaState → ℕ
  pub lua_type : Index → LuaState → LuaType
  pub lua_pushvalue : Index → LuaState → LuaState
  pub lua_pop : ℕ → LuaState → LuaState
  pub lua_settop : ℕ → LuaState → LuaState
  pub lua_remove : Index → LuaState → LuaState
  pub lua_pushlightuserdata : Address → LuaState → LuaState
  pub lua_pushstring : Text → LuaState → LuaState
  -- It is given the text that it formats.
  pub lua_pushfstring : Text → LuaState → LuaState
  pub lua_newuserdata : LuaState → LuaState
  pub lua_pushnil : LuaState → LuaState
  -- It is given the thread whose stack it is, and tells whether that is the main thread.
  pub lua_pushthread : Ref → LuaState → Bool × LuaState
  pub lua_getuservalue : Index → LuaState → LuaState
  pub lua_setuservalue : Index → LuaState → LuaState
  -- Without arguments and results; `none` is an error.
  pub lua_call : LuaState → Option LuaState
  pub is_main : Ref → Bool
  -- What calling a function does to the heap.
  pub called : Value → Heap → Option Heap
  pub lua_checkstack : ℕ → LuaState → LuaState
  pub lua_pushcfunction : CFunction → LuaState → LuaState
  pub lua_newtable : LuaState → LuaState
  pub lua_rawget : Index → LuaState → LuaType × LuaState
  pub lua_rawset : Index → LuaState → LuaState
  pub lua_rawgeti : Index → ℕ → LuaState → LuaType × LuaState
  pub lua_rawseti : Index → ℕ → LuaState → LuaState
  pub lua_setfield : Index → Text → LuaState → LuaState
  pub lua_setmetatable : Index → LuaState → LuaState
  pub lua_l_newmetatable : Text → LuaState → Bool × LuaState
  pub lua_l_setfuncs : Functions → LuaState → LuaState
  pub lua_l_testudata : Index → Text → LuaState → Option Ref
  pub gettop_law : (st : List Value) (h : Heap) → lua_gettop (lua st h) ≡ length st
  pub type_law :
      (i : Index) (st : List Value) (h : Heap) (v : Value)
      → value_at i st ≡ some v
      → lua_type i (lua st h) ≡ kind v
  pub pushvalue_law :
      (i : Index) (st : List Value) (h : Heap) (v : Value)
      → value_at i st ≡ some v
      → lua_pushvalue i (lua st h) ≡ lua (v ∷ st) h
  pub pop_law : (vs st : List Value) (h : Heap) → lua_pop (length vs) (lua (vs ++ st) h) ≡ lua st h
  pub settop_law :
      (vs st : List Value) (h : Heap) → lua_settop (length st) (lua (vs ++ st) h) ≡ lua st h
  -- The value under the top is taken out.
  pub remove_law :
      (v w : Value) (st : List Value) (h : Heap)
      → lua_remove (top 2) (lua (v ∷ w ∷ st) h) ≡ lua (v ∷ st) h
  pub pushlightuserdata_law :
      (a : Address) (st : List Value) (h : Heap)
      → lua_pushlightuserdata a (lua st h) ≡ lua (light a ∷ st) h
  pub pushstring_law :
      (t : Text) (st : List Value) (h : Heap) → lua_pushstring t (lua st h) ≡ lua (text t ∷ st) h
  pub pushfstring_law :
      (t : Text) (st : List Value) (h : Heap) → lua_pushfstring t (lua st h) ≡ lua (text t ∷ st) h
  pub newuserdata_law :
      (st : List Value) (h : Heap)
      → lua_newuserdata (lua st h) ≡ lua (userdata h.next ∷ st) (new_userdata h)
  pub pushnil_law : (st : List Value) (h : Heap) → lua_pushnil (lua st h) ≡ lua (nil ∷ st) h
  pub pushthread_law :
      (l : Ref) (st : List Value) (h : Heap)
      → lua_pushthread l (lua st h) ≡ (is_main l, lua (thread l ∷ st) h)
  pub getuservalue_law :
      (i : Index) (u : Ref) (st : List Value) (h : Heap)
      → value_at i st ≡ some (userdata u)
      → lua_getuservalue i (lua st h) ≡ lua (h.uservalue u ∷ st) h
  pub setuservalue_law :
      (i : Index) (t u : Ref) (st : List Value) (h : Heap)
      → value_at i (table t ∷ st) ≡ some (userdata u)
      → lua_setuservalue i (lua (table t ∷ st) h) ≡ lua st (set_uservalue u (table t) h)
  -- A function called without arguments and results leaves the stack below it as it was.
  pub call_law :
      (f : Value) (st : List Value) (h : Heap)
      → kind f ≡ lua_tfunction
      → lua_call (lua (f ∷ st) h) ≡ on_stack st (called f h)
  pub checkstack_law : (n : ℕ) (s : LuaState) → lua_checkstack n s ≡ s
  pub pushcfunction_law :
      (f : CFunction) (st : List Value) (h : Heap)
      → lua_pushcfunction f (lua st h) ≡ lua (function f ∷ st) h
  pub newtable_law :
      (st : List Value) (h : Heap) → lua_newtable (lua st h) ≡ lua (table h.next ∷ st) (new_table h)
  pub rawget_law :
      (i : Index) (k : Value) (st : List Value) (h : Heap) (t : Ref)
      → value_at i (k ∷ st) ≡ some (table t)
      → lua_rawget i (lua (k ∷ st) h) ≡ (kind (h.field t k), lua (h.field t k ∷ st) h)
  pub rawset_law :
      (i : Index) (v k : Value) (st : List Value) (h : Heap) (t : Ref)
      → value_at i (v ∷ k ∷ st) ≡ some (table t)
      → k ≢ nil
      → lua_rawset i (lua (v ∷ k ∷ st) h) ≡ lua st (set_field t k v h)
  pub rawgeti_law :
      (i : Index) (n : ℕ) (st : List Value) (h : Heap) (t : Ref)
      → value_at i st ≡ some (table t)
      → lua_rawgeti i n (lua st h)
        ≡ (kind (h.field t (integer (pos n))), lua (h.field t (integer (pos n)) ∷ st) h)
  pub rawseti_law :
      (i : Index) (n : ℕ) (v : Value) (st : List Value) (h : Heap) (t : Ref)
      → value_at i (v ∷ st) ≡ some (table t)
      → lua_rawseti i n (lua (v ∷ st) h) ≡ lua st (set_field t (integer (pos n)) v h)
  -- A table without a metatable has no metamethod that could run.
  pub setfield_law :
      (i : Index) (name : Text) (v : Value) (st : List Value) (h : Heap) (t : Ref)
      → value_at i (v ∷ st) ≡ some (table t)
      → h.metatable (table t) ≡ nil
      → lua_setfield i name (lua (v ∷ st) h) ≡ lua st (set_field t (text name) v h)
  pub setmetatable_law :
      (i : Index) (m : Ref) (x : Value) (st : List Value) (h : Heap)
      → value_at i (table m ∷ st) ≡ some x
      → lua_setmetatable i (lua (table m ∷ st) h) ≡ lua st (set_metatable x (table m) h)
  pub newmetatable_new_law :
      (name : Text) (st : List Value) (h : Heap)
      → h.field registry (text name) ≡ nil
      → lua_l_newmetatable name (lua st h)
        ≡ (true, lua (table h.next ∷ st) (new_class sets_name name h))
  pub newmetatable_old_law :
      (name : Text) (st : List Value) (h : Heap)
      → h.field registry (text name) ≢ nil
      → lua_l_newmetatable name (lua st h) ≡ (false, lua (h.field registry (text name) ∷ st) h)
  pub setfuncs_law :
      (fs : Functions) (st : List Value) (h : Heap) (t : Ref)
      → h.metatable (table t) ≡ nil
      → lua_l_setfuncs fs (lua (table t ∷ st) h) ≡ lua (table t ∷ st) (set_functions t fs h)
  pub testudata_law :
      (i : Index) (name : Text) (u : Ref) (st : List Value) (h : Heap)
      → value_at i st ≡ some (userdata u)
      → lua_l_testudata i name (lua st h) ≡ (if is_of_class name u h then some u else none)
  pub testudata_other_law :
      (i : Index) (name : Text) (v : Value) (st : List Value) (h : Heap)
      → value_at i st ≡ some v
      → ((u : Ref) → v ≢ userdata u)
      → lua_l_testudata i name (lua st h) ≡ none
