-- ===== src/Lua/Rules.antt =====
-- The laws of Lua's C API at the indices that the sources use, as equations that run a sequence of
-- calls.
use lua_mtint.Base.{
  ℕ, ◌+◌, ◌≤◌, ◌≡◌, refl, arith, length, ==_refl, none, some, List, [], ◌∷◌, if◌then◌else◌,
}
use lua_mtint.Base.Int.{pos}
use lua_mtint.Errors.{Text}
use lua_mtint.Lua.{
  Ref, Address, CFunction, function, new_table, new_userdata, set_uservalue, LuaState, from_bottom,
  Value, nil, integer, text, light, table, userdata, thread, kind, Heap, registry, set_field,
  set_metatable, lua, top, slot, registry_index,
}
use lua_mtint.Lua.Api.{LuaApi, Functions, set_functions, is_of_class}

-- A value keeps its index from the bottom when another is pushed.
le-from_bottom : (n : ℕ) (st : List Value) (v : Value) → from_bottom n st ≡ some v → n ≤ length st
le-from_bottom n [] v e = absurd (cc)
le-from_bottom n (x ∷ st) v e = ground (arith, le-from_bottom n st v)

from_bottom-push :
    (n : ℕ) (st : List Value) (v x : Value)
    → from_bottom n st ≡ some v
    → from_bottom n (x ∷ st) ≡ some v
from_bottom-push n st v x e = ground (arith, le-from_bottom n st v)

-- A value that stands at `n` is pushed, on top of up to three others.
module _ (n : ℕ) (st : List Value) (v : Value) (at : from_bottom n st ≡ some v) (api : LuaApi)
    (h : Heap) where
  pub pushvalue-one : (x : Value) → api.lua_pushvalue (slot n) (lua (x ∷ st) h) ≡ lua (v ∷ x ∷ st) h
  pushvalue-one x = api.pushvalue_law (slot n) (x ∷ st) h v (from_bottom-push n st v x at)

  pub pushvalue-two :
      (x y : Value) → api.lua_pushvalue (slot n) (lua (x ∷ y ∷ st) h) ≡ lua (v ∷ x ∷ y ∷ st) h
  pushvalue-two x y =
      api.pushvalue_law (slot n) (x ∷ y ∷ st) h v
        (from_bottom-push n (y ∷ st) v x (from_bottom-push n st v y at))

  pub pushvalue-three :
      (x y z : Value)
      → api.lua_pushvalue (slot n) (lua (x ∷ y ∷ z ∷ st) h) ≡ lua (v ∷ x ∷ y ∷ z ∷ st) h
  pushvalue-three x y z = api.pushvalue_law (slot n) (x ∷ y ∷ z ∷ st) h v (
      from_bottom-push n (y ∷ z ∷ st) v x
        (from_bottom-push n (z ∷ st) v y (from_bottom-push n st v z at)))

module _ (api : LuaApi) (st : List Value) (h : Heap) where
  pub pop-one : (a : Value) → api.lua_pop 1 (lua (a ∷ st) h) ≡ lua st h
  pop-one a = api.pop_law (a ∷ []) st h

  pub pop-two : (a b : Value) → api.lua_pop 2 (lua (a ∷ b ∷ st) h) ≡ lua st h
  pop-two a b = api.pop_law (a ∷ b ∷ []) st h

  pub pop-three : (a b c : Value) → api.lua_pop 3 (lua (a ∷ b ∷ c ∷ st) h) ≡ lua st h
  pop-three a b c = api.pop_law (a ∷ b ∷ c ∷ []) st h

  pub remove-top : (v w : Value) → api.lua_remove (top 2) (lua (v ∷ w ∷ st) h) ≡ lua (v ∷ st) h
  remove-top v w = api.remove_law v w st h

  pub pushlightuserdata_lem :
      (a : Address) → api.lua_pushlightuserdata a (lua st h) ≡ lua (light a ∷ st) h
  pushlightuserdata_lem a = api.pushlightuserdata_law a st h

  pub pushstring_lem : (t : Text) → api.lua_pushstring t (lua st h) ≡ lua (text t ∷ st) h
  pushstring_lem t = api.pushstring_law t st h

  pub pushfstring_lem : (t : Text) → api.lua_pushfstring t (lua st h) ≡ lua (text t ∷ st) h
  pushfstring_lem t = api.pushfstring_law t st h

  pub newuserdata_lem : api.lua_newuserdata (lua st h) ≡ lua (userdata h.next ∷ st) (new_userdata h)
  newuserdata_lem = api.newuserdata_law st h

  pub pushcfunction_lem :
      (f : CFunction) → api.lua_pushcfunction f (lua st h) ≡ lua (function f ∷ st) h
  pushcfunction_lem f = api.pushcfunction_law f st h

  pub newtable_lem : api.lua_newtable (lua st h) ≡ lua (table h.next ∷ st) (new_table h)
  newtable_lem = api.newtable_law st h

  pub setfuncs_lem :
      (fs : Functions) (t : Ref)
      → h.metatable (table t) ≡ nil
      → api.lua_l_setfuncs fs (lua (table t ∷ st) h) ≡ lua (table t ∷ st) (set_functions t fs h)
  setfuncs_lem fs t none_set = api.setfuncs_law fs st h t none_set

  pub type-top : (v : Value) → api.lua_type (top 1) (lua (v ∷ st) h) ≡ kind v
  type-top v = api.type_law (top 1) (v ∷ st) h v refl

  pub pushvalue-top :
      (v w : Value) → api.lua_pushvalue (top 2) (lua (v ∷ w ∷ st) h) ≡ lua (w ∷ v ∷ w ∷ st) h
  pushvalue-top v w = api.pushvalue_law (top 2) (v ∷ w ∷ st) h w refl

  pub rawget-registry :
      (k : Value)
      → api.lua_rawget registry_index (lua (k ∷ st) h)
        ≡ (kind (h.field registry k), lua (h.field registry k ∷ st) h)
  rawget-registry k = api.rawget_law registry_index k st h registry refl

  pub rawget-top :
      (k : Value) (t : Ref)
      → api.lua_rawget (top 2) (lua (k ∷ table t ∷ st) h)
        ≡ (kind (h.field t k), lua (h.field t k ∷ table t ∷ st) h)
  rawget-top k t = api.rawget_law (top 2) k (table t ∷ st) h t refl

  pub rawset-registry :
      (v : Value) (a : Address)
      → api.lua_rawset registry_index (lua (v ∷ light a ∷ st) h)
        ≡ lua st (set_field registry (light a) v h)
  rawset-registry v a = api.rawset_law registry_index v (light a) st h registry refl (λ e. cc)

  pub rawset-text :
      (v : Value) (k : Text) (t : Ref)
      → api.lua_rawset (top 3) (lua (v ∷ text k ∷ table t ∷ st) h)
        ≡ lua (table t ∷ st) (set_field t (text k) v h)
  rawset-text v k t = api.rawset_law (top 3) v (text k) (table t ∷ st) h t refl (λ e. cc)

  pub rawset-thread :
      (v : Value) (l t : Ref)
      → api.lua_rawset (top 3) (lua (v ∷ thread l ∷ table t ∷ st) h)
        ≡ lua (table t ∷ st) (set_field t (thread l) v h)
  rawset-thread v l t = api.rawset_law (top 3) v (thread l) (table t ∷ st) h t refl (λ e. cc)

  pub rawgeti-top :
      (n : ℕ) (t : Ref)
      → api.lua_rawgeti (top 1) n (lua (table t ∷ st) h)
        ≡ (kind (h.field t (integer (pos n))), lua (h.field t (integer (pos n)) ∷ table t ∷ st) h)
  rawgeti-top n t = api.rawgeti_law (top 1) n (table t ∷ st) h t refl

  pub rawseti-top :
      (n : ℕ) (v : Value) (t : Ref)
      → api.lua_rawseti (top 2) n (lua (v ∷ table t ∷ st) h)
        ≡ lua (table t ∷ st) (set_field t (integer (pos n)) v h)
  rawseti-top n v t = api.rawseti_law (top 2) n v (table t ∷ st) h t refl

  pub setfield-top :
      (name : Text) (v : Value) (t : Ref)
      → h.metatable (table t) ≡ nil
      → api.lua_setfield (top 2) name (lua (v ∷ table t ∷ st) h)
        ≡ lua (table t ∷ st) (set_field t (text name) v h)
  setfield-top name v t none_set = api.setfield_law (top 2) name v (table t ∷ st) h t refl none_set

  pub setmetatable-top :
      (m : Ref) (x : Value)
      → api.lua_setmetatable (top 2) (lua (table m ∷ x ∷ st) h)
        ≡ lua (x ∷ st) (set_metatable x (table m) h)
  setmetatable-top m x = api.setmetatable_law (top 2) m x (x ∷ st) h refl

  pub testudata-top :
      (name : Text) (u : Ref)
      → api.lua_l_testudata (top 1) name (lua (userdata u ∷ st) h)
        ≡ (if is_of_class name u h then some u else none)
  testudata-top name u = api.testudata_law (top 1) name u (userdata u ∷ st) h refl

module _ (api : LuaApi) (st : List Value) (h : Heap) where
  pub pushnil_lem : api.lua_pushnil (lua st h) ≡ lua (nil ∷ st) h
  pushnil_lem = api.pushnil_law st h

  pub pushthread_lem :
      (l : Ref) → api.lua_pushthread l (lua st h) ≡ (api.is_main l, lua (thread l ∷ st) h)
  pushthread_lem l = api.pushthread_law l st h

  pub getuservalue-top :
      (u : Ref)
      → api.lua_getuservalue (top 1) (lua (userdata u ∷ st) h)
        ≡ lua (h.uservalue u ∷ userdata u ∷ st) h
  getuservalue-top u = api.getuservalue_law (top 1) u (userdata u ∷ st) h refl

  pub setuservalue-top :
      (t u : Ref)
      → api.lua_setuservalue (top 2) (lua (table t ∷ userdata u ∷ st) h)
        ≡ lua (userdata u ∷ st) (set_uservalue u (table t) h)
  setuservalue-top t u = api.setuservalue_law (top 2) t u (userdata u ∷ st) h refl

  pub settop-same : api.lua_settop (length st) (lua st h) ≡ lua st h
  settop-same = api.settop_law [] st h

  pub settop-one : (a : Value) → api.lua_settop (length st) (lua (a ∷ st) h) ≡ lua st h
  settop-one a = api.settop_law (a ∷ []) st h

  pub settop-three :
      (a b c : Value) → api.lua_settop (length st) (lua (a ∷ b ∷ c ∷ st) h) ≡ lua st h
  settop-three a b c = api.settop_law (a ∷ b ∷ c ∷ []) st h

  pub settop-four :
      (a b c d : Value) → api.lua_settop (length st) (lua (a ∷ b ∷ c ∷ d ∷ st) h) ≡ lua st h
  settop-four a b c d = api.settop_law (a ∷ b ∷ c ∷ d ∷ []) st h

pub checkstack_lem : (api : LuaApi) (n : ℕ) (s : LuaState) → api.lua_checkstack n s ≡ s
checkstack_lem api n s = api.checkstack_law n s

pub ruleset lua_calls = (
  pop-one, pop-two, pop-three, remove-top, pushlightuserdata_lem, pushstring_lem, pushfstring_lem,
  newuserdata_lem, checkstack_lem, pushcfunction_lem, newtable_lem, setfuncs_lem, type-top,
  pushvalue-top, rawget-registry, rawget-top, rawset-registry, rawset-text, rawset-thread,
  rawgeti-top, rawseti-top, pushnil_lem, pushthread_lem, getuservalue-top, setuservalue-top,
  settop-one, settop-three, settop-four, setfield-top, setmetatable-top, testudata-top, ==_refl,
)
