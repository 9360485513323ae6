-- ===== src/Examples/LuaStates.antt =====
-- A stack machine that behaves as Lua's C API is said to.
use lua_mtint.Base.{
  ℕ, ◌-◌, ◌≡◌, ◌≢◌, refl, ap, arith, zero, suc, Bool, true, false, Option, none, some, List, [],
  ◌∷◌, ◌++◌, ◌==◌, length, length-append, if◌then◌else◌,
}
use lua_mtint.Base.Int.{pos}
use lua_mtint.Errors.{Text}
use lua_mtint.Lua.{
  Ref, Value, nil, integer, text, light, function, table, userdata, thread, set_uservalue, LuaType,
  lua_tnil, kind, Heap, registry, set_field, set_metatable, new_table, new_userdata, LuaState, lua,
  Index, top, value_at,
}
use lua_mtint.Lua.Api.{LuaApi, set_functions, new_class, is_of_class}

abbrev drop : ℕ → List Value → List Value
drop zero st = st
drop (suc n) [] = []
drop (suc n) (v ∷ st) = drop n st

pub drop-length : (vs st : List Value) → drop (length vs) (vs ++ st) ≡ st
drop-length [] st = refl
drop-length (v ∷ vs) st = drop-length vs st

abbrev or_nil : Option Value → Value
or_nil none = nil
or_nil (some v) = v

abbrev on_table {ℓ} : {A : Type ℓ} → Option Value → A → (Ref → A) → A
on_table (some (table t)) a f = f t
on_table _ a f = a

abbrev push : Value → LuaState → LuaState
push v s = lua (v ∷ s.stack) s.heap

abbrev get_raw : Index → List Value → Heap → LuaType × LuaState
get_raw i [] h = (lua_tnil, lua [] h)
get_raw i (k ∷ st) h =
    on_table (value_at i (k ∷ st)) (lua_tnil, lua (k ∷ st) h)
      (λ t. (kind (h.field t k), lua (h.field t k ∷ st) h))

abbrev set_raw : Index → List Value → Heap → LuaState
set_raw i (v ∷ k ∷ st) h =
    on_table (value_at i (v ∷ k ∷ st)) (lua (v ∷ k ∷ st) h) (λ t. lua st (set_field t k v h))
set_raw i st h = lua st h

-- The field `k` is set to the value on top.
abbrev set_key : Index → Value → List Value → Heap → LuaState
set_key i k [] h = lua [] h
set_key i k (v ∷ st) h =
    on_table (value_at i (v ∷ st)) (lua (v ∷ st) h) (λ t. lua st (set_field t k v h))

abbrev set_meta : Index → List Value → Heap → LuaState
set_meta i [] h = lua [] h
set_meta i (m ∷ st) h = lua st (set_metatable (or_nil (value_at i (m ∷ st))) m h)

abbrev uservalue_of : Value → Heap → Value
uservalue_of (userdata u) h = h.uservalue u
uservalue_of v h = nil

abbrev on_udata : Value → Value → Heap → Heap
on_udata (userdata u) v h = set_uservalue u v h
on_udata _ v h = h

abbrev attach : Index → List Value → Heap → LuaState
attach i [] h = lua [] h
attach i (v ∷ st) h = lua st (on_udata (or_nil (value_at i (v ∷ st))) v h)

-- Every function returns at once.
abbrev call_top : List Value → Heap → Option LuaState
call_top [] h = none
call_top (f ∷ st) h = some (lua st h)

abbrev remove_second : List Value → List Value
remove_second (v ∷ w ∷ st) = v ∷ st
remove_second st = st

abbrev test_udata : Text → Value → Heap → Option Ref
test_udata name (userdata u) h = if is_of_class name u h then some u else none
test_udata name v h = none

abbrev is_nil_value : Value → Bool
is_nil_value nil = true
is_nil_value _ = false

abbrev class_entry : Text → Value → List Value → Heap → Bool × LuaState
class_entry name nil st h = (true, lua (table h.next ∷ st) (new_class true name h))
class_entry name v st h = (false, lua (v ∷ st) h)

pub class_entry-old :
    (name : Text) (v : Value) (st : List Value) (h : Heap)
    → v ≢ nil
    → class_entry name v st h ≡ (false, lua (v ∷ st) h)
class_entry-old name nil st h some' = absurd (some' refl)
class_entry-old name v st h some' = refl

pub test_udata-other :
    (name : Text) (v : Value) (h : Heap) → ((u : Ref) → v ≢ userdata u) → test_udata name v h ≡ none
test_udata-other name (userdata u) h other = absurd (other u refl)
test_udata-other name v h other = refl

pub settop-drop : (vs st : List Value) → drop (length (vs ++ st) - length st) (vs ++ st) ≡ st
settop-drop vs st =
    let n : length (vs ++ st) - length st ≡ length vs = omega (arith, length-append vs st) in
    rw n (drop-length vs st)

abbrev pub machine : LuaApi
machine = record {
  sets_name = true;
  lua_gettop = λ s. length s.stack;
  lua_type = λ i s. kind (or_nil (value_at i s.stack));
  lua_pushvalue = λ i s. push (or_nil (value_at i s.stack)) s;
  lua_pop = λ n s. lua (drop n s.stack) s.heap;
  lua_settop = λ n s. lua (drop (length s.stack - n) s.stack) s.heap;
  lua_remove = λ i s. lua (remove_second s.stack) s.heap;
  lua_pushlightuserdata = λ a s. push (light a) s;
  lua_pushstring = λ t s. push (text t) s;
  lua_pushfstring = λ t s. push (text t) s;
  lua_newuserdata = λ s. lua (userdata s.heap.next ∷ s.stack) (new_userdata s.heap);
  lua_pushnil = λ s. push nil s;
  lua_pushthread = λ l s. (l == 0, push (thread l) s);
  lua_getuservalue = λ i s. push (uservalue_of (or_nil (value_at i s.stack)) s.heap) s;
  lua_setuservalue = λ i s. attach i s.stack s.heap;
  lua_call = λ s. call_top s.stack s.heap;
  is_main = λ l. l == 0;
  called = λ f h. some h;
  lua_checkstack = λ n s. s;
  lua_pushcfunction = λ f s. push (function f) s;
  lua_newtable = λ s. lua (table s.heap.next ∷ s.stack) (new_table s.heap);
  lua_rawget = λ i s. get_raw i s.stack s.heap;
  lua_rawset = λ i s. set_raw i s.stack s.heap;
  lua_rawgeti = λ i n s.
      on_table (value_at i s.stack) (lua_tnil, s)
        (λ t. (kind (s.heap.field t (integer (pos n))), push (s.heap.field t (integer (pos n))) s));
  lua_rawseti = λ i n s. set_key i (integer (pos n)) s.stack s.heap;
  lua_setfield = λ i name s. set_key i (text name) s.stack s.heap;
  lua_setmetatable = λ i s. set_meta i s.stack s.heap;
  lua_l_newmetatable =
      λ name s. class_entry name (s.heap.field registry (text name)) s.stack s.heap;
  lua_l_setfuncs =
      λ fs s. on_table (value_at (top 1) s.stack) s (λ t. lua s.stack (set_functions t fs s.heap));
  lua_l_testudata = λ i name s. test_udata name (or_nil (value_at i s.stack)) s.heap;
  gettop_law = λ st h. refl;
  type_law = λ i st h v e. rw e refl;
  pushvalue_law = λ i st h v e. rw e refl;
  pop_law = λ vs st h. ap (λ s. lua s h) (drop-length vs st);
  settop_law = λ vs st h. ap (λ s. lua s h) (settop-drop vs st);
  remove_law = λ v w st h. refl;
  pushlightuserdata_law = λ a st h. refl;
  pushstring_law = λ t st h. refl;
  pushfstring_law = λ t st h. refl;
  newuserdata_law = λ st h. refl;
  pushnil_law = λ st h. refl;
  pushthread_law = λ l st h. refl;
  getuservalue_law = λ i u st h e. rw e refl;
  setuservalue_law = λ i t u st h e. rw e refl;
  call_law = λ f st h e. refl;
  checkstack_law = λ n s. refl;
  pushcfunction_law = λ f st h. refl;
  newtable_law = λ st h. refl;
  rawget_law = λ i k st h t e. rw e refl;
  rawset_law = λ i v k st h t e ne. rw e refl;
  rawgeti_law = λ i n st h t e. rw e refl;
  rawseti_law = λ i n v st h t e. rw e refl;
  setfield_law = λ i name v st h t e plain. rw e refl;
  setmetatable_law = λ i m x st h e. rw e refl;
  newmetatable_new_law = λ name st h e. rw e refl;
  newmetatable_old_law = λ name st h ne. class_entry-old name _ st h ne;
  setfuncs_law = λ fs st h t plain. refl;
  testudata_law = λ i name u st h e. rw e refl;
  testudata_other_law = λ i name v st h e other. rw e (test_udata-other name v h other);
}
