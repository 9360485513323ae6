-- ===== src/OpenModule/Fields.antt =====
-- The table that require("mtint") returns, and what else luaopen_mtint does to the Lua state.
use lua_mtint.Base.{◌+◌, ◌≡◌, arith, List, [], ◌∷◌, length, ◌++◌}
use native.Mathlib.Numerals.{add-one}
use lua_mtint.Errors.{
  Text, codes, error_name, not_supported, object_exists, object_closed, unknown_object, interrupted,
  out_of_memory, ErrorName, error_class_name,
}
use lua_mtint.Atomic.Backends.{Backend}
use lua_mtint.Sync.{Platform}
use lua_mtint.Lua.{Ref, Value, nil, text, table, Heap, lua, new_table, set_field, slot}
use lua_mtint.Lua.Api.{LuaApi, set_functions}
use lua_mtint.Lua.Rules.{lua_calls, newtable_lem, checkstack_lem}
use lua_mtint.Interruptible.Guards.{
  interruptible_init_module, push_interruptible_meta, module_functions,
}
use lua_mtint.OpenModule.{info, fill_module, open_module, error_init_module_in}

abbrev pub with_fields : (version : Text) → Backend → Platform → (m e : Ref) → Heap → Heap
with_fields version b p m e h = set_field m (text (codes "error")) (table e) (
    set_field m (text (codes "_INFO")) (text (info b p))
      (set_field m (text (codes "_VERSION")) (text version) h))

abbrev pub with_error : Ref → ErrorName → Heap → Heap
with_error e name h =
    set_field e (text (error_name name)) (text (error_class_name ++ (codes "." ++ error_name name)))
      h

abbrev pub with_errors : Ref → Heap → Heap
with_errors e h = with_error e out_of_memory (
    with_error e interrupted (
      with_error e unknown_object
        (with_error e object_closed (with_error e object_exists (with_error e not_supported h)))))

-- The stack has the error table and the module's on top.
module _ (api : LuaApi) (st : List Value) (m e : Ref) where
  push-module :
      (h : Heap)
      → api.lua_pushvalue (slot (length st + 1)) (lua (table e ∷ table m ∷ st) h)
        ≡ lua (table m ∷ table e ∷ table m ∷ st) h
  push-module h = api.pushvalue_law (slot (length st + 1)) _ h (table m) (ground arith)

  push-errors :
      (h : Heap)
      → api.lua_pushvalue (slot (length st + 2)) (lua (table e ∷ table m ∷ st) h)
        ≡ lua (table e ∷ table e ∷ table m ∷ st) h
  push-errors h = api.pushvalue_law (slot (length st + 2)) _ h (table e) (ground arith)

  setfield-module :
      (name : Text) (v : Value) (h : Heap)
      → h.metatable (table m) ≡ nil
      → api.lua_setfield (slot (length st + 1)) name (lua (v ∷ table e ∷ table m ∷ st) h)
        ≡ lua (table e ∷ table m ∷ st) (set_field m (text name) v h)
  setfield-module name v h plain =
      api.setfield_law (slot (length st + 1)) name v _ h m (ground arith) plain

  setfield-errors :
      (name : Text) (v : Value) (h : Heap)
      → h.metatable (table e) ≡ nil
      → api.lua_setfield (slot (length st + 2)) name (lua (v ∷ table e ∷ table m ∷ st) h)
        ≡ lua (table e ∷ table m ∷ st) (set_field e (text name) v h)
  setfield-errors name v h plain =
      api.setfield_law (slot (length st + 2)) name v _ h e (ground arith) plain

  fill_module_lem :
      (version : Text) (b : Backend) (p : Platform) (h : Heap)
      → h.metatable (table m) ≡ nil
      → fill_module api version b p
          (slot (length st + 1))
          (slot (length st + 2))
          (lua (table e ∷ table m ∷ st) h)
        ≡ lua (table e ∷ table m ∷ st) (with_fields version b p m e h)
  unfolding fill_module
  fill_module_lem version b p h plain =
      simp (lua_calls, push-module, push-errors, setfield-module, plain)

  interruptible_init_module_lem :
      (h h' : Heap) (c : Ref)
      → push_interruptible_meta api (lua (table e ∷ table m ∷ st) h)
        ≡ lua (table c ∷ table e ∷ table m ∷ st) h'
      → h'.metatable (table m) ≡ nil
      → interruptible_init_module api (slot (length st + 1)) (lua (table e ∷ table m ∷ st) h)
        ≡ lua (table e ∷ table m ∷ st) (set_functions m module_functions h')
  unfolding interruptible_init_module
  interruptible_init_module_lem h h' c run plain = simp (run, lua_calls, push-module, plain)

  error_init_module_in_lem :
      (h : Heap)
      → h.metatable (table e) ≡ nil
      → error_init_module_in api (slot (length st + 2)) (lua (table e ∷ table m ∷ st) h)
        ≡ lua (table e ∷ table m ∷ st) (with_errors e h)
  unfolding error_init_module_in
  error_init_module_in_lem h plain = simp (lua_calls, setfield-errors, plain)

  settop-module :
      (h : Heap)
      → api.lua_settop (length st + 1) (lua (table e ∷ table m ∷ st) h) ≡ lua (table m ∷ st) h
  settop-module h = rw add-one (api.settop_law (table e ∷ []) (table m ∷ st) h)

-- The table of the module, and that of the errors behind it.
module _ (version : Text) (b : Backend) (p : Platform) (h : Heap) where
  abbrev pub filled : Heap
  filled = with_fields version b p h.next (h.next + 1) (new_table (new_table h))

  -- `h'` has the metatable too.
  abbrev pub finished : Heap → Heap
  finished h' = with_errors (h.next + 1) (set_functions h.next module_functions h')

module _ (api : LuaApi) (version : Text) (b : Backend) (p : Platform) (st : List Value)
    (h : Heap) where
  abbrev before : Heap
  before = filled version b p h

  filled-plain :
      (before.metatable (table h.next) ≡ nil) × (before.metatable (table (h.next + 1)) ≡ nil)
  filled-plain = (ground arith, ground arith)

  pub open_module_run :
      (h' : Heap) (c : Ref)
      → push_interruptible_meta api (lua (table (h.next + 1) ∷ table h.next ∷ st) before)
        ≡ lua (table c ∷ table (h.next + 1) ∷ table h.next ∷ st) h'
      → h'.metatable (table h.next) ≡ nil
      → h'.metatable (table (h.next + 1)) ≡ nil
      → open_module api version b p (lua st h) ≡ lua (table h.next ∷ st) (finished version b p h h')
  unfolding open_module
  open_module_run h' c run plain_m plain_e = simp (
    api.gettop_law st h,
    newtable_lem,
    checkstack_lem,
    fill_module_lem api st h.next (h.next + 1) version b p (new_table (new_table h)) filled-plain.0,
    interruptible_init_module_lem api st h.next (h.next + 1) before h' c run plain_m,
    error_init_module_in_lem api st h.next (h.next + 1) (set_functions h.next module_functions h')
        plain_e,
    settop-module,
  )
