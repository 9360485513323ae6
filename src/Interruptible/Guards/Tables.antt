-- ===== src/Interruptible/Guards/Tables.antt =====
-- What the functions of Interruptible.Guards do to the stack and the tables.
use lua_mtint.Base.{
  ◌+◌, ◌≡◌, inl, inr, refl, arith, Option, none, some, List, ◌∷◌, if◌then◌else◌, Bool-cases,
  Option-cases,
}
use lua_mtint.Base.Int.{pos}
use lua_mtint.Errors.{codes}
use lua_mtint.Lua.{
  Ref, top, lua_ttable, lua_tuserdata, coroutine_guard_class_name, module_name,
  guard_coroutine_release, Value, nil, integer, text, light, function, table, userdata, Heap, lua,
  new_table, set_field, set_metatable, registry, kind,
}
use lua_mtint.Lua.Api.{LuaApi, is_of_class}
use lua_mtint.Lua.Rules.{lua_calls}
use lua_mtint.Interruptible.Guards.{
  module_name_text, push_interruptible_lookup_table, lookup_in_guard,
  push_coroutine_guard_meta_table, coroutine_guard_class_name_text, interruptible_class_name,
}

-- The heap with a new lookup table, and its metatable behind it.
abbrev pub with_lookup_table : Heap → Heap
with_lookup_table h = set_field registry (light module_name) (table h.next) (
    set_metatable (table h.next) (table (h.next + 1)) (
      set_field (h.next + 1) (text (codes "__metatable")) (text module_name_text) (
        set_field (h.next + 1) (text (codes "__mode")) (text (codes "k"))
          (new_table (new_table h)))))

-- The heap with a new metatable for the guards of coroutines.
abbrev pub with_guard_meta_table : Heap → Heap
with_guard_meta_table h = set_field registry (light coroutine_guard_class_name) (table h.next) (
    set_field h.next (text (codes "__metatable")) (text coroutine_guard_class_name_text)
      (set_field h.next (text (codes "__gc")) (function guard_coroutine_release) (new_table h)))

-- What luaL_testudata finds.
abbrev pub udata_in : Value → Heap → Option Ref
udata_in (userdata u) h = if is_of_class interruptible_class_name u h then some u else none
udata_in _ h = none

-- The user data that a guard leads to.
abbrev pub guard_udata : Value → Heap → Option Ref
guard_udata (table g) h = udata_in (h.field g (integer (pos 1))) h
guard_udata (userdata u) h = udata_in (userdata u) h
guard_udata _ h = none

abbrev pub pushed : Option Ref → List Value → List Value
pushed none st = st
pushed (some u) st = userdata u ∷ st

-- The lookup table, and the metatable of guards, if the registry has them.
abbrev pub lookup_table : Heap → Value
lookup_table h = h.field registry (light module_name)

abbrev pub guard_meta_table : Heap → Value
guard_meta_table h = h.field registry (light coroutine_guard_class_name)

-- The heap in which the lookup table is there.
abbrev pub assured_from : Value → Heap → Heap
assured_from nil h = with_lookup_table h
assured_from _ h = h

abbrev pub assured_meta_from : Value → Heap → Heap
assured_meta_from nil h = with_guard_meta_table h
assured_meta_from _ h = h

udata_in-some : (v : Value) (h : Heap) (u : Ref) → udata_in v h ≡ some u → v ≡ userdata u
udata_in-some (userdata q) h u e = ground arith
udata_in-some v h u e = absurd (cc)

module _ (api : LuaApi) where
  pub push_new_lookup_table :
      (st : List Value) (h : Heap)
      → lookup_table h ≡ nil
      → push_interruptible_lookup_table api (lua st h)
        ≡ lua (table h.next ∷ st) (with_lookup_table h)
  unfolding push_interruptible_lookup_table
  push_new_lookup_table st h e = simp (lua_calls, e)

  pub push_old_lookup_table :
      (st : List Value) (h : Heap) (t : Ref)
      → lookup_table h ≡ table t
      → push_interruptible_lookup_table api (lua st h) ≡ lua (table t ∷ st) h
  unfolding push_interruptible_lookup_table
  push_old_lookup_table st h t e = simp (lua_calls, e)

  pub push_new_guard_meta_table :
      (st : List Value) (h : Heap)
      → guard_meta_table h ≡ nil
      → push_coroutine_guard_meta_table api (lua st h)
        ≡ lua (table h.next ∷ st) (with_guard_meta_table h)
  unfolding push_coroutine_guard_meta_table
  push_new_guard_meta_table st h e = simp (lua_calls, e)

  pub push_old_guard_meta_table :
      (st : List Value) (h : Heap) (t : Ref)
      → guard_meta_table h ≡ table t
      → push_coroutine_guard_meta_table api (lua st h) ≡ lua (table t ∷ st) h
  unfolding push_coroutine_guard_meta_table
  push_old_guard_meta_table st h t e = simp (lua_calls, e)

  testudata-any :
      (st : List Value) (h : Heap) (v : Value)
      → api.lua_l_testudata (top 1) interruptible_class_name (lua (v ∷ st) h) ≡ udata_in v h
  testudata-any st h (userdata u) = simp lua_calls
  testudata-any st h v = api.testudata_other_law (top 1) _ _ _ h refl (λ u e. cc)

  lookup_in_udata :
      (st : List Value) (h : Heap) (u t : Ref)
      → lookup_in_guard api lua_tuserdata (lua (userdata u ∷ table t ∷ st) h)
        ≡ (udata_in (userdata u) h, lua (pushed (udata_in (userdata u) h) st) h)
  unfolding lookup_in_guard
  lookup_in_udata st h u t = elim (Bool-cases (is_of_class interruptible_class_name u h)) [
    | inl e ↦ simp (lua_calls, e, lookup_in_guard)
    | inr e ↦ simp (lua_calls, e, lookup_in_guard)
  ]

  lookup_in_table :
      (st : List Value) (h : Heap) (g t : Ref)
      → lookup_in_guard api lua_ttable (lua (table g ∷ table t ∷ st) h)
        ≡ (guard_udata (table g) h, lua (pushed (guard_udata (table g) h) st) h)
  unfolding lookup_in_guard
  lookup_in_table st h g t = elim (Option-cases (udata_in (h.field g (integer (pos 1))) h)) [
    | inl e ↦ simp (lua_calls, testudata-any, e, lookup_in_guard)
    | inr (u, e) ↦
        simp (lua_calls, testudata-any, e, lookup_in_guard)
          (rw (udata_in-some (h.field g (integer (pos 1))) h u e))
  ]

  pub lookup_in_guard_lem :
      (st : List Value) (h : Heap) (v : Value) (t : Ref)
      → lookup_in_guard api (kind v) (lua (v ∷ table t ∷ st) h)
        ≡ (guard_udata v h, lua (pushed (guard_udata v h) st) h)
  unfolding lookup_in_guard
  lookup_in_guard_lem st h (table g) t = lookup_in_table st h g t
  lookup_in_guard_lem st h (userdata u) t = lookup_in_udata st h u t
  lookup_in_guard_lem st h _ t = simp lua_calls
