-- ===== src/Interruptible/Guards/Class.antt =====
-- setupInterruptibleMeta, pushInterruptibleMeta and mtint_interruptible_init_module: the metatable of
-- the user data of this library, and the functions of the module.
use lua_mtint.Base.{◌≡◌, ◌≤◌, ◌<◌, ◌⊎◌, inl, inr, refl, arith, Bool, true, false, List, ◌∷◌}
use lua_mtint.Errors.{codes}
use lua_mtint.Lua.{
  Ref, Value, nil, text, function, table, Heap, lua, new_table, set_field, same, registry,
  mt_interruptible_id, mt_interruptible_interrupt, mt_interruptible_to_string,
  mt_interruptible_release,
}
use lua_mtint.Lua.Api.{LuaApi, set_functions, new_class}
use lua_mtint.Lua.Rules.{lua_calls, setfield-top}
use lua_mtint.Interruptible.Guards.{
  interruptible_class_name, setup_interruptible_meta, push_interruptible_meta,
  interruptible_methods, interruptible_meta_methods,
}

-- The metatable with its own fields, and the table of the methods.
abbrev pub with_meta_fields : Ref → Heap → Heap
with_meta_fields c h =
    set_functions c interruptible_meta_methods
      (set_field c (text (codes "__metatable")) (text interruptible_class_name) h)

abbrev pub with_methods : Heap → Heap
with_methods h = set_functions h.next interruptible_methods (new_table h)

abbrev pub with_class : Ref → Heap → Heap
with_class c h =
    set_field c (text (codes "__index")) (table h.next) (with_methods (with_meta_fields c h))

-- What the metatable `c` gives Lua: the finalizer, the text, the methods, and that it is hidden.
pub record IsClass (c : Ref) (h : Heap) : Type 0 where
  pub gc_is : h.field c (text (codes "__gc")) ≡ function mt_interruptible_release
  pub tostring_is : h.field c (text (codes "__tostring")) ≡ function mt_interruptible_to_string
  pub metatable_is : h.field c (text (codes "__metatable")) ≡ text interruptible_class_name
  pub methods : Ref
  pub index_is : h.field c (text (codes "__index")) ≡ table methods
  pub id_is : h.field methods (text (codes "id")) ≡ function mt_interruptible_id
  pub interrupt_is :
      h.field methods (text (codes "interrupt")) ≡ function mt_interruptible_interrupt
  pub exists : c < h.next
  pub methods_exist : methods < h.next
  pub real : registry < c
  pub methods_real : registry < methods

with_class-IsClass : (c : Ref) (h : Heap) → registry < c → c < h.next → IsClass c (with_class c h)
with_class-IsClass c h real lt = record {
  gc_is = ground arith;
  tostring_is = ground arith;
  metatable_is = ground arith;
  methods = h.next;
  index_is = ground arith;
  id_is = ground arith;
  interrupt_is = ground arith;
  exists = omega arith;
  methods_exist = omega arith;
  real = real;
  methods_real = omega arith;
}

-- The registry has no metatable for the user data of this library yet, or has one with its fields.
abbrev pub IsClassOrNil : Heap → Type 0
IsClassOrNil h =
    (h.field registry (text interruptible_class_name) ≡ nil)
    ⊎ ((c : Ref) × (h.field registry (text interruptible_class_name) ≡ table c) × IsClass c h)

-- Old tables stay as they are, but for the metatable's entry in the registry.
pub record Keeps (h h' : Heap) : Type 0 where
  pub next_le : h.next ≤ h'.next
  pub field_eq : (t : Ref) (k : Value) → registry < t → t < h.next → h'.field t k ≡ h.field t k
  pub registry_eq :
      (k : Value)
      → same (text interruptible_class_name) k ≡ false
      → h'.field registry k ≡ h.field registry k
  pub metatable_eq : (t : Ref) → t < h.next → h'.metatable (table t) ≡ h.metatable (table t)

-- The metatable as luaL_newmetatable and setupInterruptibleMeta leave it.
abbrev made_class : Bool → Heap → Heap
made_class sets_name h = with_class h.next (new_class sets_name interruptible_class_name h)

made_class-Keeps : (b : Bool) (h : Heap) → registry < h.next → Keeps h (made_class b h)
made_class-Keeps true h real = record {
  next_le = omega arith;
  field_eq = λ t k real' lt. ground arith;
  registry_eq = λ k other. ground (arith, other);
  metatable_eq = λ t lt. ground arith;
}
made_class-Keeps false h real = record {
  next_le = omega arith;
  field_eq = λ t k real' lt. ground arith;
  registry_eq = λ k other. ground (arith, other);
  metatable_eq = λ t lt. ground arith;
}

made_class-IsClass : (b : Bool) (h : Heap) → registry < h.next → IsClass h.next (made_class b h)
made_class-IsClass true h real = with_class-IsClass h.next _ real (omega arith)
made_class-IsClass false h real = with_class-IsClass h.next _ real (omega arith)

made_class-entry :
    (b : Bool) (h : Heap)
    → registry < h.next
    → (made_class b h).field registry (text interruptible_class_name) ≡ table h.next
made_class-entry true h real = ground arith
made_class-entry false h real = ground arith

new_class-plain :
    (b : Bool) (h : Heap)
    → ((new_class b interruptible_class_name h).metatable (table h.next) ≡ nil)
      × (h.next < (new_class b interruptible_class_name h).next)
new_class-plain true h = (ground arith, omega arith)
new_class-plain false h = (ground arith, omega arith)

module _ (api : LuaApi) where
  setup_interruptible_meta_lem :
      (st : List Value) (h : Heap) (c : Ref)
      → h.metatable (table c) ≡ nil
      → c < h.next
      → setup_interruptible_meta api (lua (table c ∷ st) h) ≡ lua (table c ∷ st) (with_class c h)
  unfolding setup_interruptible_meta
  setup_interruptible_meta_lem st h c plain lt =
      simp (lua_calls, plain)
        (setfield-top api st (with_methods (with_meta_fields c h)) (codes "__index") (table h.next)
          c (ground arith))

  -- pushInterruptibleMeta, with the metatable that it pushes.
  pub push_interruptible_meta_lem :
      (st : List Value) (h : Heap)
      → registry < h.next
      → IsClassOrNil h
      → (h' : Heap) × (c : Ref) × (push_interruptible_meta api (lua st h) ≡ lua (table c ∷ st) h')
        × (h'.field registry (text interruptible_class_name) ≡ table c)
        × IsClass c h'
        × Keeps h h'
  unfolding push_interruptible_meta
  push_interruptible_meta_lem st h real (inl e) = (
    made_class api.sets_name h,
    h.next,
    rw (api.newmetatable_new_law interruptible_class_name st h e) (
        setup_interruptible_meta_lem st _ h.next (new_class-plain api.sets_name h).0
          (new_class-plain api.sets_name h).1),
    made_class-entry api.sets_name h real,
    made_class-IsClass api.sets_name h real,
    made_class-Keeps api.sets_name h real,
  )
  push_interruptible_meta_lem st h real (inr (c, e, class)) = (
    h,
    c,
    rw (api.newmetatable_old_law interruptible_class_name st h (λ none'. cc)) (rw e),
    e,
    class,
    record {
      next_le = omega arith;
      field_eq = λ t k real' lt. refl;
      registry_eq = λ k other. refl;
      metatable_eq = λ t lt. refl;
    },
  )
