-- ===== src/Interruptible/Guards/Extends.antt =====
-- Heaps that have more tables, while the lookup table and all other old tables stay as they are.
use lua_mtint.Base.{◌≡◌, ◌≤◌, ◌<◌, ◌∙◌, inl, inr, refl, sym, arith}
use lua_mtint.Base.Int.{pos}
use lua_mtint.Lua.{
  Ref, coroutine_guard_class_name, Value, integer, text, light, table, userdata, thread, Heap,
  new_table, set_field, set_metatable, registry,
}
use lua_mtint.Lua.Api.{is_of_class}
use lua_mtint.Interruptible.Guards.{interruptible_class_name}
use lua_mtint.Interruptible.Guards.Tables.{udata_in, guard_udata, lookup_table, guard_meta_table}
use lua_mtint.Interruptible.Guards.Lookup.{guard_in, guard_of, IsTableOrNil, IsSound}

pub record Extends (h h' : Heap) : Type 0 where
  pub next_le : h.next ≤ h'.next
  pub lookup_eq : lookup_table h' ≡ lookup_table h
  pub class_eq :
      h'.field registry (text interruptible_class_name)
      ≡ h.field registry (text interruptible_class_name)
  pub field_eq : (t : Ref) (k : Value) → registry < t → t < h.next → h'.field t k ≡ h.field t k
  pub metatable_eq : (u : Ref) → h'.metatable (userdata u) ≡ h.metatable (userdata u)

pub Extends-refl : (h : Heap) → Extends h h
Extends-refl h = record {
  next_le = omega arith;
  lookup_eq = refl;
  class_eq = refl;
  field_eq = λ t k real lt. refl;
  metatable_eq = λ u. refl;
}

pub Extends-new_table : {h h' : Heap} → Extends h h' → registry < h.next → Extends h (new_table h')
Extends-new_table {h} {h'} e real = record {
  next_le = omega (arith, e.next_le);
  lookup_eq = ground (arith, e.lookup_eq, e.next_le);
  class_eq = ground (arith, e.class_eq, e.next_le);
  field_eq = λ t k real' lt. ground (arith, e.field_eq t k, e.next_le);
  metatable_eq = e.metatable_eq;
}

pub Extends-set_field :
    {h h' : Heap} (g : Ref) (k v : Value)
    → Extends h h'
    → h.next ≤ g
    → registry < h.next
    → Extends h (set_field g k v h')
Extends-set_field {h} {h'} g k v e new' real = record {
  next_le = e.next_le;
  lookup_eq = ground (arith, e.lookup_eq);
  class_eq = ground (arith, e.class_eq);
  field_eq = λ t j real' lt. ground (arith, e.field_eq t j);
  metatable_eq = e.metatable_eq;
}

-- An entry of the registry under the key of the metatable of guards.
pub Extends-set_meta :
    {h h' : Heap} (v : Value)
    → Extends h h'
    → Extends h (set_field registry (light coroutine_guard_class_name) v h')
Extends-set_meta v e = record {
  next_le = e.next_le;
  lookup_eq = e.lookup_eq;
  class_eq = e.class_eq;
  field_eq = λ t j real lt. ground (arith, e.field_eq t j);
  metatable_eq = e.metatable_eq;
}

pub Extends-set_metatable :
    {h h' : Heap} (g : Ref) (m : Value) → Extends h h' → Extends h (set_metatable (table g) m h')
Extends-set_metatable g m e = record {
  next_le = e.next_le;
  lookup_eq = e.lookup_eq;
  class_eq = e.class_eq;
  field_eq = e.field_eq;
  metatable_eq = e.metatable_eq;
}

-- An object's class and what a guard leads to depend on old tables only.
pub Extends-is_of_class :
    {h h' : Heap} (u : Ref)
    → Extends h h'
    → is_of_class interruptible_class_name u h' ≡ is_of_class interruptible_class_name u h
Extends-is_of_class u e = rw (e.metatable_eq u, e.class_eq)

Extends-udata_in : {h h' : Heap} (v : Value) → Extends h h' → udata_in v h' ≡ udata_in v h
Extends-udata_in (userdata u) e = rw (Extends-is_of_class u e)
Extends-udata_in v e = refl

Extends-guard_udata :
    {h h' : Heap} (v : Value)
    → Extends h h'
    → ((g : Ref) → v ≡ table g → (registry < g) × (g < h.next))
    → guard_udata v h' ≡ guard_udata v h
Extends-guard_udata (table g) e old =
    rw (e.field_eq g (integer (pos 1)) (old g refl).0 (old g refl).1) (Extends-udata_in _ e)
Extends-guard_udata (userdata u) e old = Extends-udata_in (userdata u) e
Extends-guard_udata v e old = refl

pub Extends-guard_in :
    {h h' : Heap} (l : Ref)
    → IsSound h
    → Extends h h'
    → guard_in (lookup_table h') l h' ≡ guard_in (lookup_table h) l h
Extends-guard_in {h} {h'} l s e = elim s.lookup_is [
  | inl none' ↦ rw (e.lookup_eq, none')
  | inr (t, is, real, lt) ↦ rw (e.lookup_eq, is) (e.field_eq t (thread l) real lt)
]

pub Extends-guard_of :
    {h h' : Heap} (l : Ref) → IsSound h → Extends h h' → guard_of h' l ≡ guard_of h l
Extends-guard_of {h} {h'} l s e =
    rw (Extends-guard_in l s e) (Extends-guard_udata _ e (λ g is. s.guard_is l g is))

pub Extends-IsSound :
    {h h' : Heap} → IsSound h → Extends h h' → IsTableOrNil (guard_meta_table h') h' → IsSound h'
Extends-IsSound {h} {h'} s e meta = record {
  has_registry = omega (arith, s.has_registry, e.next_le);
  lookup_is = elim s.lookup_is [
    | inl none' ↦ inl (e.lookup_eq ∙ none')
    | inr (t, is, real, lt) ↦ inr (t, e.lookup_eq ∙ is, real, omega (arith, e.next_le))
  ];
  meta_is = meta;
  guard_is = λ l g is.
      let old : (registry < g) × (g < h.next) =
        s.guard_is l g (sym (Extends-guard_in l s e) ∙ is) in
      (old.0, omega (arith, e.next_le));
}
