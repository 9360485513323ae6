-- ===== src/Interruptible/Guards/Hooks/UserValue.antt =====
-- The tables of a Lua state when the user value of user data is made, and when a hook is set in it.
use lua_mtint.Base.{false, ◌≡◌, ◌≢◌, ◌<◌, ◌∙◌, refl, sym, arith, ◌==◌}
use lua_mtint.Base.Int.{pos}
use lua_mtint.Lua.{
  Ref, Value, integer, table, userdata, Heap, set_field, set_uservalue, new_table, registry,
}
use lua_mtint.Interruptible.Guards.Tables.{udata_in, lookup_table, guard_udata}
use lua_mtint.Interruptible.Guards.Lookup.{IsSound, guard_in, guard_of}
use lua_mtint.Interruptible.Guards.Extends.{
  Extends, Extends-refl, Extends-new_table, Extends-IsSound, Extends-guard_of, Extends-guard_in,
}

-- The user data `u` have the table `uv` as their user value, which is no guard of a coroutine.
pub record HasUserValue (u uv : Ref) (h : Heap) : Type 0 where
  pub is : h.uservalue u ≡ table uv
  pub no_guard : (l : Ref) → guard_in (lookup_table h) l h ≢ table uv

-- The heap with the hook `f`.
abbrev pub with_hook : Ref → Value → Heap → Heap
with_hook uv f h = set_field uv (integer (pos 1)) f h

with_hook-udata_in :
    (h : Heap) (uv : Ref) (f v : Value) → udata_in v (with_hook uv f h) ≡ udata_in v h
with_hook-udata_in h uv f (userdata u) = ground arith
with_hook-udata_in h uv f v = refl

with_hook-guard_udata :
    (h : Heap) (uv : Ref) (f v : Value)
    → v ≢ table uv
    → guard_udata v (with_hook uv f h) ≡ guard_udata v h
with_hook-guard_udata h uv f (table g) apart =
    let other : (uv == g) ≡ false = ground (arith, apart) in
    rw (other) (with_hook-udata_in h uv f _)
with_hook-guard_udata h uv f (userdata u) apart = with_hook-udata_in h uv f (userdata u)
with_hook-guard_udata h uv f v apart = refl

with_hook-guard_in :
    (h : Heap) (uv : Ref) (f v : Value) (l : Ref) → guard_in v l (with_hook uv f h) ≡ guard_in v l h
with_hook-guard_in h uv f (table t) l = ground arith
with_hook-guard_in h uv f v l = refl

with_hook-lookup_table :
    (h : Heap) (uv : Ref) (f : Value) → lookup_table (with_hook uv f h) ≡ lookup_table h
with_hook-lookup_table h uv f = ground arith

with_hook-guard :
    (h : Heap) (uv : Ref) (f : Value) (l : Ref)
    → guard_in (lookup_table (with_hook uv f h)) l (with_hook uv f h)
      ≡ guard_in (lookup_table h) l h
with_hook-guard h uv f l =
    rw (with_hook-lookup_table h uv f) (with_hook-guard_in h uv f (lookup_table h) l)

pub with_hook-guard_of :
    (h : Heap) (uv : Ref) (f : Value) (l : Ref)
    → guard_in (lookup_table h) l h ≢ table uv
    → guard_of (with_hook uv f h) l ≡ guard_of h l
with_hook-guard_of h uv f l apart =
    rw (with_hook-lookup_table h uv f, with_hook-guard_in h uv f (lookup_table h) l)
      (with_hook-guard_udata h uv f _ apart)

pub with_hook-IsSound : (h : Heap) (uv : Ref) (f : Value) → IsSound h → IsSound (with_hook uv f h)
with_hook-IsSound h uv f s = record {
  has_registry = s.has_registry;
  lookup_is = rw (with_hook-lookup_table h uv f) s.lookup_is;
  meta_is = ground (arith, s.meta_is);
  guard_is = λ l g e. s.guard_is l g (sym (with_hook-guard h uv f l) ∙ e);
}

pub with_hook-HasUserValue :
    (h : Heap) (u uv : Ref) (f : Value) → HasUserValue u uv h → HasUserValue u uv (with_hook uv f h)
with_hook-HasUserValue h u uv f has = record {
  is = has.is;
  no_guard = λ l e. has.no_guard l (sym (with_hook-guard h uv f l) ∙ e);
}

-- A new table as user value.
abbrev pub with_user_value : Ref → Heap → Heap
with_user_value u h = set_uservalue u (table h.next) (new_table h)

with_user_value-Extends : (h : Heap) (u : Ref) → registry < h.next → Extends h (with_user_value u h)
with_user_value-Extends h u real =
    let e : Extends h (new_table h) = Extends-new_table (Extends-refl h) real in
    record {
      next_le = e.next_le;
      lookup_eq = e.lookup_eq;
      class_eq = e.class_eq;
      field_eq = e.field_eq;
      metatable_eq = e.metatable_eq;
    }

pub with_user_value-IsSound : (h : Heap) (u : Ref) → IsSound h → IsSound (with_user_value u h)
with_user_value-IsSound h u s =
    Extends-IsSound s (with_user_value-Extends h u s.has_registry)
      (ground (arith, s.meta_is, s.has_registry))

pub with_user_value-guard_of :
    (h : Heap) (u q : Ref) → IsSound h → guard_of (with_user_value u h) q ≡ guard_of h q
with_user_value-guard_of h u q s = Extends-guard_of q s (with_user_value-Extends h u s.has_registry)

pub with_user_value-HasUserValue :
    (h : Heap) (u : Ref) → IsSound h → HasUserValue u h.next (with_user_value u h)
with_user_value-HasUserValue h u s = record {
  is = ground arith;
  no_guard = λ l e.
      let old =
        s.guard_is l h.next
          (sym (Extends-guard_in l s (with_user_value-Extends h u s.has_registry)) ∙ e) in
      absurd (omega (arith, old.1));
}
