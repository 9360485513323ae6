-- ===== src/Interruptible/Guards/Entry.antt =====
-- What the tables hold when the lookup table has been made, when a guard of a coroutine has been
-- made, and when a guard has been entered.
use lua_mtint.Base.{
  ◌+◌, ◌≡◌, ◌<◌, ◌∙◌, inl, inr, refl, sym, ap, arith, Bool, true, false, Bool-cases, ◌==◌,
  if◌then◌else◌,
}
use lua_mtint.Base.Int.{pos}
use lua_mtint.Errors.{codes}
use lua_mtint.Lua.{
  Ref, guard_coroutine_release, Value, nil, integer, text, function, table, userdata, thread, Heap,
  new_table, set_field, registry,
}
use lua_mtint.Interruptible.Guards.{coroutine_guard_class_name_text}
use lua_mtint.Interruptible.Guards.Tables.{
  with_lookup_table, with_guard_meta_table, udata_in, guard_udata, lookup_table, guard_meta_table,
}
use lua_mtint.Interruptible.Guards.Lookup.{guard_in, guard_of, IsSound, new_lookup_table-empty}
use lua_mtint.Interruptible.Guards.Extends.{
  Extends, Extends-refl, Extends-new_table, Extends-set_field, Extends-set_meta,
}

-- A lookup table that has just been made.
module _ (h : Heap) (s : IsSound h) (e : lookup_table h ≡ nil) where
  lookup-with_lookup_table : lookup_table (with_lookup_table h) ≡ table h.next
  lookup-with_lookup_table = refl

  meta-with_lookup_table : guard_meta_table (with_lookup_table h) ≡ guard_meta_table h
  meta-with_lookup_table = ground (arith, s.has_registry)

  pub with_lookup_table-guard_of : (l : Ref) → guard_of (with_lookup_table h) l ≡ guard_of h l
  with_lookup_table-guard_of l = rw (new_lookup_table-empty h l, e)

  pub with_lookup_table-IsSound : IsSound (with_lookup_table h)
  with_lookup_table-IsSound = record {
    has_registry = omega arith;
    lookup_is = inr (h.next, lookup-with_lookup_table, s.has_registry, omega arith);
    meta_is = elim s.meta_is [
      | inl none' ↦ inl (meta-with_lookup_table ∙ none')
      | inr (m, is, real, lt) ↦ inr (m, meta-with_lookup_table ∙ is, real, omega arith)
    ];
    guard_is = λ l g is.
        let none' : (with_lookup_table h).field h.next (thread l) ≡ nil =
          new_lookup_table-empty h l in
        absurd (cc);
  }

guard_udata-if :
    (b : Bool) (v w : Value) (h : Heap)
    → guard_udata (if b then v else w) h ≡ (if b then guard_udata v h else guard_udata w h)
guard_udata-if true v w h = refl
guard_udata-if false v w h = refl

-- A value that is entered for the thread `l`.
module _ (h : Heap) (s : IsSound h) (t : Ref) (e : lookup_table h ≡ table t) (real : registry < t)
    (l : Ref) (v : Value) where
  abbrev pub entered : Heap
  entered = set_field t (thread l) v h

  udata_in-entered : (w : Value) → udata_in w entered ≡ udata_in w h
  udata_in-entered (userdata u) = ground arith
  udata_in-entered w = refl

  guard_udata-entered : (w : Value) → guard_udata w entered ≡ guard_udata w h
  guard_udata-entered (table g) = ground (arith, udata_in-entered (h.field g (integer (pos 1))))
  guard_udata-entered (userdata u) = udata_in-entered (userdata u)
  guard_udata-entered w = refl

  lookup-entered : lookup_table entered ≡ table t
  lookup-entered = ground arith

  guard_in-entered :
      (q : Ref)
      → guard_in (lookup_table entered) q entered
        ≡ (if l == q then v else guard_in (lookup_table h) q h)
  guard_in-entered q = ground (arith, lookup-entered)

  pub guard_of-entered :
      (q : Ref) → guard_of entered q ≡ (if l == q then guard_udata v h else guard_of h q)
  guard_of-entered q =
      ap (λ w. guard_udata w entered) (guard_in-entered q)
      ∙ guard_udata-entered (if l == q then v else guard_in (lookup_table h) q h)
      ∙ guard_udata-if (l == q) v (guard_in (lookup_table h) q h) h

  meta-entered : guard_meta_table entered ≡ guard_meta_table h
  meta-entered = ground arith

  pub entered-IsSound : ((g : Ref) → v ≡ table g → (registry < g) × (g < h.next)) → IsSound entered
  entered-IsSound new' = record {
    has_registry = s.has_registry;
    lookup_is = elim s.lookup_is [
      | inl none' ↦ absurd (cc)
      | inr (t', is, real', lt) ↦ inr (t', lookup-entered ∙ sym e ∙ is, real', lt)
    ];
    meta_is = elim s.meta_is [
      | inl none' ↦ inl (meta-entered ∙ none')
      | inr (m, is, real', lt) ↦ inr (m, meta-entered ∙ is, real', lt)
    ];
    guard_is = λ q g is. guard_exists q g (sym (guard_in-entered q) ∙ is);
  }
    where
      guard_exists :
          (q g : Ref)
          → (if l == q then v else guard_in (lookup_table h) q h) ≡ table g
          → (registry < g) × (g < h.next)
      guard_exists q g is = elim (Bool-cases (l == q)) [
        | inl same ↦ new' g (ground (arith, same, is))
        | inr other ↦ s.guard_is q g (ground (arith, other, is))
      ]

-- A guard table with its two entries.
abbrev pub with_guard : (u l : Ref) → Heap → Heap
with_guard u l h =
    set_field h.next (integer (pos 2)) (thread l)
      (set_field h.next (integer (pos 1)) (userdata u) (new_table h))

-- A guard that has been made for a coroutine, in a heap `h'` with the metatable of guards.
module _ (u l : Ref) (h : Heap) (s : IsSound h) where
  pub with_guard-Extends : Extends h (with_guard u l h)
  with_guard-Extends =
      Extends-set_field h.next (integer (pos 2)) (thread l)
        (Extends-set_field h.next (integer (pos 1)) (userdata u)
          (Extends-new_table (Extends-refl h) s.has_registry) (omega arith) s.has_registry)
        (omega arith) s.has_registry

  pub meta-with_guard : guard_meta_table (with_guard u l h) ≡ guard_meta_table h
  meta-with_guard = ground (arith, s.has_registry)

  pub with_meta-Extends : Extends h (with_guard_meta_table (with_guard u l h))
  with_meta-Extends = Extends-set_meta (table (h.next + 1)) (
      Extends-set_field (h.next + 1) (text (codes "__metatable"))
        (text coroutine_guard_class_name_text)
        (Extends-set_field (h.next + 1) (text (codes "__gc")) (function guard_coroutine_release)
          (Extends-new_table with_guard-Extends s.has_registry) (omega arith) s.has_registry)
        (omega arith) s.has_registry)

  -- The first entry of the guard stays, and leads to the user data.
  pub first-with_guard : (with_guard u l h).field h.next (integer (pos 1)) ≡ userdata u
  first-with_guard = ground arith

  pub first-with_meta :
      (with_guard_meta_table (with_guard u l h)).field h.next (integer (pos 1)) ≡ userdata u
  first-with_meta = ground arith
