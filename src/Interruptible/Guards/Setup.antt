-- ===== src/Interruptible/Guards/Setup.antt =====
-- setupInterruptibleGuard: the guard that is entered for a thread is the one that
-- lookupIntrUserData finds, and no other thread's is changed.
use lua_mtint.Base.{
  ℕ, ◌+◌, ◌≡◌, ◌∙◌, inl, inr, refl, sym, subst, arith, Bool, true, false, Option, some, List, ◌∷◌,
}
use lua_mtint.Lua.{
  Ref, Value, table, userdata, thread, Heap, lua, set_field, set_metatable, slot, from_bottom,
}
use lua_mtint.Lua.Api.{LuaApi, is_of_class}
use lua_mtint.Lua.Rules.{lua_calls, pushvalue-one, pushvalue-two, pushvalue-three}
use lua_mtint.Interruptible.Guards.{
  interruptible_class_name, setup_interruptible_guard, push_coroutine_guard,
  push_interruptible_lookup_table, push_coroutine_guard_meta_table, lookup_intr_user_data,
}
use lua_mtint.Interruptible.Guards.Tables.{
  with_guard_meta_table, guard_meta_table, assured_from, pushed, push_new_lookup_table,
  push_old_lookup_table, push_new_guard_meta_table, push_old_guard_meta_table,
}
use lua_mtint.Interruptible.Store.{update}
use lua_mtint.Interruptible.Guards.Entry.{
  with_guard, with_lookup_table-IsSound, with_lookup_table-guard_of, with_guard-Extends,
  meta-with_guard, with_meta-Extends, first-with_guard, first-with_meta,
}
use lua_mtint.Interruptible.Guards.Lookup.{IsSound, assured, lookup_intr_user_data_lem}
use lua_mtint.Interruptible.Guards.Represents.{Represents, HasTable, enter, guarded-enter}

-- The user data keep their class when the lookup table is made.
assured-is_of_class :
    (h : Heap) (u : Ref)
    → IsSound h
    → is_of_class interruptible_class_name u (assured h) ≡ is_of_class interruptible_class_name u h
assured-is_of_class h u s = elim s.lookup_is [
  | inl e ↦ rw e (ground (arith, s.has_registry))
  | inr (t, e, real, lt) ↦ rw e
]

-- The lookup table is there after pushInterruptibleLookupTable.
assured_lem :
    (api : LuaApi) (st : List Value) (h : Heap) (lookup : Ref → Option Ref)
    → IsSound h
    → Represents h lookup
    → (t : Ref) × (push_interruptible_lookup_table api (lua st h) ≡ lua (table t ∷ st) (assured h))
      × HasTable (assured h) t lookup
assured_lem api st h lookup s rep = elim s.lookup_is [
  | inl e ↦ (
    h.next,
    push_new_lookup_table api st h e ∙ (rw e),
    subst (λ v. HasTable (assured_from v h) h.next lookup) (sym e)
        (record {
          sound = with_lookup_table-IsSound h s e;
          is = refl;
          real = s.has_registry;
          represents = λ q. with_lookup_table-guard_of h s e q ∙ rep q;
        }),
  )
  | inr (t, e, real, lt) ↦ (
    t,
    push_old_lookup_table api st h t e ∙ (rw e),
    subst (λ v. HasTable (assured_from v h) t lookup) (sym e)
        (record { sound = s; is = e; real = real; represents = rep }),
  )
]

module _ (api : LuaApi) (st : List Value) (i n : ℕ) (u l : Ref)
    (at_u : from_bottom i st ≡ some (userdata u)) (at_l : from_bottom n st ≡ some (thread l)) where
  setup-main :
      (h h' : Heap) (t : Ref)
      → push_interruptible_lookup_table api (lua st h) ≡ lua (table t ∷ st) h'
      → setup_interruptible_guard api (slot i) (slot n) true (lua st h)
        ≡ lua st (set_field t (thread l) (userdata u) h')
  unfolding setup_interruptible_guard
  setup-main h h' t run =
      simp (run, pushvalue-one n st _ at_l, pushvalue-two i st _ at_u, lua_calls)

  push_coroutine_guard_lem :
      (h h' : Heap) (t m : Ref)
      → push_coroutine_guard_meta_table api
          (lua (table h.next ∷ thread l ∷ table t ∷ st) (with_guard u l h))
        ≡ lua (table m ∷ table h.next ∷ thread l ∷ table t ∷ st) h'
      → push_coroutine_guard api (slot i) (slot n) (lua (thread l ∷ table t ∷ st) h)
        ≡ lua (table h.next ∷ thread l ∷ table t ∷ st) (set_metatable (table h.next) (table m) h')
  unfolding push_coroutine_guard
  push_coroutine_guard_lem h h' t m run =
      simp (run, pushvalue-three n st _ at_l, pushvalue-three i st _ at_u, lua_calls)

  setup-coroutine :
      (h h' h'' : Heap) (t g : Ref)
      → push_interruptible_lookup_table api (lua st h) ≡ lua (table t ∷ st) h'
      → push_coroutine_guard api (slot i) (slot n) (lua (thread l ∷ table t ∷ st) h')
        ≡ lua (table g ∷ thread l ∷ table t ∷ st) h''
      → setup_interruptible_guard api (slot i) (slot n) false (lua st h)
        ≡ lua st (set_field t (thread l) (table g) h'')
  unfolding setup_interruptible_guard
  setup-coroutine h h' h'' t g run guard = simp (run, pushvalue-one n st _ at_l, guard, lua_calls)

  -- The branch for a coroutine, whether or not the metatable of guards is there.
  coroutine_guard :
      (h h1 : Heap) (t : Ref) (lookup : Ref → Option Ref)
      → push_interruptible_lookup_table api (lua st h) ≡ lua (table t ∷ st) h1
      → HasTable h1 t lookup
      → is_of_class interruptible_class_name u h1 ≡ true
      → (h' : Heap) × (setup_interruptible_guard api (slot i) (slot n) false (lua st h) ≡ lua st h')
        × IsSound h'
        × Represents h' (update lookup l (some u))
  coroutine_guard h h1 t lookup run has class = elim has.sound.meta_is [
    | inl e ↦
        let h2 = with_guard_meta_table (with_guard u l h1) in
        let made =
          guarded-enter u l h1 h2 t (h1.next + 1) lookup has (with_meta-Extends u l h1 has.sound)
            (omega arith) (first-with_meta u l h1 has.sound)
            (inr (h1.next + 1, refl, omega arith, omega arith)) class in
        (
          set_field t (thread l) (table h1.next)
              (set_metatable (table h1.next) (table (h1.next + 1)) h2),
          setup-coroutine h h1 _ t h1.next run (
              push_coroutine_guard_lem h1 h2 t (h1.next + 1) (
                push_new_guard_meta_table api _ (with_guard u l h1)
                  (meta-with_guard u l h1 has.sound ∙ e))),
          made.0,
          made.1,
        )
    | inr (m, e, real, lt) ↦
        let h2 = with_guard u l h1 in
        let meta : guard_meta_table h2 ≡ table m = meta-with_guard u l h1 has.sound ∙ e in
        let made =
          guarded-enter u l h1 h2 t m lookup has (with_guard-Extends u l h1 has.sound) (omega arith)
            (first-with_guard u l h1 has.sound) (inr (m, meta, real, omega arith)) class in
        (
          set_field t (thread l) (table h1.next) (set_metatable (table h1.next) (table m) h2),
          setup-coroutine h h1 _ t h1.next run
              (push_coroutine_guard_lem h1 h2 t m (push_old_guard_meta_table api _ h2 m meta)),
          made.0,
          made.1,
        )
  ]

  -- If a Lua state's lookup table stands for `lookup`, and the user data `u` are of the class of this
  -- library: setupInterruptibleGuard leaves the stack as it was and the tables sound, as a main guard
  -- and for a coroutine, whether or not the tables existed. The lookup table then has `u` for the
  -- thread, and for every other thread what it had.
  pub setup_interruptible_guard-Represents :
      (b : Bool) (h : Heap) (lookup : Ref → Option Ref)
      → IsSound h
      → Represents h lookup
      → is_of_class interruptible_class_name u h ≡ true
      → (h' : Heap) × (setup_interruptible_guard api (slot i) (slot n) b (lua st h) ≡ lua st h')
        × IsSound h'
        × Represents h' (update lookup l (some u))
  setup_interruptible_guard-Represents true h lookup s rep class =
      let (t, run, has) = assured_lem api st h lookup s rep in
      let made =
        enter (assured h) t lookup l u (userdata u) has (rw (assured-is_of_class h u s, class))
          (λ g e. absurd (cc)) in
      (
        set_field t (thread l) (userdata u) (assured h),
        setup-main h (assured h) t run,
        made.0,
        made.1,
      )
  setup_interruptible_guard-Represents false h lookup s rep class =
      let (t, run, has) = assured_lem api st h lookup s rep in
      coroutine_guard h (assured h) t lookup run has (assured-is_of_class h u s ∙ class)

-- If a Lua state's lookup table stands for `lookup`: lookupIntrUserData with the index of a thread
-- returns what `lookup` has for it. It pushes the user data if there are any, and otherwise leaves
-- the stack as it was; the lookup table is sound afterwards and stands for the same.
pub lookup_intr_user_data-Represents :
    (api : LuaApi) (st : List Value) (n : ℕ) (l : Ref) (h : Heap) (lookup : Ref → Option Ref)
    → from_bottom n st ≡ some (thread l)
    → IsSound h
    → Represents h lookup
    → (h' : Heap) × (lookup_intr_user_data api (slot n) (lua st h)
        ≡ (lookup l, lua (pushed (lookup l) st) h'))
      × IsSound h'
      × Represents h' lookup
lookup_intr_user_data-Represents api st n l h lookup at s rep =
    let (t, run, has) = assured_lem api st h lookup s rep in
    (assured h, lookup_intr_user_data_lem api st n l at h s ∙ rw (rep l), has.sound, has.represents)
