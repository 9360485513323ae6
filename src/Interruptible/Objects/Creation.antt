-- ===== src/Interruptible/Objects/Creation.antt =====
-- Mtint_interruptible, which refers to an object that exists, and the part of
-- assureCreatedMtInterruptible that makes one.
use lua_mtint.Base.{
  ℕ, ◌+◌, ◌^◌, ◌<◌, ◌≡◌, ◌≢◌, ◌⊎◌, refl, sym, ◌∙◌, ap, Bool, false, some, arith, ◌==◌, ◌∈◌,
  Bool-cases, inl, inr, if◌then◌else◌, fun_ext, eq_of_==, subst,
}
use lua_mtint.Base.Int.{ℤ, pos, signed32}
use lua_mtint.Atomic.{inc32}
use lua_mtint.Errors.{error_out_of_memory}
use lua_mtint.Interruptible.Store.{Ptr, null, Store, MtInterruptible, put_object, update}
use lua_mtint.Interruptible.Chain.{IsNat, Seg-frame}
use lua_mtint.Interruptible.Buckets.{register}
use lua_mtint.Interruptible.Table.{Chains}
use lua_mtint.Interruptible.Table.Valid.{IsValid, Live}
use lua_mtint.Interruptible.Table.Grow.{IsCalloced}
use lua_mtint.Interruptible.Table.Register.{Registered, register_lem}
use lua_mtint.Interruptible.Objects.{
  World, IntrUserData, Outcome, returns, raises, raised, acquire, mtint_interruptible, create,
  blank, set_udata, on_store,
}
use lua_mtint.Interruptible.Objects.Interrupt.{
  IsReferenced, IsUnknown, IsKnown, acquire_lem, unknown, with_object,
}

-- User data that refer to `p`.
abbrev pub refer : Ptr → Bool → IntrUserData
refer p is_main = record { interruptible = p; is_main_guard = is_main }

set_udata-twice :
    (u : Ptr) (d d' : IntrUserData) (w : World)
    → set_udata u d' (set_udata u d w) ≡ set_udata u d' w
set_udata-twice u d d' w = ap (λ f. record w { udata = f }) (fun_ext same)
  where
    same :
        (q : Ptr) → update (update w.udata u (some d)) u (some d') q ≡ update w.udata u (some d') q
    same q = ground arith

module _ (w : World) {chain : Chains} (v : IsValid w.store chain) (r : IsReferenced w.store chain)
    (id : ℤ) (nat : IsNat id) (u : Ptr) where
  abbrev pub Refers : Type 0
  Refers =
      ((mtint_interruptible u id w ≡ raises (unknown id) (set_udata u (refer null false) w))
        × IsUnknown w v r id nat)
      ⊎ ((p : Ptr) × (o : MtInterruptible) × IsKnown w v r id nat p o
          × (mtint_interruptible u id w
              ≡ returns u
                  (set_udata u (refer p false) (with_object w p (record o { used = o.used + 1 })))))

  refer-unknown :
      acquire id (set_udata u (refer null false) w)
        ≡ raises (unknown id) (set_udata u (refer null false) w)
      → mtint_interruptible u id w ≡ raises (unknown id) (set_udata u (refer null false) w)
  unfolding mtint_interruptible
  refer-unknown run = ground (arith, run)

  refer-known :
      (p : Ptr) (w1 : World)
      → acquire id (set_udata u (refer null false) w) ≡ returns p w1
      → mtint_interruptible u id w ≡ returns u (set_udata u (refer p false) w1)
  unfolding mtint_interruptible
  refer-known p w1 run = ground (arith, run)

  -- On a valid table of initialised and referenced objects, Mtint_interruptible with an id that is
  -- not negative raises the error for an unknown object if no live object has the id, and the new
  -- user data refer to nothing. Otherwise they refer to a live object with the id, whose reference
  -- count is one more; nothing else changes.
  pub mtint_interruptible_lem : Refers
  mtint_interruptible_lem = elim (acquire_lem (set_udata u (refer null false) w) v r id nat) [
    | inl (run, missed) ↦ inl (refer-unknown run, missed)
    | inr (p, o, known, run) ↦ inr (
      p,
      o,
      known,
      refer-known p _ run
          ∙ ap (returns u) (
              set_udata-twice u (refer null false) (refer p false)
                (with_object w p (record o { used = o.used + 1 }))),
    )
  ]

-- A write to an object that is in no chain leaves the table valid.
elsewhere-IsValid :
    (s : Store) {chain : Chains} (p : Ptr) (o : MtInterruptible)
    → ¬ (Live s.interruptible_buckets chain p)
    → IsValid s chain
    → IsValid (put_object p o s) chain
elsewhere-IsValid s {chain} p o dead v = record {
  table = elim v.table [
    | inl empty ↦ inl empty
    | inr (list, pos_n, t) ↦ inr (
      list,
      pos_n,
      record {
        buckets = t.buckets;
        found = t.found;
        size = t.size;
        seg = λ i lt. Seg-frame (λ q inside. kept i q lt inside) (t.seg i lt);
      },
    )
  ];
  counted = v.counted;
}
  where
    kept :
        (i : ℕ) (q : Ptr)
        → i < s.interruptible_buckets
        → q ∈ chain i
        → update s.object p (some o) q ≡ s.object q
    kept i q lt inside = elim (Bool-cases (p == q)) [
      | inl e ↦ absurd (dead (i, lt, subst (λ z. z ∈ chain i) (sym (eq_of_== p q e)) inside))
      | inr ne ↦ rw ne refl
    ]

module _ (w : World) {chain : Chains} (v : IsValid w.store chain) (u intrp l2 : Ptr)
    (is_main : Bool) (ne_null : intrp ≢ null)
    (dead : ¬ (Live w.store.interruptible_buckets chain intrp))
    (ids_left : w.mtint_id_counter + 1 < 2 ^ 31)
    (few : w.store.interruptible_counter + 1 < 2 ^ 31) where
  -- The next id.
  abbrev next : ℤ
  next = pos (w.mtint_id_counter + 1)

  -- The new object before it is in the table, and the world around it.
  abbrev pub made : World
  made = set_udata u (refer intrp is_main) (record w {
    store = put_object intrp (blank (pos (w.mtint_id_counter + 1))) w.store;
    mtint_id_counter = w.mtint_id_counter + 1;
    lookup = update w.lookup l2 (some u);
  })

  abbrev pub Creates : Ptr → Type 0
  Creates fresh =
      ((t : Store) × (chain' : Chains) × (create u intrp fresh l2 is_main w
          ≡ returns u (record made { store = t }))
        × Registered made.store t chain chain' intrp (blank (pos (w.mtint_id_counter + 1))) l2)
      ⊎ ((create u intrp fresh l2 is_main w ≡ raises (raised error_out_of_memory) made)
          × (fresh ≡ null)
          × (w.store.interruptible_buckets ≡ 0))

  counted_up : inc32 w.mtint_id_counter ≡ w.mtint_id_counter + 1
  unfolding inc32
  counted_up = omega arith

  positive : signed32 (inc32 w.mtint_id_counter) ≡ next
  positive = rw counted_up (ground arith)

  -- The same as the code makes it, which writes the user data twice.
  abbrev made_from : ℕ → ℤ → World
  made_from counter id =
      set_udata u (refer intrp is_main) (record (set_udata u (refer null false) w) {
        store = put_object intrp (blank id) w.store;
        mtint_id_counter = counter;
        lookup = update w.lookup l2 (some u);
      })

  made_twice : made_from (inc32 w.mtint_id_counter) (signed32 (inc32 w.mtint_id_counter)) ≡ made
  made_twice =
      ap (made_from (inc32 w.mtint_id_counter)) positive
      ∙ ap (λ c. made_from c next) counted_up
      ∙ set_udata-twice u (refer null false) (refer intrp is_main) (record w {
        store = put_object intrp (blank next) w.store;
        mtint_id_counter = w.mtint_id_counter + 1;
        lookup = update w.lookup l2 (some u);
      })

  abbrev finish : Bool → World → Outcome Ptr
  finish done w3 = if done then returns u w3 else raises (raised error_out_of_memory) w3

  abbrev registering : Ptr → World → Outcome Ptr
  registering fresh m = on_store m (register fresh intrp l2 m.store) finish

  create-registering : (fresh : Ptr) → create u intrp fresh l2 is_main w ≡ registering fresh made
  unfolding create
  create-registering fresh = (rw not_null refl) ∙ ap (registering fresh) made_twice
    where
      not_null : (intrp == null) ≡ false
      not_null = ground arith

  here : made.store.object intrp ≡ some (blank next)
  here = ground arith

  -- In a valid table of fewer than 2 ^ 31 - 1 objects, with the counter for ids below 2 ^ 31 - 1 and
  -- an object that calloc returned and that is not live, creation never faults. The new object has the
  -- next id, one reference and the Lua state, and is the one new live object of a table that is valid
  -- again; the user data refer to it and are found by its Lua state. If instead there was no array
  -- and none could be had, the error for want of memory is raised with the object left outside.
  pub create_lem : (fresh : Ptr) → IsCalloced w.store fresh → Creates fresh
  create_lem fresh calloced =
      elim (register_lem made.store (elsewhere-IsValid w.store intrp (blank next) dead v) l2 ne_null
        here refl dead few fresh calloced) [
          | inl (t, chain', run, done) ↦
              inl (t, chain', create-registering fresh ∙ ap (λ x. on_store made x finish) run, done)
          | inr (run, no_memory, empty) ↦
              inr
                (create-registering fresh ∙ ap (λ x. on_store made x finish) run, no_memory, empty)
        ]
