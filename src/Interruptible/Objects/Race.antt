-- ===== src/Interruptible/Objects/Race.antt =====
-- Two threads at an object of which one holds the only reference: MtInterruptible_release decrements
-- `used` before it takes the global lock, and another thread may find the object in between.
use lua_mtint.Base.{
  ℕ, ◌≡◌, ◌≢◌, refl, sym, ◌∙◌, ap, true, false, none, some, arith, ◌==◌, inl, inr, Bool-cases,
  subst, Option, eq_of_==,
}
use lua_mtint.Base.Int.{ℤ, eqb_ℤ}
use lua_mtint.Atomic.{inc32, dec32}
use lua_mtint.Interruptible.Store.{Ptr, null, Store, MtInterruptible, ok, Objects}
use lua_mtint.Interruptible.Chain.{IsNat}
use lua_mtint.Interruptible.Buckets.{find_interruptible_with_id, unlink}
use lua_mtint.Interruptible.Table.{Chains}
use lua_mtint.Interruptible.Table.Valid.{IsValid, Live, has_id, full_of_pos}
use lua_mtint.Interruptible.Table.Find.{find_interruptible_with_id-Live}
use lua_mtint.Interruptible.Table.UnlinkRun.{unlink_lem}
use lua_mtint.Interruptible.Objects.{World, returns, acquire, decrement_used}
use lua_mtint.Interruptible.Objects.Touch.{touch-IsValid}
use lua_mtint.Interruptible.Objects.Interrupt.{with_object, decrement_used_lem}

has_id-some :
    (m : Objects) (id : ℤ) {p : Ptr} {o : MtInterruptible}
    → m p ≡ some o
    → has_id m id p ≡ eqb_ℤ o.id id
has_id-some m id at = ground (arith, at)

has_id-congr : (m m' : Objects) (id : ℤ) (p : Ptr) → m p ≡ m' p → has_id m id p ≡ has_id m' id p
has_id-congr m m' id p e =
    ap (λ (x : Option MtInterruptible). elim x [ none ↦ false | some o ↦ eqb_ℤ o.id id ]) e

acquire-found :
    (w : World) (id : ℤ) (p : Ptr) (o : MtInterruptible)
    → find_interruptible_with_id id w.store ≡ ok p w.store
    → p ≢ null
    → w.store.object p ≡ some o
    → o.initialized ≡ true
    → acquire id w ≡ returns p (with_object w p (record o { used = inc32 o.used }))
unfolding acquire
acquire-found w id p o run ne at init = ground (arith, run, ne, at, init)

module _ (w : World) {chain : Chains} (v : IsValid w.store chain) (p : Ptr) (o : MtInterruptible)
    (at : w.store.object p ≡ some o) (live : Live w.store.interruptible_buckets chain p)
    (init : o.initialized ≡ true) (last : o.used ≡ 1) (nat : IsNat o.id)
    (only : (q : Ptr)
      → Live w.store.interruptible_buckets chain q
      → has_id w.store.object o.id q ≡ true
      → q ≡ p) where
  -- After the first thread's decrement, and after the other has found the object.
  abbrev pub with_used : ℕ → World
  with_used n = with_object w p (record o { used = n })

  abbrev pub found_between : World
  found_between = with_object (with_used 0) p (record o { used = 1 })

  zero-IsValid : IsValid (with_used 0).store chain
  zero-IsValid = touch-IsValid w.store at (record { id = refl; prev = refl; next = refl }) v

  uncounted : (with_used 0).store.object p ≡ some (record o { used = 0 })
  uncounted = ground arith

  one-IsValid : IsValid found_between.store chain
  one-IsValid =
      touch-IsValid (with_used 0).store uncounted (record { id = refl; prev = refl; next = refl })
        zero-IsValid

  same_id : (q : Ptr) → has_id (with_used 0).store.object o.id q ≡ has_id w.store.object o.id q
  same_id q = elim (Bool-cases (p == q)) [
    | inl e ↦
        subst (λ z. has_id (with_used 0).store.object o.id z ≡ has_id w.store.object o.id z)
          (eq_of_== p q e)
          (has_id-some (with_used 0).store.object o.id uncounted
            ∙ sym (has_id-some w.store.object o.id at))
    | inr ne ↦ has_id-congr (with_used 0).store.object w.store.object o.id q (ground arith)
  ]

  own_id : has_id w.store.object o.id p ≡ true
  own_id = ground (arith, at)

  still_found :
      (find_interruptible_with_id o.id (with_used 0).store ≡ ok p (with_used 0).store) × (p ≢ null)
  still_found = elim (find_interruptible_with_id-Live (with_used 0).store zero-IsValid o.id nat) [
    | inl (run, missed) ↦ absurd (cc (missed p live, same_id p, own_id))
    | inr (q, ne, run, q_live, q_id) ↦
        let same : q ≡ p = only q q_live (sym (same_id q) ∙ q_id) in
        (run ∙ ap (λ x. ok x (with_used 0).store) same, λ e. ne (same ∙ e))
  ]

  abbrev pub Races : Type 0
  Races =
      (decrement_used p w ≡ returns 0 (with_used 0))
      × (acquire o.id (with_used 0) ≡ returns p found_between)
      × ((t : Store) × (unlink p found_between.store ≡ ok true t) × (t.object p ≡ none))

  counts : (dec32 o.used ≡ 0) × (inc32 0 ≡ 1)
  unfolding dec32 inc32
  counts = (rw last refl, refl)

  -- In a valid table, an initialised object with one reference, and an id that is not negative and no
  -- other live object has, can be found by its id after the reference has been counted off and before
  -- the object is freed. MtInterruptible_free then takes the object that was found out of its chain
  -- and gives its memory back, although its count is 1 again.
  pub decrement_used-acquire : Races
  decrement_used-acquire =
      let (run, ne) = still_found in
      let (k, lt, inside) = live in
      let (t, freed_run, d) =
        unlink_lem found_between.store (full_of_pos found_between.store one-IsValid (omega arith)).2
          k lt p inside (record o { used = 1 }) (ground arith) in
      (
        decrement_used_lem w p o at ∙ ap (λ n. returns n (with_used n)) counts.0,
        acquire-found (with_used 0) o.id p (record o { used = 0 }) run ne (ground arith) init
            ∙ ap (λ n. returns p (with_object (with_used 0) p (record o { used = n }))) counts.1,
        (t, freed_run, d.freed),
      )
