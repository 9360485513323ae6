-- ===== src/Interruptible/Objects/Interrupt.antt =====
-- Mtint_interrupt with an id, which holds a reference to the object while it sets the hook.
use lua_mtint.Base.{
  ℕ, ◌+◌, ◌^◌, ◌<◌, ◌≡◌, ◌⊎◌, refl, ◌∙◌, ap, Bool, true, false, some, arith, ◌==◌, Bool-cases, inl,
  inr, if◌then◌else◌, fun_ext,
}
use lua_mtint.Base.Int.{ℤ}
use lua_mtint.Atomic.{inc32, dec32}
use lua_mtint.Errors.{error_unknown_object_interruptible_id}
use lua_mtint.Interruptible.Store.{Ptr, null, Store, MtInterruptible, put_object, update}
use lua_mtint.Interruptible.Chain.{IsNat}
use lua_mtint.Interruptible.Table.{Chains}
use lua_mtint.Interruptible.Table.Valid.{IsValid, Live, has_id}
use lua_mtint.Interruptible.Table.Find.{find_interruptible_with_id-Live}
use lua_mtint.Interruptible.Objects.{
  World, Flag, Hook, hook_of, LuaError, raised, returns, raises, acquire, signal, decrement_used,
  mtint_interrupt, set_hook,
}
use lua_mtint.Interruptible.Objects.Touch.{Live-object}

-- Each live object is initialised and referenced, and one more reference does not overflow.
pub record IsReferenced (s : Store) (chain : Chains) : Type 0 where
  pub initialized :
      (q : Ptr) (o : MtInterruptible)
      → Live s.interruptible_buckets chain q
      → s.object q ≡ some o
      → o.initialized ≡ true
  pub used :
      (q : Ptr) (o : MtInterruptible)
      → Live s.interruptible_buckets chain q
      → s.object q ≡ some o
      → (0 < o.used) × (o.used + 1 < 2 ^ 31)

abbrev pub with_object : World → Ptr → MtInterruptible → World
with_object w p o = record w { store = put_object p o w.store }

abbrev pub unknown : ℤ → LuaError
unknown id = raised (error_unknown_object_interruptible_id id)

module _ (w : World) {chain : Chains} (v : IsValid w.store chain) (r : IsReferenced w.store chain)
    (id : ℤ) (nat : IsNat id) where
  -- No live object has the id.
  abbrev pub IsUnknown : Type 0
  IsUnknown =
      (q : Ptr) → Live w.store.interruptible_buckets chain q → has_id w.store.object id q ≡ false

  -- `p` is a live object that has the id.
  abbrev pub IsKnown : Ptr → MtInterruptible → Type 0
  IsKnown p o =
      Live w.store.interruptible_buckets chain p
      × (w.store.object p ≡ some o)
      × (has_id w.store.object id p ≡ true)

  abbrev pub Acquires : Type 0
  Acquires =
      ((acquire id w ≡ raises (unknown id) w) × IsUnknown)
      ⊎ ((p : Ptr) × (o : MtInterruptible) × IsKnown p o
          × (acquire id w ≡ returns p (with_object w p (record o { used = o.used + 1 }))))

  -- Finding an object to refer to raises an error exactly if there is none, and otherwise counts one
  -- more reference.
  pub acquire_lem : Acquires
  unfolding acquire inc32
  acquire_lem = elim (find_interruptible_with_id-Live w.store v id nat) [
    | inl (run, missed) ↦ inl (rw run refl, missed)
    | inr (p, ne, run, live, same) ↦
        let (o, at, _) = Live-object w.store v p live in
        let init = r.initialized p o live at in
        let (_, small) = r.used p o live at in inr (p, o, (live, at, same), ground (arith, run))
  ]

signal_lem :
    (w : World) (p : Ptr) (o : MtInterruptible) (h : Hook)
    → w.store.object p ≡ some o
    → signal p h w ≡ (if o.l2 == null then returns false w else returns true (set_hook o.l2 h w))
unfolding signal
signal_lem w p o h at = ground (arith, at)

pub decrement_used_lem :
    (w : World) (p : Ptr) (o : MtInterruptible)
    → w.store.object p ≡ some o
    → decrement_used p w
      ≡ returns (dec32 o.used) (with_object w p (record o { used = dec32 o.used }))
unfolding decrement_used
decrement_used_lem w p o at = ground (arith, at)

-- Writing an object, and then what was there before, changes nothing.
restored :
    (w : World) (p : Ptr) (o o' : MtInterruptible)
    → w.store.object p ≡ some o
    → with_object (with_object w p o') p o ≡ w
restored w p o o' at = ap (λ m. record w { store = record w.store { object = m } }) (fun_ext same)
  where
    same : (q : Ptr) → update (update w.store.object p (some o')) p (some o) q ≡ w.store.object q
    same q = ground (arith, at)

module _ (w : World) {chain : Chains} (v : IsValid w.store chain) (r : IsReferenced w.store chain)
    (fresh : Ptr) (id : ℤ) (nat : IsNat id) (flag : Flag) (h : Hook)
    (e : hook_of flag ≡ some h) where
  abbrev pub Interrupts : Type 0
  Interrupts =
      ((mtint_interrupt fresh id flag w ≡ raises (unknown id) w) × IsUnknown w v r id nat)
      ⊎ ((p : Ptr) × (o : MtInterruptible) × IsKnown w v r id nat p o
          × (mtint_interrupt fresh id flag w
              ≡ (if o.l2 == null then returns false w else returns true (set_hook o.l2 h w))))

  dec32-suc : (n : ℕ) → n + 1 < 2 ^ 31 → dec32 (n + 1) ≡ n
  unfolding dec32
  dec32-suc n small = omega arith

  interrupt-unknown :
      acquire id w ≡ raises (unknown id) w → mtint_interrupt fresh id flag w ≡ raises (unknown id) w
  unfolding mtint_interrupt
  interrupt-unknown run = ground (arith, e, run)

  -- The reference is given up again, which leaves the count positive.
  interrupt-known :
      (w1 w2 w3 : World) (p : Ptr) (signaled : Bool) (left : ℕ)
      → acquire id w ≡ returns p w1
      → signal p h w1 ≡ returns signaled w2
      → decrement_used p w2 ≡ returns left w3
      → (left == 0) ≡ false
      → mtint_interrupt fresh id flag w ≡ returns signaled w3
  unfolding mtint_interrupt
  interrupt-known w1 w2 w3 p signaled left run1 run2 run3 some_left =
      ground (arith, e, run1, run2, run3, some_left)

  module _ (p : Ptr) (o : MtInterruptible) (at : w.store.object p ≡ some o) (used : 0 < o.used)
      (small : o.used + 1 < 2 ^ 31)
      (run : acquire id w ≡ returns p (with_object w p (record o { used = o.used + 1 }))) where
    abbrev held : MtInterruptible
    held = record o { used = o.used + 1 }

    -- Whatever the signal did to the hooks.
    given_up :
        (signaled : Bool) (hook : Ptr → Hook)
        → signal p h (with_object w p held)
          ≡ returns signaled (record (with_object w p held) { hook = hook })
        → mtint_interrupt fresh id flag w ≡ returns signaled (record w { hook = hook })
    given_up signaled hook run2 =
        interrupt-known _ _ _ p signaled (dec32 (o.used + 1)) run run2
          (decrement_used_lem (record (with_object w p held) { hook = hook }) p held (ground arith))
          (ground (arith, dec32-suc o.used small))
        ∙ ap (returns signaled) (
            ap
              (λ k.
                with_object (with_object (record w { hook = hook }) p held) p
                  (record o { used = k }))
              (dec32-suc o.used small)
            ∙ restored (record w { hook = hook }) p o held at)

    signaled_lem :
        mtint_interrupt fresh id flag w
        ≡ (if o.l2 == null then returns false w else returns true (set_hook o.l2 h w))
    signaled_lem =
        let run2 = signal_lem (with_object w p held) p held h (ground arith) in
        elim (Bool-cases (o.l2 == null)) [
          | inl no_state ↦ given_up false w.hook (run2 ∙ rw no_state refl) ∙ rw no_state refl
          | inr some_state ↦
              given_up true (update w.hook o.l2 h) (run2 ∙ rw some_state refl) ∙ rw some_state refl
        ]

  -- On a valid table of initialised and referenced objects, Mtint_interrupt with an id that is not
  -- negative raises the error for an unknown object and changes nothing, if no live object has the
  -- id. Otherwise it returns whether a live object with the id has a Lua state, whose hook is then
  -- set; nothing else changes, the reference counts and the table included.
  pub mtint_interrupt_lem : Interrupts
  mtint_interrupt_lem = elim (acquire_lem w v r id nat) [
    | inl (run, missed) ↦ inl (interrupt-unknown run, missed)
    | inr (p, o, known, run) ↦
        let (live, at, _) = known in
        let (used, small) = r.used p o live at in
        inr (p, o, known, signaled_lem p o at used small run)
  ]
