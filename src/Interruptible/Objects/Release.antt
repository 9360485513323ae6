-- ===== src/Interruptible/Objects/Release.antt =====
-- MtInterruptible_release, the finalizer of the user data that hold references to an object.
use lua_mtint.Base.{
  ◌*◌, ◌-◌, ◌^◌, ◌<◌, ◌≡◌, ◌≢◌, ◌⊎◌, refl, ◌∙◌, ap, true, false, some, arith, ◌==◌, Bool-cases, inl,
  inr, if◌then◌else◌, fun_ext, eq_of_==,
}
use lua_mtint.Atomic.{dec32}
use lua_mtint.Interruptible.Store.{Ptr, null, Store, MtInterruptible, put_object, update, ok}
use lua_mtint.Interruptible.Buckets.{mt_interruptible_free}
use lua_mtint.Interruptible.Table.{Chains}
use lua_mtint.Interruptible.Table.Valid.{IsValid, Live}
use lua_mtint.Interruptible.Table.Grow.{IsCalloced}
use lua_mtint.Interruptible.Table.Free.{Freed, mt_interruptible_free_lem}
use lua_mtint.Interruptible.Objects.{
  World, IntrUserData, returns, decrement_used, mt_interruptible_release, set_udata, clear_l2,
}
use lua_mtint.Interruptible.Objects.Touch.{touch-IsValid}
use lua_mtint.Interruptible.Objects.Interrupt.{with_object, decrement_used_lem}

-- The user data holds no reference any more.
abbrev pub unreferenced : Ptr → IntrUserData → World → World
unreferenced u d w = set_udata u (record d { interruptible = null }) w

pub clear_l2_lem :
    (w : World) (p : Ptr) (o : MtInterruptible)
    → w.store.object p ≡ some o
    → clear_l2 p w ≡ returns tt (with_object w p (record o { l2 = null }))
unfolding clear_l2
clear_l2_lem w p o at = ground (arith, at)

dec32_one : dec32 1 ≡ 0
unfolding dec32
dec32_one = refl

module _ (w : World) {chain : Chains} (v : IsValid w.store chain) (u : Ptr) (d : IntrUserData)
    (has_udata : w.udata u ≡ some d) (ne_null : d.interruptible ≢ null) (o : MtInterruptible)
    (at : w.store.object d.interruptible ≡ some o) where
  abbrev p : Ptr
  p = d.interruptible

  -- One reference less.
  abbrev less : MtInterruptible
  less = record o { used = dec32 o.used }

  decremented : decrement_used p w ≡ returns (dec32 o.used) (with_object w p less)
  decremented = decrement_used_lem w p o at

  -- The second write to the object prevails.
  overwritten :
      (o1 o2 : MtInterruptible) → with_object (with_object w p o1) p o2 ≡ with_object w p o2
  overwritten o1 o2 = ap (λ m. record w { store = record w.store { object = m } }) (fun_ext same)
    where
      same :
          (q : Ptr)
          → update (update w.store.object p (some o1)) p (some o2) q
            ≡ update w.store.object p (some o2) q
      same q = ground arith

  cleared :
      clear_l2 p (with_object w p less) ≡ returns tt (with_object w p (record less { l2 = null }))
  cleared =
      clear_l2_lem (with_object w p less) p less (ground arith)
      ∙ ap (returns tt) (overwritten less (record less { l2 = null }))

  dec32-pos : 0 < o.used → o.used < 2 ^ 31 → dec32 o.used ≡ o.used - 1
  unfolding dec32
  dec32-pos some_left small = omega arith

  -- What is left of the object if it is still referenced.
  abbrev pub kept_object : MtInterruptible
  kept_object = record o { used = o.used - 1; l2 = if d.is_main_guard then null else o.l2 }

  release-guard :
      (fresh : Ptr)
      → d.is_main_guard ≡ true
      → (dec32 o.used == 0) ≡ false
      → mt_interruptible_release fresh u w
        ≡ returns tt (unreferenced u d (with_object w p (record less { l2 = null })))
  unfolding mt_interruptible_release
  release-guard fresh guard several =
      ground (arith, has_udata, ne_null, decremented, several, guard, cleared)

  release-other :
      (fresh : Ptr)
      → d.is_main_guard ≡ false
      → (dec32 o.used == 0) ≡ false
      → mt_interruptible_release fresh u w ≡ returns tt (unreferenced u d (with_object w p less))
  unfolding mt_interruptible_release
  release-other fresh plain several =
      ground (arith, has_udata, ne_null, decremented, several, plain)

  release-kept :
      (fresh : Ptr)
      → 1 < o.used
      → o.used < 2 ^ 31
      → mt_interruptible_release fresh u w
        ≡ returns tt (unreferenced u d (with_object w p kept_object))
  release-kept fresh several small =
      let left = dec32-pos (omega arith) small in
      let not_last : (dec32 o.used == 0) ≡ false = rw left (ground arith) in
      elim (Bool-cases d.is_main_guard) [
        | inl guard ↦ release-guard fresh guard not_last ∙ rw (left, guard) refl
        | inr plain ↦ release-other fresh plain not_last ∙ rw (left, plain) refl
      ]

  release-last :
      (fresh : Ptr) (t : Store)
      → o.used ≡ 1
      → mt_interruptible_free fresh p (put_object p less w.store) ≡ ok tt t
      → mt_interruptible_release fresh u w ≡ returns tt (unreferenced u d (record w { store = t }))
  unfolding mt_interruptible_release
  release-last fresh t last run =
      let none_left : (dec32 o.used == 0) ≡ true = rw (last, dec32_one) refl in
      ground (arith, has_udata, ne_null, decremented, none_left, run)

  abbrev pub Releases : Ptr → Type 0
  Releases fresh =
      ((o.used ≡ 1)
        × (t : Store) × (chain' : Chains) × (mt_interruptible_release fresh u w
            ≡ returns tt (unreferenced u d (record w { store = t })))
        × Freed w.store t chain chain' p)
      ⊎ ((1 < o.used)
          × (mt_interruptible_release fresh u w
              ≡ returns tt (unreferenced u d (with_object w p kept_object)))
          × IsValid (put_object p kept_object w.store) chain)

  -- What frees the object after its count was written frees it as it was before.
  Freed-less :
      {t : Store} {chain' : Chains}
      → Freed (put_object p less w.store) t chain chain' p
      → Freed w.store t chain chain' p
  Freed-less f = record {
    valid = f.valid;
    live = f.live;
    counter = f.counter;
    freed = f.freed;
    others = λ q ne. f.others q ne ∙ ground arith;
  }

  -- Releasing user data that refer to a live object, in a valid table of at most 214748364
  -- objects and with a count between 1 and 2 ^ 31 - 1, never faults. The last reference frees the object,
  -- and exactly it is no longer live; any other is counted off, and clears the object's Lua state
  -- if the user data are its main guard. The table stays valid and the user data refer to nothing.
  pub mt_interruptible_release_lem :
      (fresh : Ptr)
      → Live w.store.interruptible_buckets chain p
      → 0 < o.used
      → o.used < 2 ^ 31
      → w.store.interruptible_counter * 10 < 2 ^ 31
      → IsCalloced w.store fresh
      → Releases fresh
  mt_interruptible_release_lem fresh live some_left small few calloced =
      elim (Bool-cases (o.used == 1)) [
        | inl last ↦
            let s = put_object p less w.store in
            let (t, chain', run, freed) =
              mt_interruptible_free_lem s
                (touch-IsValid w.store at (record { id = refl; prev = refl; next = refl }) v) p less
                (ground arith) few fresh live calloced in
            inl (
              eq_of_== o.used 1 last,
              t,
              chain',
              release-last fresh t (eq_of_== o.used 1 last) run,
              Freed-less freed,
            )
        | inr several ↦
            let many : 1 < o.used = ground arith in
            inr (
              many,
              release-kept fresh many small,
              touch-IsValid w.store at (record { id = refl; prev = refl; next = refl }) v,
            )
      ]
