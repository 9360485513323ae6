-- ===== src/Interruptible/Objects/Accounting/Performs.antt =====
-- Whatever Lua calls, the counts stay the numbers of references.
use lua_mtint.Base.{
  ℕ, ◌+◌, ◌^◌, ◌<◌, ◌≡◌, ◌≢◌, ◌⊎◌, inl, inr, refl, sym, ap, Bool, true, false, Option, none, some,
  arith, ◌==◌, Bool-cases, if◌then◌else◌, fun_ext, subst,
}
use lua_mtint.Base.Int.{ℤ}
use lua_mtint.Errors.{error_out_of_memory}
use lua_mtint.Interruptible.Store.{Ptr, null, MtInterruptible, update}
use lua_mtint.Interruptible.Table.{Chains}
use lua_mtint.Interruptible.Table.Valid.{Live}
use lua_mtint.Interruptible.Objects.{
  World, Hook, IntrUserData, raised, arg_error, Outcome, returns, Flag, hook_of, assure_created,
  existing, create, guard_coroutine_release, mtint_interrupt, mt_interruptible_interrupt,
  check_udata, clear_l2, signal, set_hook,
}
use lua_mtint.Interruptible.Objects.Touch.{Live-object}
use lua_mtint.Interruptible.Objects.Interrupt.{mtint_interrupt_lem, with_object}
use lua_mtint.Interruptible.Objects.Accounting.{Accounted, Accounted-IsReferenced}
use lua_mtint.Interruptible.Objects.Accounting.Touch.{touch-Accounted}
use lua_mtint.Interruptible.Objects.Accounting.References.{
  nothing-Accounted, mtint_interruptible-Accounted, mt_interruptible_release-Accounted,
}
use lua_mtint.Interruptible.Objects.Accounting.Creation.{create-Accounted}
use lua_mtint.Interruptible.Objects.Accounting.Events.{
  Event, assures, refers, releases, guard_releases, interrupts, interrupts_with, perform, done,
  Exists, Allowed, Keeps,
}

-- The hooks have no part in the counts.
hooks-Accounted :
    {n : ℕ} {w : World} {chain : Chains} (hook : Ptr → Hook)
    → Accounted n w chain
    → Accounted n (record w { hook = hook }) chain
hooks-Accounted hook a = record {
  valid = a.valid;
  initialized = a.initialized;
  counted = a.counted;
  live = a.live;
  few = a.few;
  ids = a.ids;
}

module _ {n : ℕ} {w : World} {chain : Chains} (few : n + 1 < 2 ^ 31) (a : Accounted n w chain) where
  refers-Keeps : (u : Ptr) (id : ℤ) → Allowed n w (refers u id) → Keeps n (perform (refers u id) w)
  unfolding perform
  refers-Keeps u id (lt, at, nat) =
      let (w', run, kept) = mtint_interruptible-Accounted few a u id lt at nat in
      elim run [
        | inl run' ↦ (w', chain, inr (_, ap done run'), kept)
        | inr run' ↦ (w', chain, inl (ap done run'), kept)
      ]

  releases-Keeps :
      (fresh u : Ptr) → Allowed n w (releases fresh u) → Keeps n (perform (releases fresh u) w)
  unfolding perform
  releases-Keeps fresh u ((lt, (d, at)), calloced, tenfold) =
      let (w', chain', run, kept) =
        mt_interruptible_release-Accounted few a fresh u d lt at calloced tenfold in
      (w', chain', inl run, kept)

  create-Keeps :
      (u intrp fresh l2 : Ptr) (is_main : Bool)
      → Allowed n w (assures u intrp fresh l2 is_main)
      → Keeps n (done (create u intrp fresh l2 is_main w))
  unfolding create
  create-Keeps u intrp fresh l2 is_main (lt, at, unused, ids_left, calloced, memory, _) =
      elim (Bool-cases (intrp == null)) [
        | inl none_had ↦ (
          _,
          chain,
          inr (raised error_out_of_memory, ground (arith, none_had)),
          nothing-Accounted u lt at a,
        )
        | inr had ↦
            let ne_null : intrp ≢ null = ground arith in
            let (w', chain', run, kept) =
              create-Accounted a u intrp l2 is_main lt at ne_null (unused ne_null) ids_left fresh
                calloced memory in
            (w', chain', inl (ap done run), kept)
      ]

  set_hook-Keeps :
      (o : Outcome Bool) (p : Ptr) (h : Hook) (l2 : Ptr)
      → o ≡ (if l2 == null then returns false w else returns true (set_hook l2 h w))
      → Keeps n (done o)
  set_hook-Keeps o p h l2 run = elim (Bool-cases (l2 == null)) [
    | inl e ↦ (w, chain, inl (ground (arith, run, e)), a)
    | inr ne ↦ (_, chain, inl (ground (arith, run, ne)), hooks-Accounted (update w.hook l2 h) a)
  ]

  abbrev Finds : Ptr → Type 0
  Finds l2 = (existing l2 w ≡ returns none w) ⊎ ((v : Ptr) × (existing l2 w ≡ returns (some v) w))

  Finds-Exists : (l2 v : Ptr) → w.lookup l2 ≡ some v → Exists n w v → Finds l2
  unfolding existing
  Finds-Exists l2 v found (lt, (d, at)) = elim (Bool-cases (d.interruptible == null)) [
    | inl e ↦ inl (ground (arith, found, at, e))
    | inr ne ↦
        let (o, here, _) =
          Live-object w.store a.valid d.interruptible (a.live v d lt at (ground arith)) in
        elim (Bool-cases (o.l2 == l2)) [
          | inl same ↦ inr (v, ground (arith, found, at, ne, here, same))
          | inr other ↦ inl (ground (arith, found, at, ne, here, other))
        ]
  ]

  finds : (l2 : Ptr) → ((v : Ptr) → w.lookup l2 ≡ some v → Exists n w v) → Finds l2
  unfolding existing
  finds l2 known = from (w.lookup l2) refl
    where
      from : (x : Option Ptr) → w.lookup l2 ≡ x → Finds l2
      from none e = inl (ground (arith, e))
      from (some v) e = Finds-Exists l2 v e (known v e)

  assures-Keeps :
      (u intrp fresh l2 : Ptr) (is_main : Bool)
      → Allowed n w (assures u intrp fresh l2 is_main)
      → Keeps n (perform (assures u intrp fresh l2 is_main) w)
  unfolding perform assure_created
  assures-Keeps u intrp fresh l2 is_main allowed =
      let (_, _, _, _, _, _, known) = allowed in
      elim (finds l2 known) [
        | inl e ↦
            let same : perform (assures u intrp fresh l2 is_main) w
                ≡ done (create u intrp fresh l2 is_main w) =
              ground (arith, e) in
            subst (Keeps n) (sym same) (create-Keeps u intrp fresh l2 is_main allowed)
        | inr (v, e) ↦ (w, chain, inl (ground (arith, e)), a)
      ]

  cleared-Accounted :
      (u : Ptr) (d : IntrUserData)
      → u < n
      → w.udata u ≡ some d
      → d.interruptible ≢ null
      → (o : MtInterruptible) → w.store.object d.interruptible ≡ some o
      → Live w.store.interruptible_buckets chain d.interruptible
      → Accounted n (with_object w d.interruptible (record o { l2 = null })) chain
  cleared-Accounted u d lt at ne_null o here live =
      subst
        (λ z.
          Accounted n
            (record (with_object w d.interruptible (record o { l2 = null })) { udata = z }) chain)
        (fun_ext same)
        (touch-Accounted a u lt d d.interruptible o (record o { l2 = null }) here live
          (record { id = refl; prev = refl; next = refl }) refl (rw at refl)
          (a.counted d.interruptible o live here).1 (λ q _ _. rw at refl) (λ _. refl))
    where
      same : (q : Ptr) → update w.udata u (some d) q ≡ w.udata q
      same q = ground (arith, at)

  guard_releases-Keeps :
      (u : Ptr) → Allowed n w (guard_releases u) → Keeps n (perform (guard_releases u) w)
  unfolding perform guard_coroutine_release check_udata clear_l2
  guard_releases-Keeps u (lt, (d, at)) = elim (Bool-cases (d.interruptible == null)) [
    | inl e ↦ (w, chain, inl (ground (arith, at, e)), a)
    | inr ne ↦
        let ne_null : d.interruptible ≢ null = ground arith in
        let live = a.live u d lt at ne_null in
        let (o, here, _) = Live-object w.store a.valid d.interruptible live in
        (
          with_object w d.interruptible (record o { l2 = null }),
          chain,
          inl (ground (arith, at, ne, here)),
          cleared-Accounted u d lt at ne_null o here live,
        )
  ]

  interrupts-Keeps :
      (fresh : Ptr) (id : ℤ) (flag : Flag)
      → Allowed n w (interrupts fresh id flag)
      → Keeps n (perform (interrupts fresh id flag) w)
  unfolding perform mtint_interrupt
  interrupts-Keeps fresh id flag nat = from (hook_of flag) refl
    where
      from : (x : Option Hook) → hook_of flag ≡ x → Keeps n (perform (interrupts fresh id flag) w)
      from none e = (w, chain, inr (arg_error 2, ground (arith, e)), a)
      from (some h) e =
          elim (mtint_interrupt_lem w a.valid (Accounted-IsReferenced few a) fresh id nat flag h
            e) [
              | inl (run, _) ↦ (w, chain, inr (_, ap done run), a)
              | inr (p, o, _, run) ↦ set_hook-Keeps _ p h o.l2 run
            ]

  interrupts_with-Keeps :
      (u : Ptr) (flag : Flag)
      → Allowed n w (interrupts_with u flag)
      → Keeps n (perform (interrupts_with u flag) w)
  unfolding perform mt_interruptible_interrupt check_udata signal
  interrupts_with-Keeps u flag (lt, (d, at, ne_null)) = from (hook_of flag) refl
    where
      from : (x : Option Hook) → hook_of flag ≡ x → Keeps n (perform (interrupts_with u flag) w)
      from none e = (w, chain, inr (arg_error 2, ground (arith, e, at)), a)
      from (some h) e =
          let (o, here, _) =
            Live-object w.store a.valid d.interruptible (a.live u d lt at ne_null) in
          set_hook-Keeps _ d.interruptible h o.l2 (ground (arith, e, at, here))

  pub perform-Accounted : (e : Event) → Allowed n w e → Keeps n (perform e w)
  perform-Accounted (assures u intrp fresh l2 is_main) ok =
      assures-Keeps u intrp fresh l2 is_main ok
  perform-Accounted (refers u id) ok = refers-Keeps u id ok
  perform-Accounted (releases fresh u) ok = releases-Keeps fresh u ok
  perform-Accounted (guard_releases u) ok = guard_releases-Keeps u ok
  perform-Accounted (interrupts fresh id flag) ok = interrupts-Keeps fresh id flag ok
  perform-Accounted (interrupts_with u flag) ok = interrupts_with-Keeps u flag ok
