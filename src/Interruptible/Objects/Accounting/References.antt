-- ===== src/Interruptible/Objects/Accounting/References.antt =====
-- Mtint_interruptible and MtInterruptible_release keep the counts.
use lua_mtint.Base.{
  ◌*◌, ℕ, ◌+◌, ◌^◌, ◌<◌, ◌≡◌, ◌≢◌, ◌⊎◌, inl, inr, refl, sym, ◌∙◌, false, none, some, arith, ◌==◌,
  Bool-cases,
}
use lua_mtint.Base.Int.{ℤ}
use lua_mtint.Interruptible.Store.{Ptr, null, Store, MtInterruptible}
use lua_mtint.Interruptible.Chain.{IsNat}
use lua_mtint.Interruptible.Table.{Chains}
use lua_mtint.Interruptible.Table.Valid.{Live}
use lua_mtint.Interruptible.Table.Grow.{IsCalloced}
use lua_mtint.Interruptible.Table.Free.{Freed}
use lua_mtint.Interruptible.Objects.{
  World, IntrUserData, returns, raises, mtint_interruptible, mt_interruptible_release, set_udata,
  check_udata,
}
use lua_mtint.Interruptible.Objects.Touch.{Live-object}
use lua_mtint.Interruptible.Objects.Interrupt.{with_object, unknown}
use lua_mtint.Interruptible.Objects.Release.{
  unreferenced, kept_object, mt_interruptible_release_lem,
}
use lua_mtint.Interruptible.Objects.Creation.{refer, mtint_interruptible_lem}
use lua_mtint.Interruptible.Objects.Accounting.{
  refers_to, references, Accounted, references-le, references-set_udata, not_referring, payload_inv,
  Accounted-IsReferenced,
}
use lua_mtint.Interruptible.Objects.Accounting.Touch.{touch-Accounted}

-- User data that refer to nothing change no count.
pub nothing-Accounted :
    {n : ℕ} {w : World} {chain : Chains} (u : Ptr)
    → u < n
    → w.udata u ≡ none
    → Accounted n w chain
    → Accounted n (set_udata u (refer null false) w) chain
nothing-Accounted {n} {w} u lt at a = record {
  valid = a.valid;
  initialized = a.initialized;
  counted = λ q o live_q at_q.
      let (o_q, _, ne_null) = Live-object w.store a.valid q live_q in
      let before = a.counted q o live_q at_q in
      let none_before : refers_to q (w.udata u) ≡ 0 = ground (arith, at) in
      let none_after : refers_to q (some (refer null false)) ≡ 0 = ground (arith, ne_null) in
      (
        omega (
          arith,
          before.0,
          references-set_udata n w u (refer null false) q lt,
          none_before,
          none_after,
        ),
        before.1,
      );
  live = λ v d lt_v at_v ne. elim (Bool-cases (u == v)) [
    | inl e ↦ absurd (ground (arith, ne))
    | inr ne_v ↦ a.live v d lt_v (ground arith) ne
  ];
  few = a.few;
  ids = a.ids;
}

module _ {n : ℕ} {w : World} {chain : Chains} (few : n + 1 < 2 ^ 31) (a : Accounted n w chain) where
  pub mtint_interruptible-Accounted :
      (u : Ptr) (id : ℤ)
      → u < n
      → w.udata u ≡ none
      → IsNat id
      → (w' : World) × ((mtint_interruptible u id w ≡ raises (unknown id) w')
          ⊎ (mtint_interruptible u id w ≡ returns u w'))
        × Accounted n w' chain
  mtint_interruptible-Accounted u id lt at nat =
      elim (mtint_interruptible_lem w a.valid (Accounted-IsReferenced few a) id nat u) [
        | inl (run, _) ↦ (_, inl run, nothing-Accounted u lt at a)
        | inr (p, o, (live, here, _), run) ↦ (
          _,
          inr run,
          touch-Accounted a u lt (refer p false) p o (record o { used = o.used + 1 }) here live
              (record { id = refl; prev = refl; next = refl }) refl (ground (arith, at))
              (omega arith) (λ q ne ne_null. ground (arith, at, ne)) (λ ne. refl),
        )
      ]

  module _ (u : Ptr) (d : IntrUserData) (lt : u < n) (at : w.udata u ≡ some d)
      (ne_null : d.interruptible ≢ null) (o : MtInterruptible)
      (here : w.store.object d.interruptible ≡ some o) where
    abbrev cleared : IntrUserData
    cleared = record d { interruptible = null }

    live_p : Live w.store.interruptible_buckets chain d.interruptible
    live_p = a.live u d lt at ne_null

    kept-Accounted :
        1 < o.used
        → Accounted n
            (unreferenced u d
              (with_object w d.interruptible (kept_object w a.valid u d at ne_null o here)))
            chain
    kept-Accounted several =
        touch-Accounted a u lt cleared d.interruptible o
          (kept_object w a.valid u d at ne_null o here) here live_p
          (record { id = refl; prev = refl; next = refl }) refl (ground (arith, at, ne_null))
          (omega arith) (λ q ne ne_null'. ground (arith, at, ne, ne_null')) (λ ne. absurd (ne refl))

    -- The last reference goes, and with it the object.
    module _ (t : Store) (chain' : Chains) (last : o.used ≡ 1)
        (f : Freed w.store t chain chain' d.interruptible) where
      abbrev after : World
      after = unreferenced u d (record w { store = t })

      -- An object that is live afterwards was so before, and holds the same.
      kept_from :
          (q : Ptr) (o' : MtInterruptible)
          → Live t.interruptible_buckets chain' q
          → t.object q ≡ some o'
          → (o_q : MtInterruptible) × Live w.store.interruptible_buckets chain q
            × (q ≢ d.interruptible)
            × (w.store.object q ≡ some o_q)
            × (o'.used ≡ o_q.used)
            × (o'.initialized ≡ o_q.initialized)
      kept_from q o' live_q at_q =
          let (live_before, ne) = (f.live q).0 live_q in
          let (o_q, at', used, init) =
            payload_inv (w.store.object q) (t.object q) o' (f.others q ne) at_q in
          (o_q, live_before, ne, at', used, init)

      count_after :
          (q : Ptr) → q ≢ d.interruptible → q ≢ null → references n after q ≡ references n w q
      count_after q ne ne_null' =
          let before : refers_to q (w.udata u) ≡ 0 = ground (arith, at, ne) in
          let now : refers_to q (some cleared) ≡ 0 = ground (arith, ne_null') in
          omega (arith, references-set_udata n w u cleared q lt)

      none_left : references n after d.interruptible ≡ 0
      none_left =
          let before : refers_to d.interruptible (w.udata u) ≡ 1 = ground (arith, at) in
          let now : refers_to d.interruptible (some cleared) ≡ 0 = ground (arith, ne_null) in
          omega (
            arith,
            references-set_udata n w u cleared d.interruptible lt,
            (a.counted d.interruptible o live_p here).0,
            last,
          )

      freed-Accounted : Accounted n after chain'
      freed-Accounted = record {
        valid = f.valid;
        initialized = λ q o' live_q at_q.
            let (o_q, live_before, _, at', _, init) = kept_from q o' live_q at_q in
            init ∙ a.initialized q o_q live_before at';
        counted = λ q o' live_q at_q.
            let (o_q, live_before, ne, at', used, _) = kept_from q o' live_q at_q in
            let (_, _, ne_null') = Live-object w.store a.valid q live_before in
            let before = a.counted q o_q live_before at' in
            (used ∙ before.0 ∙ sym (count_after q ne ne_null'), omega (arith, used, before.1));
        live = λ v d' lt_v at_v ne. elim (Bool-cases (u == v)) [
          | inl e ↦ absurd (ground (arith, ne))
          | inr ne_v ↦ (f.live d'.interruptible).1 (
            a.live v d' lt_v (ground arith) ne,
            not_referring n after d.interruptible v d' none_left lt_v at_v,
          )
        ];
        few = omega (arith, f.counter, a.few);
        ids = a.ids;
      }

  -- A release by user data that exist, whatever they refer to.
  pub mt_interruptible_release-Accounted :
      (fresh u : Ptr) (d : IntrUserData)
      → u < n
      → w.udata u ≡ some d
      → IsCalloced w.store fresh
      → w.store.interruptible_counter * 10 < 2 ^ 31
      → (w' : World) × (chain' : Chains) × (mt_interruptible_release fresh u w ≡ returns tt w')
        × Accounted n w' chain'
  unfolding mt_interruptible_release check_udata
  mt_interruptible_release-Accounted fresh u d lt at calloced tenfold =
      elim (Bool-cases (d.interruptible == null)) [
        | inl e ↦ (w, chain, ground (arith, at, e), a)
        | inr some' ↦
            let ne_null : d.interruptible ≢ null = ground arith in
            let live = a.live u d lt at ne_null in
            let (o, here, _) = Live-object w.store a.valid d.interruptible live in
            let (counts, some_left) = a.counted d.interruptible o live here in
            elim (mt_interruptible_release_lem w a.valid u d at ne_null o here fresh live some_left
              (omega (arith, counts, references-le n w d.interruptible)) tenfold calloced) [
                | inl (last, t, chain', run, f) ↦
                    (_, chain', run, freed-Accounted u d lt at ne_null o here t chain' last f)
                | inr (several, run, _) ↦
                    (_, chain, run, kept-Accounted u d lt at ne_null o here several)
              ]
      ]
