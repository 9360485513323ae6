-- ===== src/Interruptible/Objects/Accounting/Touch.antt =====
-- A change of one count, together with the user data that refer to the object.
use lua_mtint.Base.{
  ℕ, ◌+◌, ◌<◌, ◌≡◌, ◌≢◌, sym, ◌∙◌, ap, some, arith, ◌==◌, Bool-cases, inl, inr, eq_of_==, subst,
}
use lua_mtint.Interruptible.Store.{Ptr, null, MtInterruptible}
use lua_mtint.Interruptible.Table.{Chains}
use lua_mtint.Interruptible.Table.Valid.{Live}
use lua_mtint.Interruptible.Objects.{World, IntrUserData, set_udata}
use lua_mtint.Interruptible.Objects.Touch.{IsTouched, touch-IsValid, Live-object}
use lua_mtint.Interruptible.Objects.Interrupt.{with_object}
use lua_mtint.Interruptible.Objects.Accounting.{
  refers_to, references, Accounted, references-set_udata,
}

module _ {n : ℕ} {w : World} {chain : Chains} (a : Accounted n w chain) (u : Ptr) (lt : u < n)
    (d : IntrUserData) (p : Ptr) (o o' : MtInterruptible) (at : w.store.object p ≡ some o)
    (live_p : Live w.store.interruptible_buckets chain p) (same : IsTouched o o')
    (init : o'.initialized ≡ o.initialized)
    (used : o'.used + refers_to p (w.udata u) ≡ o.used + refers_to p (some d))
    (some_left : 0 < o'.used)
    (others : (q : Ptr) → q ≢ p → q ≢ null → refers_to q (w.udata u) ≡ refers_to q (some d))
    (target : d.interruptible ≢ null → d.interruptible ≡ p) where
  abbrev pub changed : World
  changed = set_udata u d (with_object w p o')

  counted_after :
      (q : Ptr) (o'' : MtInterruptible)
      → Live w.store.interruptible_buckets chain q
      → changed.store.object q ≡ some o''
      → (o''.used ≡ references n changed q) × (0 < o''.used)
  counted_after q o'' live_q at_q = elim (Bool-cases (p == q)) [
    | inl e ↦
        let is_p : p ≡ q = eq_of_== p q e in
        let is_o : o' ≡ o'' = ground arith in
        let before = a.counted p o live_p at in
        let both : (o'.used ≡ references n changed p) × (0 < o'.used) =
          (omega (arith, before.0, references-set_udata n w u d p lt), some_left) in
        subst (λ z. (z.used ≡ references n changed q) × (0 < z.used)) is_o
          (subst (λ z. (o'.used ≡ references n changed z) × (0 < o'.used)) is_p both)
    | inr ne ↦
        let (o_q, at', ne_null) = Live-object w.store a.valid q live_q in
        let before = a.counted q o'' live_q (ground arith) in
        (
          omega (
            arith,
            before.0,
            references-set_udata n w u d q lt,
            others q (λ e. ground (arith, e)) ne_null,
          ),
          before.1,
        )
  ]

  pub touch-Accounted : Accounted n changed chain
  touch-Accounted = record {
    valid = touch-IsValid w.store at same a.valid;
    initialized = λ q o'' live_q at_q. elim (Bool-cases (p == q)) [
      | inl e ↦ ground (arith, a.initialized p o live_p at)
      | inr ne ↦ a.initialized q o'' live_q (ground arith)
    ];
    counted = counted_after;
    live = λ v d' lt_v at_v ne. elim (Bool-cases (u == v)) [
      | inl e ↦
          let is_d : d ≡ d' = ground arith in
          subst (λ z. Live w.store.interruptible_buckets chain z)
            (sym (target (λ z. ne (ap (λ (x : IntrUserData). x.interruptible) (sym is_d) ∙ z)))
              ∙ ap (λ (x : IntrUserData). x.interruptible) is_d)
            live_p
      | inr ne_v ↦ a.live v d' lt_v (ground arith) ne
    ];
    few = a.few;
    ids = a.ids;
  }
