-- ===== src/Interruptible/Objects/Accounting/Creation.antt =====
-- The creation of an object keeps the counts.
use lua_mtint.Base.{
  ℕ, ◌+◌, ◌^◌, ◌<◌, ◌≡◌, ◌≢◌, ◌⊎◌, inl, inr, refl, sym, ◌∙◌, ap, Bool, true, none, some, arith,
  ◌==◌, Bool-cases, subst, Option,
}
use lua_mtint.Base.Int.{ℤ, pos}
use lua_mtint.Interruptible.Store.{Ptr, null, Store, MtInterruptible}
use lua_mtint.Interruptible.Table.{Chains, payload}
use lua_mtint.Interruptible.Table.Valid.{Live}
use lua_mtint.Interruptible.Table.Grow.{IsCalloced}
use lua_mtint.Interruptible.Table.Register.{Registered}
use lua_mtint.Interruptible.Objects.{World, IntrUserData, returns, create, blank}
use lua_mtint.Interruptible.Objects.Touch.{Live-object}
use lua_mtint.Interruptible.Objects.Creation.{refer, made, create_lem}
use lua_mtint.Interruptible.Objects.Accounting.{
  refers_to, references, Accounted, references-set_udata, references-zero, payload_inv,
}

-- User data that are absent or refer to another object.
refers_to-none :
    (p : Ptr) (x : Option IntrUserData)
    → ((d : IntrUserData) → x ≡ some d → d.interruptible ≢ p)
    → refers_to p x ≡ 0
refers_to-none p none ne = refl
refers_to-none p (some d) ne = ground (arith, ne d refl)

payload-entry :
    (x : Option MtInterruptible) (o : MtInterruptible) (id : ℤ) (l2 : Ptr)
    → payload x ≡ some (id, 1, true, l2)
    → x ≡ some o
    → (o.used ≡ 1) × (o.initialized ≡ true)
payload-entry none o id l2 e at = absurd (cc)
payload-entry (some o') o id l2 e at = (cc, cc)

module _ {n : ℕ} {w : World} {chain : Chains} (a : Accounted n w chain) (u intrp l2 : Ptr)
    (is_main : Bool) (lt : u < n) (at : w.udata u ≡ none) (ne_null : intrp ≢ null)
    (unused : w.store.object intrp ≡ none) (ids_left : w.mtint_id_counter + 1 < 2 ^ 31) where
  dead : ¬ (Live w.store.interruptible_buckets chain intrp)
  dead live = let (o, here, _) = Live-object w.store a.valid intrp live in absurd (cc)

  few : w.store.interruptible_counter + 1 < 2 ^ 31
  few = omega (arith, a.few)

  abbrev fresh_world : World
  fresh_world = made w a.valid u intrp l2 is_main ne_null dead ids_left few

  none_before : references n w intrp ≡ 0
  none_before = references-zero n w intrp (λ v lt_v. refers_to-none intrp (w.udata v) (λ d here e.
      dead (
        subst (λ z. Live w.store.interruptible_buckets chain z) e
          (a.live v d lt_v here (λ e'. ne_null (sym e ∙ e'))))))

  module _ (t : Store) (chain' : Chains)
      (r : Registered fresh_world.store t chain chain' intrp
        (blank (pos (w.mtint_id_counter + 1)))
        l2) where
    abbrev after : World
    after = record fresh_world { store = t }

    -- The new object, where it is found.
    new_object :
        (o : MtInterruptible) → t.object intrp ≡ some o → (o.used ≡ 1) × (o.initialized ≡ true)
    new_object o here = payload-entry (t.object intrp) o _ _ (r.entry) here

    -- Another live object was so before, and holds the same.
    old_object :
        (q : Ptr) (o' : MtInterruptible)
        → Live w.store.interruptible_buckets chain q
        → t.object q ≡ some o'
        → (q ≢ intrp)
          × ((o : MtInterruptible) × (w.store.object q ≡ some o)
              × (o'.used ≡ o.used)
              × (o'.initialized ≡ o.initialized))
    old_object q o' live_q at_q =
        let ne : q ≢ intrp =
          λ e. dead (subst (λ z. Live w.store.interruptible_buckets chain z) e live_q) in
        let same : fresh_world.store.object q ≡ w.store.object q = ground (arith, ne) in
        (ne, payload_inv (w.store.object q) (t.object q) o' (r.others q ne ∙ ap payload same) at_q)

    change :
        (q : Ptr)
        → references n after q + refers_to q (w.udata u)
          ≡ references n w q + refers_to q (some (refer intrp is_main))
    change q = references-set_udata n w u (refer intrp is_main) q lt

    one_now : references n after intrp ≡ 1
    one_now =
        let before : refers_to intrp (w.udata u) ≡ 0 = ground (arith, at) in
        let now : refers_to intrp (some (refer intrp is_main)) ≡ 1 = ground arith in
        omega (arith, change intrp, none_before)

    others_now : (q : Ptr) → q ≢ intrp → references n after q ≡ references n w q
    others_now q ne =
        let before : refers_to q (w.udata u) ≡ 0 = ground (arith, at) in
        let now : refers_to q (some (refer intrp is_main)) ≡ 0 = ground (arith, ne) in
        omega (arith, change q)

    created-Accounted : Accounted n after chain'
    created-Accounted = record {
      valid = r.valid;
      initialized = λ q o' live_q at_q. elim ((r.live q).0 live_q) [
        | inl e ↦ (new_object o' (ap t.object (sym e) ∙ at_q)).1
        | inr before ↦
            let (ne, (o, at', _, init)) = old_object q o' before at_q in
            init ∙ a.initialized q o before at'
      ];
      counted = λ q o' live_q at_q. elim ((r.live q).0 live_q) [
        | inl e ↦
            let used = (new_object o' (ap t.object (sym e) ∙ at_q)).0 in
            (used ∙ sym one_now ∙ ap (references n after) (sym e), omega (arith, used))
        | inr before ↦
            let (ne, (o, at', used, _)) = old_object q o' before at_q in
            let counts = a.counted q o before at' in
            (used ∙ counts.0 ∙ sym (others_now q ne), omega (arith, used, counts.1))
      ];
      live = λ v d lt_v at_v ne. elim (Bool-cases (u == v)) [
        | inl e ↦ (r.live d.interruptible).1 (inl (ground arith))
        | inr ne_v ↦ (r.live d.interruptible).1 (inr (a.live v d lt_v (ground arith) ne))
      ];
      few = omega (arith, r.counter, a.few);
      ids = ids_left;
    }

  -- `memory` is that calloc had an array if there was none.
  pub create-Accounted :
      (fresh : Ptr)
      → IsCalloced w.store fresh
      → (fresh ≢ null) ⊎ (0 < w.store.interruptible_buckets)
      → (w' : World) × (chain' : Chains) × (create u intrp fresh l2 is_main w ≡ returns u w')
        × Accounted n w' chain'
  create-Accounted fresh calloced memory =
      elim (create_lem w a.valid u intrp l2 is_main ne_null dead ids_left few fresh calloced) [
        | inl (t, chain', run, r) ↦ (_, chain', run, created-Accounted t chain' r)
        | inr (_, no_memory, empty) ↦ elim memory [
          | inl had ↦ absurd (had no_memory)
          | inr array ↦ absurd (omega arith)
        ]
      ]
