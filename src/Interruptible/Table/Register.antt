-- ===== src/Interruptible/Table/Register.antt =====
-- The critical section of assureCreatedMtInterruptible: a new object enters the table.
use lua_mtint.Base.{
  ℕ, ◌+◌, ◌^◌, ◌<◌, ◌≡◌, ◌≢◌, ◌↔◌, ◌⊎◌, inl, inr, refl, ◌∙◌, true, false, ◌&&◌, none, some, arith,
  ◌==◌, Bool-cases, Option, has, ap,
}
use lua_mtint.Atomic.{inc32}
use lua_mtint.Interruptible.Store.{Ptr, null, Store, ok, when, MtInterruptible, update}
use lua_mtint.Interruptible.Chain.{IsNat, SameLinks, Seg-touch}
use lua_mtint.Interruptible.Buckets.{rebuild, should_grow, to_buckets, register}
use lua_mtint.Interruptible.Table.{Chains, Table, Absent, Spared, payload, push_chain, slot_no}
use lua_mtint.Interruptible.Table.Insert.{to_buckets_lem}
use lua_mtint.Interruptible.Table.Valid.{
  total, total-push_chain, Live, IsValid, IsFullTable, full_of_table,
}
use lua_mtint.Interruptible.Table.Grow.{IsCalloced, SameLive, new_size, grow_lem}

-- What a registration with success does.
pub record Registered (s w : Store) (chain chain' : Chains) (p : Ptr) (o : MtInterruptible)
    (l2 : Ptr) : Type 0 where
  pub valid : IsValid w chain'
  pub live :
      (q : Ptr)
      → Live w.interruptible_buckets chain' q ↔ ((q ≡ p) ⊎ Live s.interruptible_buckets chain q)
  pub counter : w.interruptible_counter ≡ s.interruptible_counter + 1
  pub entry : payload (w.object p) ≡ some (o.id, o.used, true, l2)
  pub others : (q : Ptr) → q ≢ p → payload (w.object q) ≡ payload (s.object q)

payload-some :
    (o : MtInterruptible) (x : Option MtInterruptible)
    → payload x ≡ payload (some o)
    → (o' : MtInterruptible) × (x ≡ some o') × (o'.id ≡ o.id) × (o'.used ≡ o.used)
payload-some o none h = absurd (cc)
payload-some o (some o') h = (o', refl, cc, cc)

Live-push_chain :
    (n k : ℕ) (chain : Chains) (p q : Ptr)
    → k < n
    → Live n (push_chain chain k p) q ↔ ((q ≡ p) ⊎ Live n chain q)
Live-push_chain n k chain p q lt = (there, back)
  where
    there : Live n (push_chain chain k p) q → (q ≡ p) ⊎ Live n chain q
    there (i, hi, inside) = elim (Bool-cases (p == q)) [
      | inl e ↦ inl (ground arith)
      | inr e ↦ inr (i, hi, ground arith)
    ]

    back : (q ≡ p) ⊎ Live n chain q → Live n (push_chain chain k p) q
    back (inl e) = (k, lt, ground arith)
    back (inr (i, hi, inside)) = (i, hi, ground arith)

register-run :
    (s t u : Store) (fresh p l2 : Ptr) (o : MtInterruptible)
    → when (should_grow s) (rebuild fresh (new_size s)) s ≡ ok tt t
    → (should_grow s && fresh == null && s.interruptible_buckets == 0) ≡ false
    → to_buckets p t.interruptible_buckets t.interruptible_bucket_list t ≡ ok tt u
    → u.object p ≡ some o
    → register fresh p l2 s
      ≡ ok true (record u {
        object = update u.object p (some (record o { l2 = l2; initialized = true }));
        interruptible_counter = inc32 u.interruptible_counter;
      })
unfolding register
register-run s t u fresh p l2 o grown memory added at = ground arith

register-none :
    (s : Store) (fresh p l2 : Ptr)
    → fresh ≡ null
    → s.interruptible_buckets ≡ 0
    → should_grow s ≡ true
    → register fresh p l2 s ≡ ok false s
unfolding register rebuild
register-none s fresh p l2 no_memory empty grows = rw (no_memory, grows, empty) refl

inc32-lt : (v : ℕ) → v + 1 < 2 ^ 31 → inc32 v ≡ v + 1
unfolding inc32
inc32-lt v h = omega arith

abbrev Entered : Store → Ptr → MtInterruptible → Ptr → Store
Entered u p o l2 = record u {
  object = update u.object p (some (record o { l2 = l2; initialized = true }));
  interruptible_counter = inc32 u.interruptible_counter;
}

-- The last writes change no link.
Entered-Table :
    (u : Store) {list n : ℕ} {chain : Chains} {p : Ptr} {o : MtInterruptible} (l2 : Ptr)
    → u.object p ≡ some o
    → Table u list n chain
    → Table (Entered u p o l2) list n chain
Entered-Table u {p} {o} l2 at t = record {
  buckets = t.buckets;
  found = t.found;
  size = t.size;
  seg = λ i lt. Seg-touch touched (t.seg i lt);
}
  where
    touched :
        SameLinks u.object (update u.object p (some (record o { l2 = l2; initialized = true })))
    touched q o' at' = elim (Bool-cases (p == q)) [
      | inl e ↦ (
        record o { l2 = l2; initialized = true },
        ground arith,
        ground (arith, at, at'),
        ground (arith, at, at'),
        ground (arith, at, at'),
      )
      | inr e ↦ (o', ground arith, refl, refl, refl)
    ]

module _ (s : Store) {chain : Chains} (v : IsValid s chain) {p : Ptr} {o : MtInterruptible}
    (l2 : Ptr) (ne_null : p ≢ null) (here : s.object p ≡ some o) (nat : IsNat o.id)
    (dead : ¬ (Live s.interruptible_buckets chain p))
    (small : s.interruptible_counter + 1 < 2 ^ 31) where
  abbrev pub Registers : Ptr → Type 0
  Registers fresh =
      ((w : Store) × (chain' : Chains) × (register fresh p l2 s ≡ ok true w)
        × Registered s w chain chain' p o l2)
      ⊎ ((register fresh p l2 s ≡ ok false s) × (fresh ≡ null) × (s.interruptible_buckets ≡ 0))

  module _ (t : Store) {chain' : Chains} (same : SameLive s t chain chain')
      (full : IsFullTable t chain') where
    at_t : t.object p ≡ some o
    at_t = same.others p dead ∙ here

    absent : Absent t.interruptible_buckets chain' p
    absent i lt = elim (Bool-cases (has p (chain' i))) [
      | inl inside ↦ absurd (dead ((same.live p).1 (i, lt, inside)))
      | inr e ↦ e
    ]

    abbrev k : ℕ
    k = slot_no o t.interruptible_buckets

    live_after :
        (q : Ptr)
        → Live t.interruptible_buckets (push_chain chain' k p) q
          ↔ ((q ≡ p) ⊎ Live s.interruptible_buckets chain q)
    live_after q =
        let pushed = Live-push_chain t.interruptible_buckets k chain' p q (omega (arith, full.1)) in
        (
          λ h. elim (pushed.0 h) [ inl e ↦ inl e | inr old ↦ inr ((same.live q).1 old) ],
          λ h. pushed.1 (elim h [ inl e ↦ inl e | inr old ↦ inr ((same.live q).0 old) ]),
        )

    entered :
        (u : Store)
        → Table u t.interruptible_bucket_list t.interruptible_buckets (push_chain chain' k p)
        → Spared t u t.interruptible_bucket_list t.interruptible_buckets chain' p
        → (o' : MtInterruptible) → u.object p ≡ some o'
        → o'.id ≡ o.id
        → o'.used ≡ o.used
        → Registered s (Entered u p o' l2) chain (push_chain chain' k p) p o l2
    entered u tu sp o' at id used = record {
      valid = record {
        table = inr (
            full_of_table (Entered u p o' l2) sp.bucket_list sp.buckets full.0 full.1
              (Entered-Table u l2 at tu));
        counted = omega (
          arith,
          inc32-lt u.interruptible_counter (omega (arith, sp.counter, same.counter)),
          sp.counter,
          same.valid.counted,
          ap (λ n. total n (push_chain chain' k p)) sp.buckets,
          total-push_chain t.interruptible_buckets chain' k p (omega (arith, full.1)),
        );
      };
      live = λ q. rw sp.buckets (live_after q);
      counter = omega (
        arith,
        inc32-lt u.interruptible_counter (omega (arith, sp.counter, same.counter)),
        sp.counter,
        same.counter,
      );
      entry = ground arith;
      others = λ q ne. ground (arith, sp.payloads q, same.payloads q);
    }

    registered :
        (fresh : Ptr)
        → when (should_grow s) (rebuild fresh (new_size s)) s ≡ ok tt t
        → (should_grow s && fresh == null && s.interruptible_buckets == 0) ≡ false
        → Registers fresh
    registered fresh grown memory =
        let (u, run, tu, sp) = to_buckets_lem t full.2 full.1 ne_null at_t nat absent in
        let (o', at, id, used) = payload-some o (u.object p) (sp.payloads p ∙ ap payload at_t) in
        inl (
          Entered u p o' l2,
          push_chain chain' k p,
          register-run s t u fresh p l2 o' grown memory run at,
          entered u tu sp o' at id used,
        )

  -- Registration in a valid table, of an object that is not live and has an id that is not negative,
  -- with the counter below 2 ^ 31 - 1, neither faults nor runs out of fuel. Either the new object is live afterwards, as
  -- the only change to the set of live objects, with its state and its flag set; or there was no
  -- array and none could be allocated, and nothing has changed.
  pub register_lem : (fresh : Ptr) → IsCalloced s fresh → Registers fresh
  register_lem fresh calloced =
      let (t, chain', run, same, outcome) = grow_lem s v fresh calloced in
      elim outcome [
        | inl (full, memory) ↦ registered t same full fresh run memory
        | inr (no_memory, empty, grows) ↦
            inr (register-none s fresh p l2 no_memory empty grows, no_memory, empty)
      ]
