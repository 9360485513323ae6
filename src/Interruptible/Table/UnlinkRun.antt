-- ===== src/Interruptible/Table/UnlinkRun.antt =====
-- The first half of MtInterruptible_free on a table.
use lua_mtint.Base.{
  ℕ, ◌<◌, ◌≡◌, ◌≢◌, ◌⊎◌, inl, inr, refl, ◌∙◌, true, false, not, ◌&&◌, none, some, arith, ◌==◌, ◌∈◌,
  ◌∉◌, Bool-cases, has, erase, if◌then◌else◌, eq_of_==, ==_refl, subst, ap, Option,
}
use lua_mtint.Interruptible.Store.{
  Ptr, null, Slot, null_slot, first_of, next_of, MtInterruptible, BucketList, Objects, Store, ok,
  Cmd, when, modify, write_slot, update, put_array, put_object, set_bucket,
}
use lua_mtint.Interruptible.Chain.{Seg, Seg-frame, Seg-home}
use lua_mtint.Interruptible.Buckets.{is_null_slot, unlink}
use lua_mtint.Interruptible.Table.{Chains, Table, Table-apart, payload}
use lua_mtint.Interruptible.Table.Unlink.{
  write_next, write_prev, unlinked, Neighbours, Seg-Neighbours, Seg-unlinked, unlinked-far,
}

-- What a step leaves alone, objects and the array at `list` apart.
record Steady (s s' : Store) (list : Ptr) : Type 0 where
  arrays : (l : Ptr) → l ≢ list → s'.array l ≡ s.array l
  counter : s'.interruptible_counter ≡ s.interruptible_counter
  buckets : s'.interruptible_buckets ≡ s.interruptible_buckets
  bucket_list : s'.interruptible_bucket_list ≡ s.interruptible_bucket_list

write_slot-first :
    (s : Store) (list i x : ℕ) (a : BucketList)
    → s.array list ≡ some a
    → i < a.size
    → write_slot (first_of list i) x s
      ≡ ok tt (put_array list (set_bucket a i (record (a.bucket i) { first_interruptible = x })) s)
unfolding write_slot
write_slot-first s list i x a found lt = ground arith

write_slot-next :
    (s : Store) (r x : ℕ) (d : MtInterruptible)
    → s.object r ≡ some d
    → write_slot (next_of r) x s ≡ ok tt (put_object r (record d { next_interruptible = x }) s)
unfolding write_slot
write_slot-next s r x d at = ground arith

abbrev relink : Ptr → Slot → Cmd (Unit {0})
relink x slot = when (not (x == null)) (modify x (λ t. record t { prev_interruptible_ptr = slot }))

relink_lem :
    (s : Store) (x : Ptr) (slot : Slot)
    → (x ≡ null) ⊎ ((d : MtInterruptible) × (s.object x ≡ some d))
    → (s' : Store) × (relink x slot s ≡ ok tt s')
      × ((q : Ptr) → s'.object q ≡ write_prev x slot s.object q)
      × (s'.array ≡ s.array)
      × (s'.interruptible_counter ≡ s.interruptible_counter)
      × (s'.interruptible_buckets ≡ s.interruptible_buckets)
      × (s'.interruptible_bucket_list ≡ s.interruptible_bucket_list)
unfolding modify
relink_lem s x slot (inl e) = (s, ground arith, λ q. ground arith, refl, refl, refl, refl)
relink_lem s x slot (inr (d, at)) = elim (Bool-cases (x == null)) [
  | inl e ↦ (s, ground arith, λ q. ground arith, refl, refl, refl, refl)
  | inr e ↦ (
    put_object x (record d { prev_interruptible_ptr = slot }) s,
    ground arith,
    λ q. ground arith,
    refl,
    refl,
    refl,
    refl,
  )
]

unlink-run :
    (s s1 s2 : Store) (p : Ptr) (o o1 o2 : MtInterruptible)
    → s.object p ≡ some o
    → is_null_slot o.prev_interruptible_ptr ≡ false
    → write_slot o.prev_interruptible_ptr o.next_interruptible s ≡ ok tt s1
    → s1.object p ≡ some o1
    → relink o1.next_interruptible o1.prev_interruptible_ptr s1 ≡ ok tt s2
    → s2.object p ≡ some o2
    → unlink p s ≡ ok true (record s2 { object = update s2.object p none })
unfolding unlink
unlink-run s s1 s2 p o o1 o2 at slot run1 at1 run2 at2 = ground arith

-- One chain loses `p`.
abbrev pub drop_from : Chains → ℕ → Ptr → Chains
drop_from chain k p = update chain k (erase p (chain k))

-- What taking `p` out of a table does.
pub record Dropped (s s' : Store) (list n : ℕ) (chain : Chains) (k : ℕ) (p : Ptr) : Type 0 where
  pub table : Table s' list n (drop_from chain k p)
  pub freed : s'.object p ≡ none
  pub payloads : (q : Ptr) → q ≢ p → payload (s'.object q) ≡ payload (s.object q)
  pub arrays : (l : Ptr) → l ≢ list → s'.array l ≡ s.array l
  pub counter : s'.interruptible_counter ≡ s.interruptible_counter
  pub buckets : s'.interruptible_buckets ≡ s.interruptible_buckets
  pub bucket_list : s'.interruptible_bucket_list ≡ s.interruptible_bucket_list

write_next-some :
    {x : Ptr} {d : MtInterruptible} {y : Option MtInterruptible} (slot : Slot) (z : Ptr)
    (m : Objects)
    → m x ≡ some d
    → y ≡ write_next slot z m x
    → (d' : MtInterruptible) × (y ≡ some d')
write_next-some {d} null_slot z m at e = (d, e ∙ at)
write_next-some {d} (first_of list i) z m at e = (d, e ∙ at)
write_next-some {x} {d} (next_of r) z m at e = elim (Bool-cases (r == x)) [
  | inl hit ↦ (record d { next_interruptible = z }, ground arith)
  | inr miss ↦ (d, ground arith)
]

module _ (s : Store) {list n : ℕ} {chain : Chains} (t : Table s list n chain) (k : ℕ) (lt : k < n)
    (p : Ptr) (inside : p ∈ chain k) (o : MtInterruptible) (at : s.object p ≡ some o) where
  abbrev head : Ptr
  head = (t.buckets.bucket k).first_interruptible

  near : Neighbours (first_of list k) head (chain k) p o
  near = Seg-Neighbours p o at (t.seg k lt) inside

  -- After `*intrp->prevInterruptiblePtr = intrp->nextInterruptible`.
  record Written (s1 : Store) : Type 0 where
    objects :
        (q : Ptr)
        → s1.object q ≡ write_next o.prev_interruptible_ptr o.next_interruptible s.object q
    buckets : BucketList
    found : s1.array list ≡ some buckets
    size : buckets.size ≡ n
    heads :
        (j : ℕ)
        → (buckets.bucket j).first_interruptible ≡ (
            if (k == j) && (head == p)
            then o.next_interruptible
            else (t.buckets.bucket j).first_interruptible)
    steady : Steady s s1 list

  abbrev Writes : Type 0
  Writes =
      (s1 : Store) × (write_slot o.prev_interruptible_ptr o.next_interruptible s ≡ ok tt s1)
      × (is_null_slot o.prev_interruptible_ptr ≡ false)
      × (s1.object p ≡ some o)
      × Written s1

  write_head : head ≡ p → o.prev_interruptible_ptr ≡ first_of list k → Writes
  unfolding is_null_slot
  write_head first back = (
    put_array list
        (set_bucket t.buckets k
          (record (t.buckets.bucket k) { first_interruptible = o.next_interruptible }))
        s,
    rw back
        (write_slot-first s list k o.next_interruptible t.buckets t.found (omega (arith, t.size))),
    rw back,
    at,
    record {
      objects = λ q. rw back refl;
      buckets =
          set_bucket t.buckets k
            (record (t.buckets.bucket k) { first_interruptible = o.next_interruptible });
      found = ground arith;
      size = t.size;
      heads = λ j. ground arith;
      steady = record {
        arrays = λ l ne. ground arith;
        counter = refl;
        buckets = refl;
        bucket_list = refl;
      };
    },
  )

  write_inner :
      head ≢ p → (r : Ptr) → o.prev_interruptible_ptr ≡ next_of r → r ∈ chain k → r ≢ p → Writes
  unfolding is_null_slot
  write_inner first r back r_in r_ne =
      let (d, at_r, _, _, _) = Seg-home r (t.seg k lt) r_in in
      (
        put_object r (record d { next_interruptible = o.next_interruptible }) s,
        rw back (write_slot-next s r o.next_interruptible d at_r),
        rw back,
        ground arith,
        record {
          objects = λ q. rw back (ground arith);
          buckets = t.buckets;
          found = t.found;
          size = t.size;
          heads = λ j. ground arith;
          steady = record {
            arrays = λ l ne. refl;
            counter = refl;
            buckets = refl;
            bucket_list = refl;
          };
        },
      )

  writes : Writes
  writes = elim near.before [
    | inl (first, back) ↦ write_head first back
    | inr (first, (r, back, r_in, r_ne)) ↦ write_inner first r back r_in r_ne
  ]

  -- After all the writes, and `free`.
  abbrev finished : Store → Store
  finished s2 = record s2 { object = update s2.object p none }

  objects_after :
      {s1 : Store} (s2 : Store)
      → Written s1
      → ((q : Ptr)
          → s2.object q ≡ write_prev o.next_interruptible o.prev_interruptible_ptr s1.object q)
      → (q : Ptr) → update s2.object p none q ≡ unlinked s.object p o q
  objects_after s2 w relinked q = ground (arith, relinked q, w.objects q)

  payloads_after : (q : Ptr) → q ≢ p → payload (unlinked s.object p o q) ≡ payload (s.object q)
  payloads_after q ne = elim near.before [
    | inl (first, back) ↦ ground (arith, back)
    | inr (first, (r, back, r_in, r_ne)) ↦ ground (arith, back)
  ]

  elsewhere :
      (j : ℕ) → j < n → j ≢ k → (q : Ptr) → q ∈ chain j → unlinked s.object p o q ≡ s.object q
  elsewhere j hj ne q q_in =
      let (_, _, _, _, q_ne) = Seg-home q (t.seg j hj) q_in in
      unlinked-far s.object p o q near tt not_here q_ne (ground (arith, not_here))
    where
      not_here : q ∉ chain k
      not_here = elim (Bool-cases (has q (chain k))) [
        | inl also ↦ absurd (ne (Table-apart t j k q hj lt q_in also))
        | inr e ↦ e
      ]

  Seg-after :
      (j : ℕ)
      → j < n
      → Seg
          (unlinked s.object p o)
          n
          j
          (first_of list j)
          (if (k == j) && (head == p)
            then o.next_interruptible
            else (t.buckets.bucket j).first_interruptible)
          (drop_from chain k p j)
  Seg-after j hj = elim (Bool-cases (k == j)) [
    | inl e ↦
        subst
          (λ i.
            Seg (unlinked s.object p o) n i (first_of list i)
              (if (k == i) && (head == p)
                then o.next_interruptible
                else (t.buckets.bucket i).first_interruptible)
              (drop_from chain k p i))
          (eq_of_== k j e) (rw ==_refl (Seg-unlinked p o at tt inside (t.seg k lt)))
    | inr e ↦ rw e (Seg-frame (elsewhere j hj (ground arith)) (t.seg j hj))
  ]

  -- The successor, if there is one, is an object.
  successor :
      {s1 : Store}
      → Written s1
      → (o.next_interruptible ≡ null)
        ⊎ ((d : MtInterruptible) × (s1.object o.next_interruptible ≡ some d))
  successor w = elim near.behind [
    | inl e ↦ inl e
    | inr (x_in, x_ne) ↦
        let (d, at_x, _, _, _) = Seg-home o.next_interruptible (t.seg k lt) x_in in
        inr (
          write_next-some o.prev_interruptible_ptr o.next_interruptible s.object at_x
            (w.objects o.next_interruptible))
  ]

  spared :
      (m : Objects)
      → m p ≡ some o
      → write_prev o.next_interruptible o.prev_interruptible_ptr m p ≡ some o
  spared m at1 = elim near.behind [ inl e ↦ ground arith | inr (x_in, x_ne) ↦ ground arith ]

  -- Taking an object out of its chain never faults. Its memory is free afterwards, the chain has lost
  -- it, and every other chain, payload and array is as before.
  pub unlink_lem : (s' : Store) × (unlink p s ≡ ok true s') × Dropped s s' list n chain k p
  unlink_lem =
      let (s1, run1, slot, at1, w) = writes in
      let (s2, run2, relinked, arrays, counter, buckets, bucket_list) =
        relink_lem s1 o.next_interruptible o.prev_interruptible_ptr (successor w) in
      let final = objects_after s2 w relinked in
      (
        finished s2,
        unlink-run s s1 s2 p o o o at slot run1 at1 run2 (relinked p ∙ spared s1.object at1),
        record {
          table = record {
            buckets = w.buckets;
            found = ap (λ (f : Ptr → Option BucketList). f list) arrays ∙ w.found;
            size = w.size;
            seg = λ j hj. rw w.heads (Seg-frame (λ q q_in. final q) (Seg-after j hj));
          };
          freed = ground arith;
          payloads = λ q ne. ap payload (final q) ∙ payloads_after q ne;
          arrays = λ l ne. ap (λ (f : Ptr → Option BucketList). f l) arrays ∙ w.steady.arrays l ne;
          counter = counter ∙ w.steady.counter;
          buckets = buckets ∙ w.steady.buckets;
          bucket_list = bucket_list ∙ w.steady.bucket_list;
        },
      )
