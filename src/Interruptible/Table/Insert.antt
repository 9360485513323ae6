-- ===== src/Interruptible/Table/Insert.antt =====
-- toBuckets on a table: where the writes lead, and what they spare.
use lua_mtint.Base.{
  ℕ, ◌+◌, ◌<◌, ◌≡◌, ◌≢◌, refl, some, List, [], ◌∷◌, arith, ◌==◌, ◌∈◌, ◌∉◌, Bool-cases, inl, inr,
  has, List-cases, subst, ==_refl, eq_of_==, ltb, if◌then◌else◌,
}
use lua_mtint.Interruptible.Store.{
  Ptr, null, first_of, next_of, MtInterruptible, BucketList, InterruptibleBucket, Objects, Store,
  ok, update,
}
use lua_mtint.Interruptible.Chain.{
  IsNat, Seg, nil, cons, Seg-frame, Seg-home, Seg-reslot, Seg-nil, Seg-first,
}
use lua_mtint.Interruptible.Buckets.{to_buckets}
use lua_mtint.Interruptible.Table.{
  Chains, Table, Absent, payload, Spared, push_chain, slot_no, Table-apart, bucket_index-pos,
}

-- The last writes of toBuckets, from the objects `m` on.
abbrev added : Store → Objects → BucketList → (list i : ℕ) → Ptr → MtInterruptible → Ptr → Store
added s m a list i p o head = record s {
  object =
      update (update m p (some (record o { next_interruptible = head }))) p
        (some (record o { next_interruptible = head; prev_interruptible_ptr = first_of list i }));
  array = update s.array list (
      some (record a {
        bucket =
            update a.bucket i (record { count = (a.bucket i).count + 1; first_interruptible = p });
      }));
  bucket_usage =
      if ltb s.bucket_usage ((a.bucket i).count + 1)
      then (a.bucket i).count + 1
      else s.bucket_usage;
}

module _ (s : Store) {list n : ℕ} {p : Ptr} {o : MtInterruptible} {a : BucketList} (pos_n : 0 < n)
    (here : s.object p ≡ some o) (nat : IsNat o.id) (found : s.array list ≡ some a)
    (size : a.size ≡ n) where
  to_buckets-empty :
      (a.bucket (slot_no o n)).first_interruptible ≡ null
      → to_buckets p n list s ≡ ok tt (added s s.object a list (slot_no o n) p o null)
  unfolding to_buckets
  to_buckets-empty e = ground (arith, bucket_index-pos o.id n s pos_n nat)

  to_buckets-front :
      (q : Ptr) (h : MtInterruptible)
      → (a.bucket (slot_no o n)).first_interruptible ≡ q
      → q ≢ null
      → q ≢ p
      → s.object q ≡ some h
      → to_buckets p n list s
        ≡ ok tt (
            added s
              (update s.object q (some (record h { prev_interruptible_ptr = next_of p })))
              a
              list
              (slot_no o n)
              p
              o
              q)
  unfolding to_buckets
  to_buckets-front q h e ne apart at = ground (arith, bucket_index-pos o.id n s pos_n nat)

module _ (s : Store) {list n : ℕ} {p : Ptr} {o : MtInterruptible} {chain : Chains}
    (t : Table s list n chain) (pos_n : 0 < n) (ne_null : p ≢ null) (here : s.object p ≡ some o)
    (nat : IsNat o.id) (absent : Absent n chain p) where
  open t use {buckets, found, size, seg}

  -- The objects `m` differ from those of `s` in the back link of the chain's head.
  record BackLinked (m : Objects) (head : Ptr) : Type 0 where
    chained : Seg m n (slot_no o n) (next_of p) head (chain (slot_no o n))
    same : (q : Ptr) → q ∉ chain (slot_no o n) → m q ≡ s.object q
    payloads : (q : Ptr) → payload (m q) ≡ payload (s.object q)

  module _ {m : Objects} {head : Ptr} (linked : BackLinked m head) where
    abbrev after : Store
    after = added s m buckets list (slot_no o n) p o head

    absent_elsewhere :
        (i : ℕ) → i < n → i ≢ slot_no o n → (q : Ptr) → q ∈ chain i → q ∉ chain (slot_no o n)
    absent_elsewhere i lt ne q inside = elim (Bool-cases (has q (chain (slot_no o n)))) [
      | inl also ↦ absurd (ne (Table-apart t i (slot_no o n) q lt (omega arith) inside also))
      | inr out ↦ out
    ]

    new_chain :
        Seg after.object n (slot_no o n) (first_of list (slot_no o n)) p (p ∷ chain (slot_no o n))
    new_chain =
        cons
          {o = record o {
            next_interruptible = head;
            prev_interruptible_ptr = first_of list (slot_no o n);
          }}
          refl
          (record {
            ne_null = ne_null;
            holds = ground arith;
            back = refl;
            is_nat = nat;
            home = refl;
          })
          (absent _ (omega arith))
          (Seg-frame (λ q inside. ground (arith, absent (slot_no o n))) linked.chained)

    abbrev heads : ℕ → InterruptibleBucket
    heads =
        update buckets.bucket (slot_no o n)
          (record { count = (buckets.bucket (slot_no o n)).count + 1; first_interruptible = p })

    after-Seg :
        (i : ℕ)
        → i < n
        → Seg after.object n i
            (first_of list i)
            (heads i).first_interruptible
            (push_chain chain (slot_no o n) p i)
    after-Seg i lt = elim (Bool-cases (slot_no o n == i)) [
      | inl e ↦
          subst
            (λ j.
              Seg after.object n j (first_of list j) (heads j).first_interruptible
                (push_chain chain (slot_no o n) p j))
            (eq_of_== (slot_no o n) i e) (rw ==_refl new_chain)
      | inr e ↦ rw e (
          Seg-frame
            (λ q inside.
              ground
                (arith, absent i lt, absent_elsewhere i lt (ground arith) q inside, linked.same q))
            (seg i lt))
    ]

    after-Table : Table after list n (push_chain chain (slot_no o n) p)
    after-Table = record {
      buckets = record buckets { bucket = heads };
      found = ground arith;
      size = size;
      seg = after-Seg;
    }

    after-Spared : Spared s after list n chain p
    after-Spared = record {
      others = λ q ne out. ground (arith, linked.same q, out (slot_no o n));
      payloads = λ q. ground (arith, linked.payloads q);
      arrays = ground arith;
      counter = refl;
      buckets = refl;
      bucket_list = refl;
    }

  abbrev HomeSeg : List Ptr → Type 0
  HomeSeg =
      Seg s.object n (slot_no o n) (first_of list (slot_no o n))
        (buckets.bucket (slot_no o n)).first_interruptible

  empty-BackLinked : chain (slot_no o n) ≡ [] → BackLinked s.object null
  empty-BackLinked e = record {
    chained = rw e (nil refl);
    same = λ q out. refl;
    payloads = λ q. refl;
  }

  front-BackLinked :
      (q : Ptr) (xs : List Ptr) (h : MtInterruptible)
      → chain (slot_no o n) ≡ q ∷ xs
      → s.object q ≡ some h
      → Seg
          (update s.object q (some (record h { prev_interruptible_ptr = next_of p })))
          n
          (slot_no o n)
          (next_of p)
          q
          (q ∷ xs)
      → BackLinked (update s.object q (some (record h { prev_interruptible_ptr = next_of p }))) q
  front-BackLinked q xs h e at linked = record {
    chained = rw e linked;
    same = rw e (λ a out. ground arith);
    payloads = λ a. ground arith;
  }

  abbrev pub Inserted : Type 0
  Inserted =
      (s' : Store) × (to_buckets p n list s ≡ ok tt s')
      × Table s' list n (push_chain chain (slot_no o n) p)
      × Spared s s' list n chain p

  insert_empty : chain (slot_no o n) ≡ [] → HomeSeg [] → Inserted
  insert_empty e whole =
      let linked = empty-BackLinked e in
      (
        _,
        to_buckets-empty s pos_n here nat found size (Seg-nil whole),
        after-Table linked,
        after-Spared linked,
      )

  insert_front :
      (q : Ptr) (xs : List Ptr) → chain (slot_no o n) ≡ q ∷ xs → HomeSeg (q ∷ xs) → Inserted
  insert_front q xs e whole =
      let (h, at, relinked) = Seg-reslot (next_of p) whole in
      let linked = front-BackLinked q xs h e at relinked in
      let (_, _, _, _, ne) = Seg-home q whole (ground arith) in
      let out = rw e at (absent (slot_no o n) (omega arith)) in
      (
        _,
        to_buckets-front s pos_n here nat found size q h (Seg-first whole) ne (ground arith) at,
        after-Table linked,
        after-Spared linked,
      )

  -- toBuckets with an object that has an id that is not negative and is in no chain of a table of at
  -- least one bucket neither faults nor changes another chain: the object is in front of the chain
  -- that its id leads to. No payload, no other array and no object outside the table changes.
  pub to_buckets_lem : Inserted
  to_buckets_lem = elim (List-cases (chain (slot_no o n))) [
    | inl e ↦ insert_empty e (rw e at (seg (slot_no o n) (omega arith)))
    | inr (q, xs, e) ↦ insert_front q xs e (rw e at (seg (slot_no o n) (omega arith)))
  ]
