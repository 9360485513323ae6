-- ===== src/Interruptible/Table/MoveAll.antt =====
-- The outer loop of newBuckets: the chains of consecutive old buckets, one after the other.
use lua_mtint.Base.{
  ℕ, zero, suc, ◌+◌, ◌<◌, ◌≤◌, ◌≡◌, ◌≢◌, refl, some, List, [], ◌++◌, arith, ◌==◌, ◌∈◌, ◌∉◌, has,
  has-append, length, length-append, Bool-cases, inl, inr, ◌∙◌, subst, sym, ap,
}
use lua_mtint.Interruptible.Store.{Ptr, Store, ok, BucketList}
use lua_mtint.Interruptible.Buckets.{move_chain, move_all}
use lua_mtint.Interruptible.Table.{Chains, Table}
use lua_mtint.Interruptible.Table.Valid.{total}
use lua_mtint.Interruptible.Table.Rehash.{
  Walk, Walk-frame, key, key-payload, push_all, push_all-append, has-push_all, Moved, Moves, Apart,
  move_chain-Moves,
}

-- The objects in the `r` chains from `i` on.
unfoldable pub span : ℕ → ℕ → Chains → List Ptr
span zero i old = []
span (suc r) i old = old i ++ span r (i + 1) old

pub has-span :
    (r i : ℕ) (old : Chains) (j : ℕ) (q : Ptr) → i ≤ j → j < i + r → q ∈ old j → q ∈ span r i old
unfolding span
has-span zero i old j q lo hi inside = absurd (omega arith)
has-span (suc r) i old j q lo hi inside = rw has-append (elim (Bool-cases (i == j)) [
  | inl e ↦ ground arith
  | inr e ↦ ground (arith, has-span r (i + 1) old j q)
])

pub span-has :
    (r i : ℕ) (old : Chains) (q : Ptr)
    → q ∈ span r i old
    → (j : ℕ) × (i ≤ j) × (j < i + r) × (q ∈ old j)
unfolding span
span-has zero i old q inside = absurd (cc)
span-has (suc r) i old q inside = elim (Bool-cases (has q (old i))) [
  | inl here ↦ (i, omega arith, omega arith, here)
  | inr not_here ↦
      let later : q ∈ span r (i + 1) old =
        ground (arith, has-append q (old i) (span r (i + 1) old)) in
      let (j, lo, hi, inside') = span-has r (i + 1) old q later in
      (j, omega arith, omega arith, inside')
]

zero_end : (i : ℕ) → i + 0 ≡ i
zero_end i = omega arith

next : (i : ℕ) → i + 1 ≡ suc i
next i = omega arith

regroup : (i r : ℕ) → i + suc r ≡ i + 1 + r
regroup i r = omega arith

pub length-span : (r i : ℕ) (old : Chains) → total (i + r) old ≡ total i old + length (span r i old)
unfolding span total
length-span zero i old = omega (arith, ap (λ k. total k old) (zero_end i))
length-span (suc r) i old =
    let here : total (i + 1) old ≡ total (suc i) old = ap (λ k. total k old) (next i) in
    let there : total (i + suc r) old ≡ total (i + 1 + r) old =
      ap (λ k. total k old) (regroup i r) in
    omega
      (arith, here, there, length-span r (i + 1) old, length-append (old i) (span r (i + 1) old))

-- What the outer loop needs of the old buckets `i` to `i + r - 1`.
pub record OldChains (s : Store) (a : BucketList) (fuel r i : ℕ) (old : Chains) : Type 0 where
  pub found : s.array s.interruptible_bucket_list ≡ some a
  pub fits : i + r ≤ a.size
  pub walks : (j : ℕ) → i ≤ j → j < i + r → Walk s.object (a.bucket j).first_interruptible (old j)
  pub short : (j : ℕ) → i ≤ j → j < i + r → length (old j) < fuel
  pub apart :
      (j k : ℕ) (q : Ptr) → i ≤ j → j < i + r → i ≤ k → k < i + r → q ∈ old j → q ∈ old k → j ≡ k

module _ {s s1 : Store} {a : BucketList} {fuel r i list n : ℕ} {chain old : Chains}
    (ready : OldChains s a fuel (suc r) i old) (elsewhere : s.interruptible_bucket_list ≢ list)
    (apart : Apart n chain (span (suc r) i old)) (moved : Moved s s1 list n chain (old i)) where
  out_of_first : (j : ℕ) (q : Ptr) → i < j → j < i + suc r → q ∈ old j → q ∉ old i
  out_of_first j q lo hi inside = elim (Bool-cases (has q (old i))) [
    | inl also ↦
        absurd (
          omega (arith, ready.apart i j q (omega arith) (omega arith) (omega arith) hi also inside))
    | inr e ↦ e
  ]

  -- The chains that are left are as they were.
  left_alone : (j : ℕ) (q : Ptr) → i < j → j < i + suc r → q ∈ old j → s1.object q ≡ s.object q
  left_alone j q lo hi inside =
      moved.others q (out_of_first j q lo hi inside)
        (apart q (has-span (suc r) i old j q (omega arith) hi inside))

  OldChains-next : OldChains s1 a fuel r (i + 1) old
  OldChains-next = record {
    found =
        moved.arrays _ (λ e. elsewhere (sym moved.bucket_list ∙ e))
        ∙ ap s.array moved.bucket_list
        ∙ ready.found;
    fits = omega (arith, ready.fits);
    walks = λ j lo hi.
        Walk-frame (λ q inside. left_alone j q (omega arith) (omega arith) inside)
          (ready.walks j (omega arith) (omega arith));
    short = λ j lo hi. ready.short j (omega arith) (omega arith);
    apart = λ j k q lo hi lo' hi' in_j in_k.
        ready.apart j k q (omega arith) (omega arith) (omega arith) (omega arith) in_j in_k;
  }

  Apart-next : (k : Ptr → ℕ) → Apart n (push_all k n chain (old i)) (span r (i + 1) old)
  Apart-next k q inside b lt =
      let (j, lo, hi, in_j) = span-has r (i + 1) old q inside in
      let absent = apart q (has-span (suc r) i old j q (omega arith) (omega arith) in_j) b lt in
      rw (has-push_all, absent, out_of_first j q (omega arith) (omega arith) in_j) refl

Moved-append :
    {s s1 s2 : Store} {list n : ℕ} {chain : Chains} {xs ys : List Ptr} (k : Ptr → ℕ)
    → Moved s s1 list n chain xs
    → Moved s1 s2 list n (push_all k n chain xs) ys
    → Moved s s2 list n chain (xs ++ ys)
Moved-append {n} {chain} {xs} {ys} k a b = record {
  others = λ q out absent.
      let out_xs : q ∉ xs = ground (arith, has-append q xs ys) in
      let out_ys : q ∉ ys = ground (arith, has-append q xs ys) in
      b.others q out_ys (λ j lt. rw (has-push_all, absent j lt, out_xs) refl)
      ∙ a.others q out_xs absent;
  payloads = λ q. b.payloads q ∙ a.payloads q;
  arrays = λ l ne. b.arrays l ne ∙ a.arrays l ne;
  counter = b.counter ∙ a.counter;
  buckets = b.buckets ∙ a.buckets;
  bucket_list = b.bucket_list ∙ a.bucket_list;
}

chains_append :
    {k k1 : Ptr → ℕ} (n : ℕ) (chain : Chains) (xs ys : List Ptr)
    → k1 ≡ k
    → push_all k1 n (push_all k n chain xs) ys ≡ push_all k n chain (xs ++ ys)
chains_append {k} n chain xs ys e = rw e (sym (push_all-append k n chain xs ys))

move_all-suc :
    (s s1 s2 : Store) (a : BucketList) (fuel r i n list : ℕ)
    → s.array s.interruptible_bucket_list ≡ some a
    → i < a.size
    → move_chain fuel (a.bucket i).first_interruptible n list s ≡ ok tt s1
    → move_all fuel r (i + 1) n list s1 ≡ ok tt s2
    → move_all fuel (suc r) i n list s ≡ ok tt s2
unfolding move_all
move_all-suc s s1 s2 a fuel r i n list found lt run1 run2 = ground arith

module _ {list n : ℕ} (pos_n : 0 < n) where
  -- The outer loop adds the objects of all the old chains, bucket by bucket.
  pub move_all-Moves :
      (s : Store) (a : BucketList) (fuel r i : ℕ) {chain old : Chains}
      → Table s list n chain
      → OldChains s a fuel r i old
      → s.interruptible_bucket_list ≢ list
      → Apart n chain (span r i old)
      → Moves (move_all fuel r i n list) s list n chain (span r i old)
  unfolding move_all push_all span
  move_all-Moves s a fuel zero i t ready elsewhere apart = (
    s,
    refl,
    t,
    record {
      others = λ q out absent. refl;
      payloads = λ q. refl;
      arrays = λ l ne. refl;
      counter = refl;
      buckets = refl;
      bucket_list = refl;
    },
  )
  move_all-Moves s a fuel (suc r) i {chain} {old} t ready elsewhere apart =
      let (s1, run1, t1, m1) =
        move_chain-Moves pos_n s fuel t (ready.walks i (omega arith) (omega arith))
          (λ q inside. apart q (has-span (suc r) i old i q (omega arith) (omega arith) inside))
          (ready.short i (omega arith) (omega arith)) in
      let (s2, run2, t2, m2) =
        move_all-Moves s1 a fuel r (i + 1) t1 (OldChains-next ready elsewhere apart m1)
          (λ e. elsewhere (sym m1.bucket_list ∙ e))
          (Apart-next ready elsewhere apart m1 (key s.object)) in
      (
        s2,
        move_all-suc s s1 s2 a fuel r i n list ready.found (omega (arith, ready.fits)) run1 run2,
        subst (Table s2 list n)
            (chains_append n chain (old i) (span r (i + 1) old)
              (key-payload s.object s1.object m1.payloads))
            t2,
        Moved-append (key s.object) m1 m2,
      )
