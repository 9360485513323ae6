-- ===== src/Interruptible/Table/Rehash.antt =====
-- The two loops of newBuckets: objects that are linked by `nextInterruptible` go to a new table.
use lua_mtint.Base.{
  ℕ, zero, suc, ◌+◌, ◌%◌, ◌<◌, ◌≡◌, ◌≢◌, refl, ◌||◌, ◌&&◌, none, some, List, [], ◌∷◌, ◌++◌, arith,
  ◌==◌, ◌∈◌, ◌∉◌, has, length, ◌∙◌, fun_ext, subst,
}
use lua_mtint.Base.Int.{pos_part}
use lua_mtint.Interruptible.Store.{Ptr, null, Slot, Objects, Store, ok, Cmd, MtInterruptible}
use lua_mtint.Interruptible.Chain.{IsNat, Seg, nil, cons}
use lua_mtint.Interruptible.Buckets.{to_buckets, move_chain}
use lua_mtint.Interruptible.Table.{Chains, Table, Absent, Spared, payload, push_chain, slot_no}
use lua_mtint.Interruptible.Table.Insert.{to_buckets_lem}
use lua_mtint.Interruptible.Table.Valid.{total, total-push_chain}

-- From `p` the `nextInterruptible` fields lead through `xs`; nothing is said of the back links.
pub data Walk (m : Objects) : Ptr → List Ptr → Type 0 where
  stop : {p : Ptr} → p ≡ null → Walk m p []
  hop :
      {p q : Ptr} {o : MtInterruptible} {xs : List Ptr}
      → p ≡ q
      → q ≢ null
      → m q ≡ some o
      → IsNat o.id
      → q ∉ xs
      → Walk m o.next_interruptible xs
      → Walk m p (q ∷ xs)

pub Walk-Seg :
    {m : Objects} {n i : ℕ} {slot : Slot} {p : Ptr} {xs : List Ptr}
    → Seg m n i slot p xs
    → Walk m p xs
Walk-Seg (nil e) = stop e
Walk-Seg (cons e l out rest) = hop e l.ne_null l.holds l.is_nat out (Walk-Seg rest)

pub Walk-frame :
    {m m' : Objects} {p : Ptr} {xs : List Ptr}
    → ((q : Ptr) → q ∈ xs → m' q ≡ m q)
    → Walk m p xs
    → Walk m' p xs
Walk-frame same (stop e) = stop e
Walk-frame same (hop {q} e ne at nat out rest) =
    hop e ne (same q (ground arith) ∙ at) nat out (Walk-frame (λ a h. same a (ground arith)) rest)

-- The number by which an object is placed.
abbrev pub key : Objects → Ptr → ℕ
key m q = elim (m q) [ none ↦ 0 | some o ↦ pos_part o.id ]

key_at : {q : Ptr} {o : MtInterruptible} (m : Objects) → m q ≡ some o → key m q ≡ pos_part o.id
key_at m at = ground arith

pub key-payload : (m m' : Objects) → ((q : Ptr) → payload (m' q) ≡ payload (m q)) → key m' ≡ key m
key-payload m m' same = fun_ext λ q. ground (arith, same q)

-- The chains after the objects `xs` have been added in order.
unfoldable pub push_all : (Ptr → ℕ) → ℕ → Chains → List Ptr → Chains
push_all k n chain [] = chain
push_all k n chain (q ∷ xs) = push_all k n (push_chain chain (k q % n) q) xs

pub push_all-append :
    (k : Ptr → ℕ) (n : ℕ) (chain : Chains) (xs ys : List Ptr)
    → push_all k n chain (xs ++ ys) ≡ push_all k n (push_all k n chain xs) ys
unfolding push_all
push_all-append k n chain [] ys = refl
push_all-append k n chain (q ∷ xs) ys = push_all-append k n (push_chain chain (k q % n) q) xs ys

-- An object is in a chain afterwards if it was, or if it was added and belongs there.
pub has-push_all :
    (k : Ptr → ℕ) (n : ℕ) (chain : Chains) (xs : List Ptr) (i : ℕ) (q : Ptr)
    → has q (push_all k n chain xs i) ≡ (has q (chain i) || (has q xs && (k q % n == i)))
unfolding push_all
has-push_all k n chain [] i q = ground arith
has-push_all k n chain (x ∷ xs) i q =
    ground (arith, has-push_all k n (push_chain chain (k x % n) x) xs i q)

pub total-push_all :
    (k : Ptr → ℕ) (n : ℕ) (chain : Chains) (xs : List Ptr)
    → 0 < n
    → total n (push_all k n chain xs) ≡ total n chain + length xs
unfolding push_all
total-push_all k n chain [] h = omega arith
total-push_all k n chain (x ∷ xs) h = omega (
  arith,
  total-push_all k n (push_chain chain (k x % n) x) xs h,
  total-push_chain n chain (k x % n) x (omega arith),
)

-- What the loops leave alone.
pub record Moved (s s' : Store) (list n : ℕ) (chain : Chains) (xs : List Ptr) : Type 0 where
  pub others : (q : Ptr) → q ∉ xs → Absent n chain q → s'.object q ≡ s.object q
  pub payloads : (q : Ptr) → payload (s'.object q) ≡ payload (s.object q)
  pub arrays : (l : Ptr) → l ≢ list → s'.array l ≡ s.array l
  pub counter : s'.interruptible_counter ≡ s.interruptible_counter
  pub buckets : s'.interruptible_buckets ≡ s.interruptible_buckets
  pub bucket_list : s'.interruptible_bucket_list ≡ s.interruptible_bucket_list

abbrev pub Moves : Cmd (Unit {0}) → Store → (list n : ℕ) → Chains → List Ptr → Type 0
Moves c s list n chain xs =
    (s' : Store) × (c s ≡ ok tt s')
    × Table s' list n (push_all (key s.object) n chain xs)
    × Moved s s' list n chain xs

abbrev pub Apart : ℕ → Chains → List Ptr → Type 0
Apart n chain xs = (q : Ptr) → q ∈ xs → Absent n chain q

-- One turn of the inner loop, then the others.
Moved-trans :
    {s s1 s2 : Store} {list n : ℕ} {chain : Chains} {q : Ptr} {xs : List Ptr} (i : ℕ)
    → Spared s s1 list n chain q
    → Moved s1 s2 list n (push_chain chain i q) xs
    → Moved s s2 list n chain (q ∷ xs)
Moved-trans {n} {chain} {q} i a b = record {
  others = λ z out absent.
      b.others z (ground arith) (λ j lt. ground (arith, absent j lt))
      ∙ a.others z (ground arith) absent;
  payloads = λ z. b.payloads z ∙ a.payloads z;
  arrays = λ l ne. b.arrays l ne ∙ a.arrays l ne;
  counter = b.counter ∙ a.counter;
  buckets = b.buckets ∙ a.buckets;
  bucket_list = b.bucket_list ∙ a.bucket_list;
}

pub chains_step :
    {k k1 : Ptr → ℕ} {q : Ptr} (n : ℕ) (chain : Chains) (o : MtInterruptible) (xs : List Ptr)
    → k1 ≡ k
    → k q ≡ pos_part o.id
    → push_all k1 n (push_chain chain (slot_no o n) q) xs ≡ push_all k n chain (q ∷ xs)
unfolding push_all
chains_step n chain o xs same here = rw (same, here)

move_chain-hop :
    {p q : Ptr} {o : MtInterruptible} (list n : ℕ) (s s1 s2 : Store) (k : ℕ)
    → p ≡ q
    → q ≢ null
    → s.object q ≡ some o
    → to_buckets q n list s ≡ ok tt s1
    → move_chain k o.next_interruptible n list s1 ≡ ok tt s2
    → move_chain (suc k) p n list s ≡ ok tt s2
unfolding move_chain
move_chain-hop list n s s1 s2 k e ne at run1 run2 = ground arith

module _ {list n : ℕ} (pos_n : 0 < n) where
  -- The inner loop adds the objects of one old chain.
  pub move_chain-Moves :
      (s : Store) (fuel : ℕ) {chain : Chains} {p : Ptr} {xs : List Ptr}
      → Table s list n chain
      → Walk s.object p xs
      → Apart n chain xs
      → length xs < fuel
      → Moves (move_chain fuel p n list) s list n chain xs
  unfolding move_chain push_all
  move_chain-Moves s zero t w apart h = absurd (omega arith)
  move_chain-Moves s (suc k) t (stop e) apart h = (
    s,
    ground arith,
    t,
    record {
      others = λ q out absent. refl;
      payloads = λ q. refl;
      arrays = λ l ne. refl;
      counter = refl;
      buckets = refl;
      bucket_list = refl;
    },
  )
  move_chain-Moves s (suc k) {chain} t (hop {q} {o} {xs} e ne at nat out rest) apart h =
      let (s1, run1, t1, sp1) = to_buckets_lem s t pos_n ne at nat (apart q (ground arith)) in
      let rest' : Walk s1.object o.next_interruptible xs =
        Walk-frame (λ a inside. sp1.others a (ground arith) (apart a (ground arith))) rest in
      let apart' : Apart n (push_chain chain (slot_no o n) q) xs =
        λ a inside i lt. ground (arith, apart a (ground arith) i lt) in
      let (s2, run2, t2, m2) = move_chain-Moves s1 k t1 rest' apart' (omega arith) in
      let same =
        chains_step n chain o xs (key-payload s.object s1.object sp1.payloads)
          (key_at s.object at) in
      (
        s2,
        move_chain-hop list n s s1 s2 k e ne at run1 run2,
        subst (Table s2 list n) same t2,
        Moved-trans (slot_no o n) sp1 m2,
      )
