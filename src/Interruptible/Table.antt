-- ===== src/Interruptible/Table.antt =====
-- The hash table as a whole: one chain of objects for each bucket.
pub mod Insert
pub mod Valid
pub mod Find
pub mod Rehash
pub mod MoveAll
pub mod Rebuild
pub mod Grow
pub mod Register
pub mod Unlink
pub mod UnlinkRun
pub mod Shrink
pub mod Free
use lua_mtint.Base.{
  ℕ, zero, suc, ◌+◌, ◌%◌, ◌<◌, ◌≤◌, ◌≡◌, ◌≢◌, refl, ◌∙◌, true, false, ◌||◌, Bool, Option, none,
  some, List, [], ◌∷◌, arith, ◌==◌, ◌∈◌, ◌∉◌, Bool-cases, inl, inr, ◌∙◌, length, has, List-cases,
  subst, ==_refl, eq_of_==, ltb, if◌then◌else◌,
}
use lua_mtint.Base.Int.{ℤ, pos, negsuc, pos_part}
use lua_mtint.Interruptible.Store.{
  Ptr, null, Slot, first_of, next_of, MtInterruptible, BucketList, InterruptibleBucket, Objects,
  Store, ok, update, Cmd, modify, load, load_bucket, store_bucket,
}
use lua_mtint.Interruptible.Chain.{
  IsNat, Link, Seg, nil, cons, Link-frame, Seg-frame, Seg-home, Seg-reslot, Seg-nil, Seg-first,
}
use lua_mtint.Interruptible.Buckets.{bucket_index, to_buckets}

abbrev pub Chains : Type 0
Chains = ℕ → List Ptr

-- The array at `list` has `n` buckets, of which bucket `i` links the objects of `chain i`.
pub record Table (s : Store) (list : Ptr) (n : ℕ) (chain : Chains) : Type 0 where
  pub buckets : BucketList
  pub found : s.array list ≡ some buckets
  pub size : buckets.size ≡ n
  pub seg :
      (i : ℕ)
      → i < n
      → Seg s.object n i (first_of list i) (buckets.bucket i).first_interruptible (chain i)

abbrev pub Absent : ℕ → Chains → Ptr → Type 0
Absent n chain p = (i : ℕ) → i < n → p ∉ chain i

-- What an object holds besides its links.
abbrev pub payload : Option MtInterruptible → Option (ℤ × ℕ × Bool × Ptr)
payload none = none
payload (some o) = some (o.id, o.used, o.initialized, o.l2)

pub bucket_index-pos :
    (id : ℤ) (n : ℕ) (s : Store) → 0 < n → IsNat id → bucket_index id n s ≡ ok (pos_part id % n) s
unfolding bucket_index
bucket_index-pos (pos a) zero s h k = absurd (omega arith)
bucket_index-pos (pos a) (suc n) s h k = refl
bucket_index-pos (negsuc a) n s h k = cc

module _ {s : Store} {list n : ℕ} {chain : Chains} (t : Table s list n chain) where
  -- No object is in two chains, since its id determines its bucket.
  pub Table-apart : (i j : ℕ) (q : Ptr) → i < n → j < n → q ∈ chain i → q ∈ chain j → i ≡ j
  Table-apart i j q li lj in_i in_j =
      let (o, at_i, _, home_i, _) = Seg-home q (t.seg i li) in_i in
      let (o', at_j, _, home_j, _) = Seg-home q (t.seg j lj) in_j in
      let same : o ≡ o' = cc in ground (arith, same)

-- A table lives on under writes elsewhere.
pub Table-frame :
    {s s' : Store} {list n : ℕ} {chain : Chains}
    → ((q : Ptr) → s'.object q ≡ s.object q)
    → s'.array list ≡ s.array list
    → Table s list n chain
    → Table s' list n chain
Table-frame same kept t = record {
  buckets = t.buckets;
  found = kept ∙ t.found;
  size = t.size;
  seg = λ i lt. Seg-frame (λ q inside. same q) (t.seg i lt);
}

-- What toBuckets leaves alone.
pub record Spared (s s' : Store) (list n : ℕ) (chain : Chains) (p : Ptr) : Type 0 where
  pub others : (q : Ptr) → q ≢ p → Absent n chain q → s'.object q ≡ s.object q
  pub payloads : (q : Ptr) → payload (s'.object q) ≡ payload (s.object q)
  pub arrays : (l : Ptr) → l ≢ list → s'.array l ≡ s.array l
  pub counter : s'.interruptible_counter ≡ s.interruptible_counter
  pub buckets : s'.interruptible_buckets ≡ s.interruptible_buckets
  pub bucket_list : s'.interruptible_bucket_list ≡ s.interruptible_bucket_list

-- One chain gets `p` in front.
abbrev pub push_chain : Chains → ℕ → Ptr → Chains
push_chain chain i p = update chain i (p ∷ chain i)

-- The bucket of an object among `n`.
abbrev pub slot_no : MtInterruptible → ℕ → ℕ
slot_no o n = pos_part o.id % n
