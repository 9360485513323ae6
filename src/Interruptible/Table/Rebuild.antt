-- ===== src/Interruptible/Table/Rebuild.antt =====
-- newBuckets with the array that `calloc` returned for it: the same objects, in other chains.
use lua_mtint.Base.{
  ℕ, zero, suc, ◌+◌, ◌%◌, ◌<◌, ◌≡◌, ◌≢◌, ◌↔◌, refl, none, some, [], arith, ◌∈◌, ◌∉◌, has, length,
  Bool-cases, inl, inr, ◌∙◌, sym, ap, ==_refl,
}
use lua_mtint.Interruptible.Store.{Ptr, null, Store, ok, BucketList, update}
use lua_mtint.Interruptible.Chain.{nil}
use lua_mtint.Interruptible.Buckets.{move_all, new_buckets, rebuild}
use lua_mtint.Interruptible.Table.{Chains, Table, Table-apart, Table-frame, payload}
use lua_mtint.Interruptible.Table.Valid.{
  total, Live, IsValid, IsEmptyTable, IsFullTable, length-le-total,
}
use lua_mtint.Interruptible.Table.Rehash.{
  Walk-Seg, key, push_all, has-push_all, total-push_all, Moves,
}
use lua_mtint.Interruptible.Table.MoveAll.{
  span, has-span, span-has, length-span, OldChains, move_all-Moves,
}

-- The chains after a rebuild for `n` buckets.
pub rebuilt : Store → Chains → ℕ → Chains
rebuilt s chain n = push_all (key s.object) n (λ _. []) (span s.interruptible_buckets 0 chain)

module _ (s : Store) {chain : Chains} (v : IsValid s chain) (fresh n : ℕ) (ne_null : fresh ≢ null)
    (unused : s.array fresh ≡ none) (pos_n : 0 < n) where
  -- After `calloc`, and after `bucket_usage = 0`.
  abbrev callocated : Store
  callocated = record s {
    array = update s.array fresh (
        some (record { size = n; bucket = λ _. record { count = 0; first_interruptible = null } }));
    bucket_usage = 0;
  }

  callocated-Table : Table callocated fresh n (λ _. [])
  callocated-Table = record {
    buckets = record { size = n; bucket = λ _. record { count = 0; first_interruptible = null } };
    found = ground arith;
    size = refl;
    seg = λ i lt. nil refl;
  }

  module _ (full : IsFullTable s chain) where
    elsewhere : s.interruptible_bucket_list ≢ fresh
    elsewhere e = ground (arith, full.2.found)

    ready :
        OldChains callocated full.2.buckets
          (s.interruptible_counter + 1)
          s.interruptible_buckets
          0
          chain
    ready = record {
      found = ground (arith, full.2.found, elsewhere);
      fits = omega (arith, full.2.size);
      walks = λ j lo hi. Walk-Seg (full.2.seg j (omega arith));
      short = λ j lo hi.
          omega (arith, v.counted, length-le-total s.interruptible_buckets chain j (omega arith));
      apart = λ j k q lo hi lo' hi' in_j in_k.
          Table-apart full.2 j k q (omega arith) (omega arith) in_j in_k;
    }

    moved :
        Moves
          (move_all (s.interruptible_counter + 1) s.interruptible_buckets 0 n fresh)
          callocated
          fresh
          n
          (λ _. [])
          (span s.interruptible_buckets 0 chain)
    moved =
        move_all-Moves pos_n callocated full.2.buckets (s.interruptible_counter + 1)
          s.interruptible_buckets 0 callocated-Table ready elsewhere (λ q inside i lt. refl)

rebuild-empty :
    (s : Store) (fresh n : ℕ)
    → fresh ≢ null
    → s.interruptible_bucket_list ≡ null
    → rebuild fresh n s
      ≡ ok tt (record s {
        array = update s.array fresh (
            some (record {
              size = n;
              bucket = λ _. record { count = 0; first_interruptible = null };
            }));
        bucket_usage = 0;
        interruptible_buckets = n;
        interruptible_bucket_list = fresh;
      })
unfolding rebuild new_buckets
rebuild-empty s fresh n ne e = ground arith

rebuild-full :
    (s s2 : Store) (a : BucketList) (fresh n : ℕ)
    → fresh ≢ null
    → s.interruptible_bucket_list ≢ null
    → move_all (s.interruptible_counter + 1) s.interruptible_buckets 0 n fresh (record s {
      array = update s.array fresh (
          some
            (record { size = n; bucket = λ _. record { count = 0; first_interruptible = null } }));
      bucket_usage = 0;
    })
      ≡ ok tt s2
    → s2.array s.interruptible_bucket_list ≡ some a
    → rebuild fresh n s
      ≡ ok tt (record s2 {
        array = update s2.array s.interruptible_bucket_list none;
        interruptible_buckets = n;
        interruptible_bucket_list = fresh;
      })
unfolding rebuild new_buckets
rebuild-full s s2 a fresh n ne list run found = ground arith

total-nil : (n : ℕ) → total n (λ _. []) ≡ 0
unfolding total
total-nil zero = refl
total-nil (suc n) = omega (arith, total-nil n)

total-span : (n : ℕ) (chain : Chains) → total n chain ≡ length (span n 0 chain)
unfolding total
total-span n chain = ap (λ k. total k chain) (from_zero n) ∙ length-span n 0 chain ∙ omega arith
  where
    from_zero : (n : ℕ) → n ≡ 0 + n
    from_zero n = omega arith

pub total-rebuilt :
    (s : Store) (chain : Chains) (n : ℕ)
    → 0 < n
    → total n (rebuilt s chain n) ≡ total s.interruptible_buckets chain
unfolding rebuilt
total-rebuilt s chain n pos_n = omega (
  arith,
  total-push_all (key s.object) n (λ _. []) (span s.interruptible_buckets 0 chain) pos_n,
  total-nil n,
  total-span s.interruptible_buckets chain,
)

-- A rebuild keeps the set of live objects.
pub Live-rebuilt :
    (s : Store) (chain : Chains) (n : ℕ) (q : Ptr)
    → 0 < n
    → Live s.interruptible_buckets chain q ↔ Live n (rebuilt s chain n) q
unfolding rebuilt
Live-rebuilt s chain n q pos_n = (there, back)
  where
    there : Live s.interruptible_buckets chain q → Live n (rebuilt s chain n) q
    there (j, lt, inside) =
        let listed =
          has-span s.interruptible_buckets 0 chain j q (omega arith) (omega arith) inside in
        (key s.object q % n, omega arith, rw (has-push_all, listed) (==_refl (key s.object q % n)))

    back : Live n (rebuilt s chain n) q → Live s.interruptible_buckets chain q
    back (j, lt, inside) =
        let listed : q ∈ span s.interruptible_buckets 0 chain = ground (
          arith,
          has-push_all (key s.object) n (λ _. []) (span s.interruptible_buckets 0 chain) j q,
        ) in
        let (i, lo, hi, inside') = span-has s.interruptible_buckets 0 chain q listed in
        (i, omega arith, inside')

-- What newBuckets establishes.
pub record Rebuilt (s s' : Store) (chain : Chains) (fresh n : ℕ) : Type 0 where
  pub valid : IsValid s' (rebuilt s chain n)
  pub buckets : s'.interruptible_buckets ≡ n
  pub bucket_list : s'.interruptible_bucket_list ≡ fresh
  pub counter : s'.interruptible_counter ≡ s.interruptible_counter
  pub payloads : (q : Ptr) → payload (s'.object q) ≡ payload (s.object q)
  pub others : (q : Ptr) → ¬ (Live s.interruptible_buckets chain q) → s'.object q ≡ s.object q

module _ (s : Store) {chain : Chains} (v : IsValid s chain) (fresh n : ℕ) (ne_null : fresh ≢ null)
    (unused : s.array fresh ≡ none) (pos_n : 0 < n) where
  abbrev pub Rebuilds : Type 0
  Rebuilds = (s' : Store) × (rebuild fresh n s ≡ ok tt s') × Rebuilt s s' chain fresh n

  rebuilt-empty : s.interruptible_buckets ≡ 0 → rebuilt s chain n ≡ (λ _. [])
  unfolding rebuilt span push_all
  rebuilt-empty e = rw e

  from_empty : IsEmptyTable s → Rebuilds
  from_empty (no_list, no_buckets) = (
    _,
    rebuild-empty s fresh n ne_null no_list,
    record {
      valid = record {
        table = inr (
          ne_null,
          pos_n,
          rw (rebuilt-empty no_buckets)
              (Table-frame (λ q. refl) refl (callocated-Table s v fresh n ne_null unused pos_n)),
        );
        counted = v.counted ∙ sym (total-rebuilt s chain n pos_n);
      };
      buckets = refl;
      bucket_list = refl;
      counter = refl;
      payloads = λ q. refl;
      others = λ q dead. refl;
    },
  )

  not_listed :
      (q : Ptr)
      → ¬ (Live s.interruptible_buckets chain q)
      → q ∉ span s.interruptible_buckets 0 chain
  not_listed q dead = elim (Bool-cases (has q (span s.interruptible_buckets 0 chain))) [
    | inl listed ↦
        let (j, lo, hi, inside) = span-has s.interruptible_buckets 0 chain q listed in
        absurd (dead (j, omega arith, inside))
    | inr e ↦ e
  ]

  from_full : IsFullTable s chain → Rebuilds
  unfolding rebuilt
  from_full full =
      let (s2, run, t, m) = moved s v fresh n ne_null unused pos_n full in
      (
        _,
        rebuild-full s s2 full.2.buckets fresh n ne_null full.0 run (
            m.arrays _ (elsewhere s v fresh n ne_null unused pos_n full)
            ∙ (ready s v fresh n ne_null unused pos_n full).found),
        record {
          valid = record {
            table = inr (
              ne_null,
              pos_n,
              Table-frame (λ q. refl)
                  (ground (arith, elsewhere s v fresh n ne_null unused pos_n full)) t,
            );
            counted = m.counter ∙ v.counted ∙ sym (total-rebuilt s chain n pos_n);
          };
          buckets = refl;
          bucket_list = refl;
          counter = m.counter;
          payloads = m.payloads;
          others = λ q dead. m.others q (not_listed q dead) (λ i lt. refl);
        },
      )

  -- newBuckets on a valid table, with a new array of at least one bucket, neither faults nor runs out of fuel. The table is valid again, with
  -- `n` buckets in the new array, and holds the same objects.
  pub rebuild_lem : Rebuilds
  rebuild_lem = elim v.table [ inl empty ↦ from_empty empty | inr full ↦ from_full full ]
