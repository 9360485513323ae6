-- ===== src/Interruptible/Table/Grow.antt =====
-- The first half of assureCreatedMtInterruptible's critical section: the array may be replaced.
use lua_mtint.Base.{
  ℕ, ◌*◌, ◌<◌, ◌≡◌, ◌≢◌, ◌↔◌, refl, true, false, ◌&&◌, none, arith, ◌==◌, if◌then◌else◌, Bool-cases,
  ◌⊎◌, inl, inr, ◌∙◌, eq_of_==,
}
use lua_mtint.Interruptible.Store.{Ptr, null, Store, ok, when}
use lua_mtint.Interruptible.Buckets.{rebuild, should_grow}
use lua_mtint.Interruptible.Table.{Chains, payload}
use lua_mtint.Interruptible.Table.Valid.{total, Live, IsValid, IsFullTable, full_of_pos}
use lua_mtint.Interruptible.Table.Rebuild.{rebuilt, Rebuilt, rebuild_lem, Live-rebuilt}

-- `calloc` returned NULL or an address that holds no array.
abbrev pub IsCalloced : Store → Ptr → Type 0
IsCalloced s fresh = fresh ≢ null → s.array fresh ≡ none

-- The same objects, perhaps in other chains.
pub record SameLive (s t : Store) (chain chain' : Chains) : Type 0 where
  pub valid : IsValid t chain'
  pub live :
      (q : Ptr) → Live s.interruptible_buckets chain q ↔ Live t.interruptible_buckets chain' q
  pub counter : t.interruptible_counter ≡ s.interruptible_counter
  pub payloads : (q : Ptr) → payload (t.object q) ≡ payload (s.object q)
  pub others : (q : Ptr) → ¬ (Live s.interruptible_buckets chain q) → t.object q ≡ s.object q

abbrev pub new_size : Store → ℕ
new_size s = if s.interruptible_buckets == 0 then 64 else 2 * s.interruptible_buckets

-- Without an array there is always reason to make one.
should_grow-empty :
    (s : Store) → s.interruptible_buckets ≡ 0 → s.interruptible_counter ≡ 0 → should_grow s ≡ true
unfolding should_grow
should_grow-empty s none_yet no_objects = rw (none_yet, no_objects) refl

pub total_zero : (chain : Chains) → total 0 chain ≡ 0
unfolding total
total_zero chain = refl

module _ (s : Store) {chain : Chains} (v : IsValid s chain) where
  pub SameLive-refl : SameLive s s chain chain
  SameLive-refl = record {
    valid = v;
    live = λ q. (λ h. h, λ h. h);
    counter = refl;
    payloads = λ q. refl;
    others = λ q dead. refl;
  }

  pub SameLive-Rebuilt :
      {t : Store} {fresh n : ℕ}
      → 0 < n
      → Rebuilt s t chain fresh n
      → SameLive s t chain (rebuilt s chain n)
  SameLive-Rebuilt {n} pos_n r = record {
    valid = r.valid;
    live = λ q. rw r.buckets (Live-rebuilt s chain n q pos_n);
    counter = r.counter;
    payloads = r.payloads;
    others = r.others;
  }

  -- Either there is an array afterwards, or none could be had.
  abbrev pub Grows : Ptr → Type 0
  Grows fresh =
      (t : Store) × (chain' : Chains) × (when (should_grow s) (rebuild fresh (new_size s)) s
        ≡ ok tt t)
      × SameLive s t chain chain'
      × ((IsFullTable t chain'
            × ((should_grow s && fresh == null && s.interruptible_buckets == 0) ≡ false))
          ⊎ ((fresh ≡ null) × (s.interruptible_buckets ≡ 0) × (should_grow s ≡ true)))

  kept_full :
      (fresh : Ptr)
      → 0 < s.interruptible_buckets
      → when (should_grow s) (rebuild fresh (new_size s)) s ≡ ok tt s
      → Grows fresh
  kept_full fresh pos_n run =
      (s, chain, run, SameLive-refl, inl (full_of_pos s v pos_n, ground arith))

  grow_new :
      (fresh : Ptr)
      → fresh ≢ null
      → s.array fresh ≡ none
      → should_grow s ≡ true
      → 0 < new_size s
      → Grows fresh
  grow_new fresh ne unused yes' pos_n =
      let (t, run, r) = rebuild_lem s v fresh (new_size s) ne unused pos_n in
      (
        t,
        rebuilt s chain (new_size s),
        rw yes' run,
        SameLive-Rebuilt pos_n r,
        inl (full_of_pos t r.valid (rw r.buckets pos_n), ground arith),
      )

  grow_none : should_grow s ≡ true → Grows null
  unfolding rebuild
  grow_none yes' = elim (Bool-cases (s.interruptible_buckets == 0)) [
    | inl empty ↦ (s, chain, ground arith, SameLive-refl, inr (refl, ground arith, yes'))
    | inr some' ↦ kept_full null (ground arith) (ground arith)
  ]

  not_growing : should_grow s ≡ false → 0 < s.interruptible_buckets
  not_growing no' = elim (Bool-cases (s.interruptible_buckets == 0)) [
    | inl empty ↦
        absurd (cc (should_grow-empty s (eq_of_== _ _ empty) (no_objects (eq_of_== _ _ empty))))
    | inr some' ↦ ground arith
  ]
    where
      no_objects : s.interruptible_buckets ≡ 0 → s.interruptible_counter ≡ 0
      no_objects e = v.counted ∙ rw e (total_zero chain)

  pub grow_lem : (fresh : Ptr) → IsCalloced s fresh → Grows fresh
  grow_lem fresh calloced = elim (Bool-cases (should_grow s)) [
    | inr no' ↦ kept_full fresh (not_growing no') (rw no' refl)
    | inl yes' ↦ elim (Bool-cases (fresh == null)) [
      | inl e ↦ rw (eq_of_== fresh null e) (grow_none yes')
      | inr ne ↦ grow_new fresh (ground arith) (calloced (ground arith)) yes' (ground arith)
    ]
  ]
