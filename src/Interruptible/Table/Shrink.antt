-- ===== src/Interruptible/Table/Shrink.antt =====
-- The end of MtInterruptible_free: the array is given up with the last object, or made smaller.
use lua_mtint.Base.{
  ◌*◌, ℕ, ◌^◌, ◌<◌, ◌≡◌, ◌≢◌, refl, ◌∙◌, Bool, true, false, none, List, [], ◌∷◌, arith, ◌==◌, ◌∈◌,
  length, Bool-cases, inl, inr, eq_of_==, sym,
}
use lua_mtint.Base.Int.{ℤ, pos, pos_part, ltb_ℤ, eqb_ℤ, mul_ℕ, signed32, is_int}
use lua_mtint.Interruptible.Store.{Ptr, null, Store, ok, update, when}
use lua_mtint.Interruptible.Buckets.{rebuild, reset_table, shrink, int_mul, rebuild_double}
use lua_mtint.Interruptible.Table.{Chains}
use lua_mtint.Interruptible.Table.Valid.{total, Live, IsValid, IsFullTable, length-le-total}
use lua_mtint.Interruptible.Table.Rebuild.{rebuilt, rebuild_lem}
use lua_mtint.Interruptible.Table.Grow.{IsCalloced, SameLive, SameLive-refl, SameLive-Rebuilt}

length-pos : (q : Ptr) (xs : List Ptr) → q ∈ xs → 0 < length xs
length-pos q [] h = absurd (cc)
length-pos q (x ∷ xs) h = omega arith

none_live : (n : ℕ) (chain : Chains) → total n chain ≡ 0 → (q : Ptr) → ¬ (Live n chain q)
none_live n chain none_left q (i, lt, inside) =
    omega (arith, length-le-total n chain i lt, length-pos q (chain i) inside)

total_zero : (chain : Chains) → total 0 chain ≡ 0
unfolding total
total_zero chain = refl

module _ (s : Store) {chain : Chains} (v : IsValid s chain)
    (small : s.interruptible_counter * 10 < 2 ^ 31) (full : IsFullTable s chain) (fresh : Ptr)
    (calloced : IsCalloced s fresh) where
  abbrev c : ℤ
  c = signed32 s.interruptible_counter

  abbrev Shrinks : Type 0
  Shrinks =
      (t : Store) × (chain' : Chains) × (shrink fresh c s ≡ ok tt t) × SameLive s t chain chain'

  signed_small : c ≡ pos s.interruptible_counter
  signed_small = ground arith

  reset-run :
      reset_table s
      ≡ ok tt (record s {
        array = update s.array s.interruptible_bucket_list none;
        interruptible_buckets = 0;
        interruptible_bucket_list = null;
        bucket_usage = 0;
      })
  unfolding reset_table
  reset-run = ground (arith, full.0, full.2.found)

  zero_test : s.interruptible_counter ≡ 0 → eqb_ℤ c (pos 0) ≡ true
  zero_test zero_left = ground arith

  last_gone : s.interruptible_counter ≡ 0 → Shrinks
  unfolding shrink
  last_gone zero_left = (
    record s {
      array = update s.array s.interruptible_bucket_list none;
      interruptible_buckets = 0;
      interruptible_bucket_list = null;
      bucket_usage = 0;
    },
    chain,
    rw (zero_test zero_left) reset-run,
    record {
      valid = record { table = inl (refl, refl); counted = zero_left ∙ sym (total_zero chain) };
      live = λ q. (
        λ h. absurd (none_live s.interruptible_buckets chain (sym v.counted ∙ zero_left) q h),
        λ (i, lt, inside). absurd (omega arith),
      );
      counter = refl;
      payloads = λ q. refl;
      others = λ q dead. refl;
    },
  )

  abbrev size : ℕ
  size = pos_part (mul_ℕ c 2)

  abbrev is_sparse : Bool
  is_sparse = ltb_ℤ (mul_ℕ c 10) (pos s.interruptible_buckets)

  abbrev is_large : Bool
  is_large = ltb_ℤ (pos 64) (mul_ℕ c 2)

  -- The products are small enough for an int.
  shrink-when :
      s.interruptible_counter ≢ 0
      → shrink fresh c s ≡ when is_sparse (when is_large (rebuild fresh size)) s
  unfolding shrink int_mul rebuild_double
  shrink-when left = rw not_zero (rw fits_10 (rw fits_2 refl))
    where
      not_zero : eqb_ℤ c (pos 0) ≡ false
      not_zero = rw signed_small (ground arith)

      fits_10 : is_int (mul_ℕ c 10) ≡ true
      fits_10 = rw signed_small (ground arith)

      fits_2 : is_int (mul_ℕ c 2) ≡ true
      fits_2 = rw signed_small (ground arith)

  size_pos : is_large ≡ true → 0 < size
  size_pos e = ground arith

  smaller :
      is_sparse ≡ true → is_large ≡ true → s.interruptible_counter ≢ 0 → fresh ≢ null → Shrinks
  smaller sparse large left ne =
      let (t, run, r) = rebuild_lem s v fresh size ne (calloced ne) (size_pos large) in
      (
        t,
        rebuilt s chain size,
        shrink-when left ∙ rw (sparse, large) run,
        SameLive-Rebuilt s v (size_pos large) r,
      )

  some_left : s.interruptible_counter ≢ 0 → Shrinks
  unfolding rebuild
  some_left left = elim (Bool-cases is_sparse) [
    | inr dense ↦ (s, chain, shrink-when left ∙ rw dense refl, SameLive-refl s v)
    | inl sparse ↦ elim (Bool-cases is_large) [
      | inr few ↦ (s, chain, shrink-when left ∙ rw (sparse, few) refl, SameLive-refl s v)
      | inl large ↦ elim (Bool-cases (fresh == null)) [
        | inl e ↦ (s, chain, shrink-when left ∙ rw (sparse, large, e) refl, SameLive-refl s v)
        | inr ne ↦ smaller sparse large left (ground arith)
      ]
    ]
  ]

  pub shrink_lem : Shrinks
  shrink_lem = elim (Bool-cases (s.interruptible_counter == 0)) [
    | inl e ↦ last_gone (eq_of_== _ _ e)
    | inr e ↦ some_left (ground arith)
  ]
