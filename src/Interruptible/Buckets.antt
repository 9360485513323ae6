-- ===== src/Interruptible/Buckets.antt =====
-- The hash table of src/interruptible.c: toBuckets, newBuckets, findInterruptibleWithId and
-- MtInterruptible_free. Each walk along a chain runs on fuel.
use lua_mtint.Base.{
  ℕ, zero, suc, ◌+◌, ◌*◌, ◌%◌, Bool, true, false, ◌&&◌, ◌||◌, not, ◌==◌, ltb, if◌then◌else◌,
}
use lua_mtint.Base.Int.{ℤ, pos, negsuc, pos_part, ltb_ℤ, eqb_ℤ, add_ℕ, mul_ℕ, signed32, is_int}
use lua_mtint.Atomic.{inc32, dec32}
use lua_mtint.Interruptible.Store.{
  Ptr, null, Slot, null_slot, first_of, next_of, Store, division_by_zero, out_of_bounds,
  out_of_fuel, signed_overflow, ok, fault, Cmd, pure, ◌>>=◌, ◌>>◌, skip, when, get, load, modify,
  load_bucket, store_bucket, write_slot, free_object, free_array, calloc_buckets,
}

-- `id % n` as an index. C's remainder has the sign of `id`, and a negative one is no index.
unfoldable pub bucket_index : ℤ → ℕ → Cmd ℕ
bucket_index id zero = λ _. fault division_by_zero
bucket_index (pos a) n = pure (a % n)
bucket_index (negsuc a) n = if suc a % n == 0 then pure 0 else λ _. fault out_of_bounds

-- `bucket->count += 1`, and the maximum kept in `bucket_usage`
unfoldable pub raise_usage : ℕ → Cmd (Unit {0})
raise_usage count s =
    ok tt (if ltb s.bucket_usage count then record s { bucket_usage = count } else s)

unfoldable pub to_buckets : (intrp : Ptr) (n : ℕ) (list : Ptr) → Cmd (Unit {0})
unfolding bucket_index raise_usage load modify load_bucket store_bucket
to_buckets intrp n list = do
  o ← load intrp
  i ← bucket_index o.id n
  b ← load_bucket list i
  let head = b.first_interruptible
  when (not (head == null)) (modify head (λ h. record h { prev_interruptible_ptr = next_of intrp }))
  modify intrp (λ o'. record o' { next_interruptible = head })
  modify intrp (λ o'. record o' { prev_interruptible_ptr = first_of list i })
  store_bucket list i (record { count = b.count + 1; first_interruptible = intrp })
  raise_usage (b.count + 1)

-- The inner loop of newBuckets.
unfoldable pub move_chain : (fuel : ℕ) (intrp : Ptr) (n : ℕ) (new_list : Ptr) → Cmd (Unit {0})
unfolding load
move_chain zero intrp n new_list = λ _. fault out_of_fuel
move_chain (suc k) intrp n new_list = if intrp == null then skip else do
  o ← load intrp
  to_buckets intrp n new_list
  move_chain k o.next_interruptible n new_list

-- The outer loop: `rounds` buckets are left, from `i` on.
unfoldable pub move_all : (fuel rounds i n : ℕ) (new_list : Ptr) → Cmd (Unit {0})
unfolding load_bucket
move_all fuel zero i n new_list = skip
move_all fuel (suc r) i n new_list = do
  s ← get
  b ← load_bucket s.interruptible_bucket_list i
  move_chain fuel b.first_interruptible n new_list
  move_all fuel r (i + 1) n new_list

unfoldable pub set_globals : (Store → Store) → Cmd (Unit {0})
set_globals f s = ok tt (f s)

unfoldable pub new_buckets : (n : ℕ) (new_list : Ptr) → Cmd (Unit {0})
unfolding set_globals free_array
new_buckets n new_list = do
  set_globals (λ s. record s { bucket_usage = 0 })
  s ← get
  when (not (s.interruptible_bucket_list == null)) (do
    move_all (s.interruptible_counter + 1) s.interruptible_buckets 0 n new_list
    free_array s.interruptible_bucket_list)
  set_globals (λ t. record t { interruptible_buckets = n; interruptible_bucket_list = new_list })

unfoldable pub find_in_chain : (fuel : ℕ) (intrp : Ptr) (id : ℤ) → Cmd Ptr
unfolding load
find_in_chain zero intrp id = λ _. fault out_of_fuel
find_in_chain (suc k) intrp id = if intrp == null then pure null else do
  o ← load intrp
  if eqb_ℤ o.id id then pure intrp else find_in_chain k o.next_interruptible id

unfoldable pub find_interruptible_with_id : (id : ℤ) → Cmd Ptr
unfolding bucket_index load_bucket find_in_chain
find_interruptible_with_id id = do
  s ← get
  if s.interruptible_bucket_list == null then pure null else do
    i ← bucket_index id s.interruptible_buckets
    b ← load_bucket s.interruptible_bucket_list i
    find_in_chain (s.interruptible_counter + 1) b.first_interruptible id

unfoldable pub is_null_slot : Slot → Bool
is_null_slot null_slot = true
is_null_slot _ = false

-- `calloc`, of which `fresh` is the result, and newBuckets if that is not NULL
unfoldable pub rebuild : (fresh : Ptr) (n : ℕ) → Cmd (Unit {0})
unfolding calloc_buckets
rebuild fresh n = when (not (fresh == null)) (do calloc_buckets fresh n; new_buckets n fresh)

-- The last object is gone: the array is freed.
unfoldable pub reset_table : Cmd (Unit {0})
unfolding free_array set_globals
reset_table = do
  s ← get
  when (not (s.interruptible_bucket_list == null)) (free_array s.interruptible_bucket_list)
  set_globals (λ t. record t {
    interruptible_buckets = 0;
    interruptible_bucket_list = null;
    bucket_usage = 0;
  })

-- A product of two numbers of type int.
unfoldable pub int_mul : ℤ → ℕ → Cmd ℤ
int_mul a k = if is_int (mul_ℕ a k) then pure (mul_ℕ a k) else λ _. fault signed_overflow

-- `n = 2 * c`, and newBuckets if that is more than 64
unfoldable pub rebuild_double : (fresh : Ptr) (c : ℤ) → Cmd (Unit {0})
unfolding int_mul
rebuild_double fresh c = do n ← int_mul c 2; when (ltb_ℤ (pos 64) n) (rebuild fresh (pos_part n))

-- The end of MtInterruptible_free, where `c` objects are left.
unfoldable pub shrink : (fresh : Ptr) (c : ℤ) → Cmd (Unit {0})
unfolding int_mul rebuild_double
shrink fresh c = do
  s ← get
  if eqb_ℤ c (pos 0) then reset_table else (do
    c10 ← int_mul c 10
    when (ltb_ℤ c10 (pos s.interruptible_buckets)) (rebuild_double fresh c))

-- Takes the object out of its chain and frees it.
unfoldable pub unlink : Ptr → Cmd Bool
unfolding load free_object
unlink intrp = do
  o ← load intrp
  let was_in_bucket = not (is_null_slot o.prev_interruptible_ptr)
  when was_in_bucket (write_slot o.prev_interruptible_ptr o.next_interruptible)
  o' ← load intrp
  when (not (o'.next_interruptible == null)) (
      modify o'.next_interruptible
        (λ t. record t { prev_interruptible_ptr = o'.prev_interruptible_ptr }))
  free_object intrp
  pure was_in_bucket

-- `fresh` is what `calloc` returns, if it is called.
unfoldable pub mt_interruptible_free : (fresh : Ptr) (intrp : Ptr) → Cmd (Unit {0})
unfolding set_globals
mt_interruptible_free fresh intrp = do
  was_in_bucket ← unlink intrp
  when was_in_bucket (do
    set_globals (λ s. record s { interruptible_counter = dec32 s.interruptible_counter })
    s ← get
    shrink fresh (signed32 s.interruptible_counter))

-- The test of assureCreatedMtInterruptible before an object is added.
unfoldable pub should_grow : Store → Bool
should_grow s =
    ltb_ℤ (pos (s.interruptible_buckets * 4)) (add_ℕ (signed32 s.interruptible_counter) 1)
    || ltb 30 s.bucket_usage

-- The part of assureCreatedMtInterruptible under the global lock: true, or false where it raises
-- an error for want of memory.
unfoldable pub register : (fresh : Ptr) (intrp l2 : Ptr) → Cmd Bool
unfolding set_globals modify
register fresh intrp l2 = do
  s ← get
  when (should_grow s)
      (rebuild fresh (if s.interruptible_buckets == 0 then 64 else 2 * s.interruptible_buckets))
  t ← get
  if should_grow s && fresh == null && s.interruptible_buckets == 0 then pure false else do
    to_buckets intrp t.interruptible_buckets t.interruptible_bucket_list
    set_globals (λ u. record u { interruptible_counter = inc32 u.interruptible_counter })
    modify intrp (λ o. record o { l2 = l2; initialized = true })
    pure true
