-- ===== src/Atomic/Backends.antt =====
-- The inline functions on AtomicCounter and AtomicPtr of src/async_util.h, in the three versions that the
-- preprocessor chooses from, over the primitives of each platform.
use lua_mtint.Base.{
  Option, none, some, ◌≢◌, ℕ, ◌+◌, ◌-◌, ◌%◌, ◌^◌, ◌<◌, ◌≡◌, refl, arith, Bool, ◌==◌, if◌then◌else◌,
}
use lua_mtint.Atomic.{inc32, dec32}

-- Which macro MTINT_ASYNC_USE_WIN32, MTINT_ASYNC_USE_STDATOMIC or MTINT_ASYNC_USE_GNU is defined.
pub data Backend : Type 0 where
  win32 : Backend
  stdatomic : Backend
  gnu : Backend

-- The bit patterns of the greatest and the least int.
abbrev int_max : ℕ
int_max = 2 ^ 31 - 1

abbrev int_min : ℕ
int_min = 2 ^ 31

-- `old + 1` and `old - 1`, of type int.
abbrev int_plus_one : ℕ → Option ℕ
int_plus_one old = if old == int_max then none else some ((old + 1) % 2 ^ 32)

abbrev int_minus_one : ℕ → Option ℕ
int_minus_one old = if old == int_min then none else some ((old + 2 ^ 32 - 1) % 2 ^ 32)

abbrev pub swap_value : ℕ → ℕ → ℕ → ℕ
swap_value v old new = if v == old then new else v

-- The primitives. Each takes the value of the counter, then its arguments, and gives its result and
-- the new value; the fields behind them are what their documentation says.
pub record AtomicPrimitives : Type 0 where
  pub interlocked_increment : ℕ → ℕ × ℕ
  pub interlocked_decrement : ℕ → ℕ × ℕ
  pub interlocked_exchange : ℕ → ℕ → ℕ × ℕ
  pub interlocked_compare_exchange : (value exchange comperand : ℕ) → ℕ × ℕ
  pub atomic_fetch_add : ℕ → ℕ → ℕ × ℕ
  pub atomic_fetch_sub : ℕ → ℕ → ℕ × ℕ
  pub atomic_load : ℕ → ℕ × ℕ
  pub atomic_exchange : ℕ → ℕ → ℕ × ℕ
  pub atomic_compare_exchange_strong : (value expected desired : ℕ) → Bool × ℕ
  pub sync_add_and_fetch : ℕ → ℕ → ℕ × ℕ
  pub sync_sub_and_fetch : ℕ → ℕ → ℕ × ℕ
  pub sync_lock_test_and_set : ℕ → ℕ → ℕ × ℕ
  pub sync_bool_compare_and_swap : (value old new : ℕ) → Bool × ℕ
  pub interlocked_compare_exchange_pointer : (value exchange comperand : ℕ) → ℕ × ℕ
  pub atomic_load_ptr : ℕ → ℕ × ℕ
  pub atomic_compare_exchange_strong_ptr : (value expected desired : ℕ) → Bool × ℕ
  pub sync_add_and_fetch_ptr : ℕ → ℕ → ℕ × ℕ
  pub sync_bool_compare_and_swap_ptr : (value old new : ℕ) → Bool × ℕ
  pub increment_law : (v : ℕ) → v < 2 ^ 32 → interlocked_increment v ≡ (inc32 v, inc32 v)
  pub decrement_law : (v : ℕ) → v < 2 ^ 32 → interlocked_decrement v ≡ (dec32 v, dec32 v)
  pub interlocked_exchange_law : (v w : ℕ) → interlocked_exchange v w ≡ (v, w)
  pub interlocked_compare_exchange_law :
      (v new old : ℕ) → interlocked_compare_exchange v new old ≡ (v, swap_value v old new)
  pub fetch_add_law : (v k : ℕ) → v < 2 ^ 32 → atomic_fetch_add v k ≡ (v, (v + k) % 2 ^ 32)
  pub fetch_sub_law :
      (v k : ℕ) → v < 2 ^ 32 → k < 2 ^ 32 → atomic_fetch_sub v k ≡ (v, (v + 2 ^ 32 - k) % 2 ^ 32)
  pub load_law : (v : ℕ) → atomic_load v ≡ (v, v)
  pub exchange_law : (v w : ℕ) → atomic_exchange v w ≡ (v, w)
  pub compare_exchange_strong_law :
      (v old new : ℕ) → atomic_compare_exchange_strong v old new ≡ (v == old, swap_value v old new)
  pub add_and_fetch_law :
      (v k : ℕ) → v < 2 ^ 32 → sync_add_and_fetch v k ≡ ((v + k) % 2 ^ 32, (v + k) % 2 ^ 32)
  pub sub_and_fetch_law :
      (v k : ℕ)
      → v < 2 ^ 32
      → k < 2 ^ 32
      → sync_sub_and_fetch v k ≡ ((v + 2 ^ 32 - k) % 2 ^ 32, (v + 2 ^ 32 - k) % 2 ^ 32)
  pub test_and_set_law : (v w : ℕ) → sync_lock_test_and_set v w ≡ (v, w)
  pub bool_compare_and_swap_law :
      (v old new : ℕ) → sync_bool_compare_and_swap v old new ≡ (v == old, swap_value v old new)
  -- The same on a value of the size of a pointer.
  pub compare_exchange_pointer_law :
      (v new old : ℕ) → interlocked_compare_exchange_pointer v new old ≡ (v, swap_value v old new)
  pub load_ptr_law : (v : ℕ) → atomic_load_ptr v ≡ (v, v)
  pub compare_exchange_strong_ptr_law :
      (v old new : ℕ)
      → atomic_compare_exchange_strong_ptr v old new ≡ (v == old, swap_value v old new)
  pub add_and_fetch_ptr_law : (v : ℕ) → sync_add_and_fetch_ptr v 0 ≡ (v, v)
  pub bool_compare_and_swap_ptr_law :
      (v old new : ℕ) → sync_bool_compare_and_swap_ptr v old new ≡ (v == old, swap_value v old new)

module _ (p : AtomicPrimitives) where
  -- A pointer is its address.
  pub atomic_set_ptr_if_equal : Backend → (ptr old_ptr new_ptr : ℕ) → Bool × ℕ
  atomic_set_ptr_if_equal win32 ptr old_ptr new_ptr =
      let (seen, ptr') = p.interlocked_compare_exchange_pointer ptr new_ptr old_ptr in
      (old_ptr == seen, ptr')
  atomic_set_ptr_if_equal stdatomic ptr old_ptr new_ptr =
      p.atomic_compare_exchange_strong_ptr ptr old_ptr new_ptr
  atomic_set_ptr_if_equal gnu ptr old_ptr new_ptr =
      p.sync_bool_compare_and_swap_ptr ptr old_ptr new_ptr

  pub atomic_get_ptr : Backend → ℕ → ℕ × ℕ
  atomic_get_ptr win32 ptr = p.interlocked_compare_exchange_pointer ptr 0 0
  atomic_get_ptr stdatomic ptr = p.atomic_load_ptr ptr
  atomic_get_ptr gnu ptr = p.sync_add_and_fetch_ptr ptr 0

  -- The result, which is none where C leaves the overflow of an int undefined, and the new value.
  pub atomic_inc : Backend → ℕ → Option ℕ × ℕ
  atomic_inc win32 value =
      let (result, value') = p.interlocked_increment value in (some result, value')
  atomic_inc stdatomic value =
      let (old, value') = p.atomic_fetch_add value 1 in (int_plus_one old, value')
  atomic_inc gnu value =
      let (result, value') = p.sync_add_and_fetch value 1 in (some result, value')

  pub atomic_dec : Backend → ℕ → Option ℕ × ℕ
  atomic_dec win32 value =
      let (result, value') = p.interlocked_decrement value in (some result, value')
  atomic_dec stdatomic value =
      let (old, value') = p.atomic_fetch_sub value 1 in (int_minus_one old, value')
  atomic_dec gnu value =
      let (result, value') = p.sync_sub_and_fetch value 1 in (some result, value')

  pub atomic_set_if_equal : Backend → (value old_value new_value : ℕ) → Bool × ℕ
  atomic_set_if_equal win32 value old_value new_value =
      let (seen, value') = p.interlocked_compare_exchange value new_value old_value in
      (old_value == seen, value')
  atomic_set_if_equal stdatomic value old_value new_value =
      p.atomic_compare_exchange_strong value old_value new_value
  atomic_set_if_equal gnu value old_value new_value =
      p.sync_bool_compare_and_swap value old_value new_value

  pub atomic_get : Backend → ℕ → ℕ × ℕ
  atomic_get win32 value = p.interlocked_compare_exchange value 0 0
  atomic_get stdatomic value = p.atomic_load value
  atomic_get gnu value = p.sync_add_and_fetch value 0

  pub atomic_set : Backend → (value new_value : ℕ) → ℕ × ℕ
  atomic_set win32 value new_value = p.interlocked_exchange value new_value
  atomic_set stdatomic value new_value = p.atomic_exchange value new_value
  atomic_set gnu value new_value = p.sync_lock_test_and_set value new_value

  -- Below INT_MAX every platform counts a 32-bit counter up, and returns the new value.
  pub atomic_inc_lem :
      (b : Backend) (v : ℕ) → v < 2 ^ 32 → v ≢ int_max → atomic_inc b v ≡ (some (inc32 v), inc32 v)
  unfolding atomic_inc inc32
  atomic_inc_lem win32 v h ne = rw (p.increment_law v h) refl
  atomic_inc_lem stdatomic v h ne = rw (p.fetch_add_law v 1 h) (ground arith)
  atomic_inc_lem gnu v h ne = rw (p.add_and_fetch_law v 1 h) refl

  -- Above INT_MIN every platform counts it down, and returns the new value.
  pub atomic_dec_lem :
      (b : Backend) (v : ℕ) → v < 2 ^ 32 → v ≢ int_min → atomic_dec b v ≡ (some (dec32 v), dec32 v)
  unfolding atomic_dec dec32
  atomic_dec_lem win32 v h ne = rw (p.decrement_law v h) refl
  atomic_dec_lem stdatomic v h ne = rw (p.fetch_sub_law v 1 h (omega arith)) (ground arith)
  atomic_dec_lem gnu v h ne = rw (p.sub_and_fetch_law v 1 h (omega arith)) refl
