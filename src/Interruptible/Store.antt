-- ===== src/Interruptible/Store.antt =====
-- The memory that src/interruptible.c works on: struct MtInterruptible, InterruptibleBucket, the
-- static variables, and commands that stop at a fault where C's behaviour is undefined.
use lua_mtint.Base.{ℕ, Bool, true, false, Option, none, some, ◌==◌, ltb, if◌then◌else◌}
use lua_mtint.Base.Int.{ℤ}

-- An address. Address 0 is NULL.
abbrev pub Ptr : Type 0
Ptr = ℕ

abbrev pub null : Ptr
null = 0

-- A value of type `MtInterruptible**`: NULL, the address of `firstInterruptible` in bucket `i` of
-- the array at `list`, or the address of `nextInterruptible` in the object at `p`.
pub data Slot : Type 0 where
  null_slot : Slot
  first_of : (list : Ptr) (i : ℕ) → Slot
  next_of : (p : Ptr) → Slot

-- struct MtInterruptible, less its lock. `used` is the bit pattern of an int.
pub record MtInterruptible : Type 0 where
  pub id : ℤ
  pub used : ℕ
  pub initialized : Bool
  pub l2 : Ptr
  pub prev_interruptible_ptr : Slot
  pub next_interruptible : Ptr

-- `count` is an int in C. It goes up once for each object that enters the bucket, so that it does not
-- exceed the number of ids that were given out.
pub record InterruptibleBucket : Type 0 where
  pub count : ℕ
  pub first_interruptible : Ptr

-- An array that `calloc` returned.
pub record BucketList : Type 0 where
  pub size : ℕ
  pub bucket : ℕ → InterruptibleBucket

abbrev pub Objects : Type 0
Objects = Ptr → Option MtInterruptible

-- The heap, and the four static variables.
pub record Store : Type 0 where
  pub object : Objects
  pub array : Ptr → Option BucketList
  pub interruptible_counter : ℕ
  pub interruptible_buckets : ℕ
  pub bucket_usage : ℕ
  pub interruptible_bucket_list : Ptr

pub data Fault : Type 0 where
  bad_pointer : Fault
  out_of_bounds : Fault
  division_by_zero : Fault
  out_of_fuel : Fault
  signed_overflow : Fault

pub data Run (A : Type 0) : Type 0 where
  ok : A → Store → Run A
  fault : Fault → Run A

abbrev pub Cmd : Type 0 → Type 0
Cmd A = Store → Run A

abbrev pub pure : {A : Type 0} → A → Cmd A
pure a s = ok a s

abbrev pub and_then : {A B : Type 0} → Run A → (A → Cmd B) → Run B
and_then (ok a s) k = k a s
and_then (fault e) k = fault e

infixl 5 ◌>>=◌ ◌>>◌
abbrev pub ◌>>=◌ : {A B : Type 0} → Cmd A → (A → Cmd B) → Cmd B
◌>>=◌ m k s = and_then (m s) k

abbrev pub ◌>>◌ : {B : Type 0} → Cmd (Unit {0}) → Cmd B → Cmd B
m >> k = m >>= λ _. k

abbrev pub skip : Cmd (Unit {0})
skip = pure tt

abbrev pub when : Bool → Cmd (Unit {0}) → Cmd (Unit {0})
when true m = m
when false m = skip

abbrev pub get : Cmd Store
get s = ok s s

abbrev pub update {ℓ} : {A : Type ℓ} → (ℕ → A) → ℕ → A → ℕ → A
update f p v q = if p == q then v else f q

unfoldable pub load : Ptr → Cmd MtInterruptible
load p s = elim (s.object p) [ none ↦ fault bad_pointer | some o ↦ ok o s ]

abbrev pub put_object : Ptr → MtInterruptible → Store → Store
put_object p o s = record s { object = update s.object p (some o) }

-- `*p` is changed by `f`.
unfoldable pub modify : Ptr → (MtInterruptible → MtInterruptible) → Cmd (Unit {0})
modify p f s = elim (s.object p) [
  | none ↦ fault bad_pointer
  | some o ↦ ok tt (put_object p (f o) s)
]

unfoldable pub load_bucket : Ptr → ℕ → Cmd InterruptibleBucket
load_bucket list i s = elim (s.array list) [
  | none ↦ fault bad_pointer
  | some a ↦ if ltb i a.size then ok (a.bucket i) s else fault out_of_bounds
]

abbrev pub set_bucket : BucketList → ℕ → InterruptibleBucket → BucketList
set_bucket a i b = record a { bucket = update a.bucket i b }

abbrev pub put_array : Ptr → BucketList → Store → Store
put_array list a s = record s { array = update s.array list (some a) }

unfoldable pub store_bucket : Ptr → ℕ → InterruptibleBucket → Cmd (Unit {0})
store_bucket list i b s = elim (s.array list) [
  | none ↦ fault bad_pointer
  | some a ↦
      if ltb i a.size then ok tt (put_array list (set_bucket a i b) s) else fault out_of_bounds
]

-- `*slot = p`
unfoldable pub write_slot : Slot → Ptr → Cmd (Unit {0})
unfolding modify load_bucket store_bucket
write_slot null_slot p = λ _. fault bad_pointer
write_slot (first_of list i) p = do
  b ← load_bucket list i
  store_bucket list i (record b { first_interruptible = p })
write_slot (next_of q) p = modify q (λ o. record o { next_interruptible = p })

unfoldable pub free_object : Ptr → Cmd (Unit {0})
free_object p s = elim (s.object p) [
  | none ↦ fault bad_pointer
  | some o ↦ ok tt (record s { object = update s.object p none })
]

unfoldable pub free_array : Ptr → Cmd (Unit {0})
free_array list s = elim (s.array list) [
  | none ↦ fault bad_pointer
  | some a ↦ ok tt (record s { array = update s.array list none })
]

-- `calloc(n, sizeof(InterruptibleBucket))`: `fresh` is what it returns.
unfoldable pub calloc_buckets : (fresh : Ptr) → ℕ → Cmd (Unit {0})
calloc_buckets fresh n = λ s. ok tt (
    put_array fresh
      (record { size = n; bucket = λ _. record { count = 0; first_interruptible = null } }) s)
