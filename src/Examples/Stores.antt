-- ===== src/Examples/Stores.antt =====
-- Stores with a small table: two buckets, and objects with the ids 1 and 3 in the second of them.
use lua_mtint.Base.{
  ℕ, zero, suc, ◌<◌, refl, inr, true, none, some, [], ◌∷◌, arith, ◌==◌, if◌then◌else◌,
}
use lua_mtint.Base.Int.{pos}
use lua_mtint.Interruptible.Store.{
  Ptr, null, null_slot, first_of, next_of, MtInterruptible, BucketList, Objects, Store,
}
use lua_mtint.Interruptible.Chain.{Seg, nil, cons}
use lua_mtint.Interruptible.Table.{Chains, Table}
use lua_mtint.Interruptible.Table.Valid.{total, IsValid}

abbrev pub array_at : Ptr
array_at = 100

abbrev pub first_object : MtInterruptible
first_object = record {
  id = pos 1;
  used = 1;
  initialized = true;
  l2 = 50;
  prev_interruptible_ptr = first_of array_at 1;
  next_interruptible = 2;
}

abbrev pub second_object : MtInterruptible
second_object = record {
  id = pos 3;
  used = 1;
  initialized = true;
  l2 = 60;
  prev_interruptible_ptr = next_of 1;
  next_interruptible = null;
}

-- At address 7 there is an object that is not in the table yet.
abbrev pub new_object : MtInterruptible
new_object = record {
  id = pos 4;
  used = 0;
  initialized = true;
  l2 = null;
  prev_interruptible_ptr = null_slot;
  next_interruptible = null;
}

abbrev pub objects : Objects
objects p =
    if p == 1
    then some first_object
    else if p == 2
    then some second_object
    else if p == 7
    then some new_object
    else none

abbrev pub buckets : BucketList
buckets = record {
  size = 2;
  bucket = λ i.
      if i == 1
      then record { count = 2; first_interruptible = 1 }
      else record { count = 0; first_interruptible = null };
}

abbrev pub two_objects : Store
two_objects = record {
  object = objects;
  array = λ p. if p == array_at then some buckets else none;
  interruptible_counter = 2;
  interruptible_buckets = 2;
  bucket_usage = 2;
  interruptible_bucket_list = array_at;
}

abbrev pub two_chains : Chains
two_chains i = if i == 1 then 1 ∷ 2 ∷ [] else []

pub chain_one : Seg objects 2 1 (first_of array_at 1) 1 (1 ∷ 2 ∷ [])
chain_one =
    cons {o = first_object} refl
      (record { ne_null = omega arith; holds = refl; back = refl; is_nat = refl; home = refl }) refl
      (cons {o = second_object} refl
        (record { ne_null = omega arith; holds = refl; back = refl; is_nat = refl; home = refl })
        refl (nil refl))

pub two_objects-Table : Table two_objects array_at 2 two_chains
two_objects-Table = record { buckets = buckets; found = refl; size = refl; seg = each }
  where
    each :
        (i : ℕ)
        → i < 2
        → Seg objects 2 i
            (first_of array_at i)
            (buckets.bucket i).first_interruptible
            (two_chains i)
    each zero lt = nil refl
    each (suc zero) lt = chain_one
    each (suc (suc i)) lt = absurd (omega arith)

pub two_objects-IsValid : IsValid two_objects two_chains
unfolding total
two_objects-IsValid = record {
  table = inr (omega arith, omega arith, two_objects-Table);
  counted = refl;
}
