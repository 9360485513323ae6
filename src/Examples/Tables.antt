-- ===== src/Examples/Tables.antt =====
-- The theorems on the hash table, applied to a small one.
use lua_mtint.Base.{zero, suc, ◌≡◌, ◌≢◌, refl, arith, some}
use lua_mtint.Base.Int.{pos, negsuc}
use lua_mtint.Interruptible.Store.{null, ok, fault, out_of_bounds, Store}
use lua_mtint.Interruptible.Buckets.{find_interruptible_with_id, mt_interruptible_free}
use lua_mtint.Interruptible.Table.{Chains, Absent}
use lua_mtint.Interruptible.Table.Valid.{Live}
use lua_mtint.Interruptible.Table.Find.{
  Finds, find_interruptible_with_id-Live, find_interruptible_with_id-negative,
}
use lua_mtint.Interruptible.Table.Rebuild.{Rebuilds, rebuild_lem}
use lua_mtint.Interruptible.Table.Register.{Registers, register_lem}
use lua_mtint.Interruptible.Table.Free.{Freed, mt_interruptible_free_lem}
use lua_mtint.Examples.Stores.{
  first_object, new_object, two_objects, two_chains, two_objects-IsValid,
}

first_Live : Live 2 two_chains 1
first_Live = (1, omega arith, refl)

seven : 7 ≢ null
seven = omega arith

new_present : two_objects.object 7 ≡ some new_object
new_present = refl

new_Absent : Absent 2 two_chains 7
new_Absent zero lt = refl
new_Absent (suc zero) lt = refl
new_Absent (suc (suc i)) lt = absurd (omega arith)

new_not_Live : ¬ (Live 2 two_chains 7)
new_not_Live (i, lt, inside) = ground (arith, new_Absent i lt)

mt_interruptible_free_lem_example :
    (t : Store) × (chain' : Chains) × (mt_interruptible_free 200 1 two_objects ≡ ok tt t)
    × Freed two_objects t two_chains chain' 1
mt_interruptible_free_lem_example =
    mt_interruptible_free_lem two_objects two_objects-IsValid 1 first_object refl (omega arith) 200
      first_Live (λ ne. refl)

register_lem_example :
    Registers two_objects two_objects-IsValid 70 seven new_present refl new_not_Live
      (omega arith)
      200
register_lem_example =
    register_lem two_objects two_objects-IsValid 70 seven new_present refl new_not_Live
      (omega arith) 200 (λ ne. refl)

rebuild_lem_example :
    Rebuilds two_objects two_objects-IsValid 200 4 (omega arith) refl (omega arith)
rebuild_lem_example =
    rebuild_lem two_objects two_objects-IsValid 200 4 (omega arith) refl (omega arith)

find_interruptible_with_id-Live_example : Finds two_objects two_chains (pos 3)
find_interruptible_with_id-Live_example =
    find_interruptible_with_id-Live two_objects two_objects-IsValid (pos 3) refl

find_interruptible_with_id-negative_example :
    find_interruptible_with_id (negsuc 0) two_objects ≡ fault out_of_bounds
find_interruptible_with_id-negative_example =
    find_interruptible_with_id-negative two_objects two_objects-IsValid (omega arith) 0
