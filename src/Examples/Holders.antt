-- ===== src/Examples/Holders.antt =====
-- Two holders of one object, and the text of user data.
use lua_mtint.Base.{ℕ, ◌≡◌, ◌≢◌, ◌⊎◌, ◌↔◌, inr, refl, arith, true}
use lua_mtint.Errors.{Text, Formats, codes}
use lua_mtint.Interruptible.Store.{Ptr, null}
use lua_mtint.Interruptible.Objects.{returns}
use lua_mtint.Interruptible.Objects.Description.{
  invalid_text, mt_interruptible_to_string, mt_interruptible_to_string_lem,
}
use lua_mtint.Interruptible.Objects.Holders.{
  Shared, outside, holding, freeing, find, drop, created, Reachable, start, found, dropped, holders,
  Reachable-holders,
}
use lua_mtint.Examples.Stores.{first_object}
use lua_mtint.Examples.Objects.{world, guard}

-- Holder 1 finds the object that holder 0 has made; both give it up, and holder 1 is to free it.
abbrev both_dropped : Shared
both_dropped = drop 1 (drop 0 (find 1 (created 0)))

one_counted : (created 0).used ≢ 0
one_counted = omega arith

both_dropped-Reachable : Reachable 2 both_dropped
unfolding find drop
both_dropped-Reachable = dropped 1 (omega arith) refl (
    dropped 0 (omega arith) refl
      (found 1 (omega arith) refl refl one_counted (start 0 (omega arith))))

freeing-inside : both_dropped.at 1 ≢ outside
unfolding find drop
freeing-inside e = cc

Reachable-holders_example :
    (both_dropped.live ≡ true)
    × (both_dropped.used ≡ holders 2 both_dropped)
    × ((both_dropped.at 1 ≡ holding)
        ⊎ ((both_dropped.at 1 ≡ freeing)
            × (both_dropped.used ≡ 0)
            × ((◌≡◌ {A = ℕ} 0 1) ⊎ (both_dropped.at 0 ≡ outside))))
Reachable-holders_example =
    Reachable-holders (omega arith) both_dropped-Reachable 1 0 (omega arith) (omega arith)
      freeing-inside

-- Every number is printed in the same way.
abbrev formats : Formats
formats = record { decimal = λ z. codes "1"; bytes = λ n. codes "1" }

abbrev pointer : Ptr → Text
pointer u = codes "0x1f4"

guard-refers : guard.interruptible ≢ null
guard-refers = omega arith

mt_interruptible_to_string_lem_example :
    (t : Text) × (mt_interruptible_to_string formats pointer 500 world ≡ returns t world)
    × ((t ≡ invalid_text) ↔ (guard.interruptible ≡ null))
mt_interruptible_to_string_lem_example =
    mt_interruptible_to_string_lem formats pointer 500 world guard refl
      (inr (first_object, refl, guard-refers))
