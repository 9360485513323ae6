-- ===== src/Interruptible/Guards/Lookup.antt =====
-- lookupIntrUserData: the user data that the lookup table has for a thread.
use lua_mtint.Base.{ℕ, ◌≡◌, ◌⊎◌, inl, inr, ◌∙◌, arith, Option, some, List, ◌∷◌, ◌<◌}
use lua_mtint.Lua.{Ref, Value, nil, table, thread, slot, Heap, lua, registry, from_bottom}
use lua_mtint.Lua.Api.{LuaApi}
use lua_mtint.Lua.Rules.{lua_calls, pushvalue-one}
use lua_mtint.Interruptible.Guards.{lookup_intr_user_data, push_interruptible_lookup_table}
use lua_mtint.Interruptible.Guards.Tables.{
  with_lookup_table, guard_udata, pushed, lookup_table, guard_meta_table, assured_from,
  push_new_lookup_table, push_old_lookup_table, lookup_in_guard_lem,
}

-- The guard that the table `v` has for the Lua state or coroutine `l`.
abbrev pub guard_in : Value → Ref → Heap → Value
guard_in (table t) l h = h.field t (thread l)
guard_in _ l h = nil

-- The user data of `l`, where the lookup table has them.
abbrev pub guard_of : Heap → Ref → Option Ref
guard_of h l = guard_udata (guard_in (lookup_table h) l h) h

-- The entry of the registry is another table that exists, or nil.
abbrev pub IsTableOrNil : Value → Heap → Type 0
IsTableOrNil v h = (v ≡ nil) ⊎ ((t : Ref) × (v ≡ table t) × (registry < t) × (t < h.next))

-- The tables that the lookup reaches exist.
pub record IsSound (h : Heap) : Type 0 where
  pub has_registry : registry < h.next
  pub lookup_is : IsTableOrNil (lookup_table h) h
  pub meta_is : IsTableOrNil (guard_meta_table h) h
  pub guard_is :
      (l g : Ref) → guard_in (lookup_table h) l h ≡ table g → (registry < g) × (g < h.next)

-- The heap after pushInterruptibleLookupTable.
abbrev pub assured : Heap → Heap
assured h = assured_from (lookup_table h) h

-- No thread has a guard in a new table.
pub new_lookup_table-empty :
    (h : Heap) (l : Ref) → (with_lookup_table h).field h.next (thread l) ≡ nil
new_lookup_table-empty h l = ground arith

module _ (api : LuaApi) (st : List Value) (n : ℕ) (l : Ref)
    (at : from_bottom n st ≡ some (thread l)) where
  -- What follows pushInterruptibleLookupTable.
  lookup_from :
      (h h' : Heap) (t : Ref)
      → push_interruptible_lookup_table api (lua st h) ≡ lua (table t ∷ st) h'
      → lookup_intr_user_data api (slot n) (lua st h) ≡ (
        guard_udata (h'.field t (thread l)) h',
        lua (pushed (guard_udata (h'.field t (thread l)) h') st) h',
      )
  unfolding lookup_intr_user_data
  lookup_from h h' t run =
      simp (run, pushvalue-one n st (thread l) at, lua_calls, lookup_in_guard_lem)

  pub lookup_intr_user_data_lem :
      (h : Heap)
      → IsSound h
      → lookup_intr_user_data api (slot n) (lua st h)
        ≡ (guard_of h l, lua (pushed (guard_of h l) st) (assured h))
  lookup_intr_user_data_lem h s = elim s.lookup_is [
    | inl e ↦
        lookup_from h (with_lookup_table h) h.next (push_new_lookup_table api st h e)
        ∙ rw (new_lookup_table-empty h l, e)
    | inr (t, e, real, lt) ↦ lookup_from h h t (push_old_lookup_table api st h t e) ∙ (rw e)
  ]
