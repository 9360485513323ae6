-- ===== src/Examples/Guards.antt =====
-- A Lua state in which the library guards a coroutine, and one that loads the library.
use lua_mtint.Base.{
  ◌≡◌, ◌⊎◌, inl, inr, refl, arith, true, false, none, some, [], ◌∷◌, ◌==◌, if◌then◌else◌, ◌&&◌,
}
use lua_mtint.Errors.{codes}
use lua_mtint.Atomic.Backends.{gnu}
use lua_mtint.Sync.{pthread}
use lua_mtint.Lua.{
  Ref, nil, closure, text, light, table, userdata, thread, module_name, Heap, lua, ◌▷◌, registry,
  slot, same,
}
use lua_mtint.Interruptible.Store.{update}
use lua_mtint.Interruptible.Guards.{
  interruptible_class_name, setup_interruptible_guard, lookup_intr_user_data,
}
use lua_mtint.Interruptible.Guards.Lookup.{IsSound}
use lua_mtint.Interruptible.Guards.Represents.{Represents}
use lua_mtint.Interruptible.Guards.Setup.{
  setup_interruptible_guard-Represents, lookup_intr_user_data-Represents,
}
use lua_mtint.Interruptible.Guards.Class.{IsClass, Keeps}
use lua_mtint.OpenModule.{open_module, assure_sentinel}
use lua_mtint.OpenModule.Sentinel.{has_sentinel, IsWatched, assure_sentinel_lem}
use lua_mtint.OpenModule.Opens.{IsModule, open_module_lem}
use lua_mtint.Interruptible.Guards.Hooks.{
  raises, attach_user_value, set_hook_value, interrupt_hook_common_in,
}
use lua_mtint.Interruptible.Guards.Hooks.UserValue.{HasUserValue}
use lua_mtint.Interruptible.Guards.Hooks.Runs.{hook_end, set_hook_value-interrupt_hook_common_in}
use lua_mtint.Interruptible.Guards.Hooks.NewObject.{
  setup_interruptible_guard-interrupt_hook_common_in,
}
use lua_mtint.Examples.LuaStates.{machine}

-- The user data 5 are of the class whose metatable is table 1.
abbrev with_object : Heap
with_object = record {
  field = λ t k. if (t == registry) && same (text interruptible_class_name) k then table 1 else nil;
  metatable = λ y. if same (userdata 5) y then table 1 else nil;
  uservalue = λ u. nil;
  next = 6;
}

with_object-IsSound : IsSound with_object
with_object-IsSound = record {
  has_registry = omega arith;
  lookup_is = inl refl;
  meta_is = inl refl;
  guard_is = λ l g e. absurd (cc);
}

setup_interruptible_guard-Represents_example :
    (h' : Heap) × (setup_interruptible_guard machine
        (slot 2)
        (slot 1)
        false
        (lua (userdata 5 ∷ thread 7 ∷ []) with_object)
      ≡ lua (userdata 5 ∷ thread 7 ∷ []) h')
    × IsSound h'
    × Represents h' (update (λ q. none) 7 (some 5))
setup_interruptible_guard-Represents_example =
    setup_interruptible_guard-Represents machine (userdata 5 ∷ thread 7 ∷ []) 2 1 5 7 refl refl
      false with_object (λ q. none) with_object-IsSound (λ q. refl) refl

-- The lookup table is table 2, and has the user data for the thread 7.
abbrev with_main_guard : Heap
with_main_guard = record {
  field = λ t k.
      if (t == registry) && same (text interruptible_class_name) k
      then table 1
      else if (t == registry) && same (light module_name) k
      then table 2
      else if (t == 2) && same (thread 7) k
      then userdata 5
      else nil;
  metatable = λ y. if same (userdata 5) y then table 1 else nil;
  uservalue = λ u. nil;
  next = 6;
}

with_main_guard-IsSound : IsSound with_main_guard
with_main_guard-IsSound = record {
  has_registry = omega arith;
  lookup_is = inr (2, refl, omega arith, omega arith);
  meta_is = inl refl;
  guard_is = λ l g e. absurd (ground arith);
}

with_main_guard-Represents : Represents with_main_guard (update (λ q. none) 7 (some 5))
with_main_guard-Represents q = ground arith

lookup_intr_user_data-Represents_example :
    (h' : Heap) × (lookup_intr_user_data machine (slot 1) (lua (thread 7 ∷ []) with_main_guard)
      ≡ (some 5, lua (userdata 5 ∷ thread 7 ∷ []) h'))
    × IsSound h'
    × Represents h' (update (λ q. none) 7 (some 5))
lookup_intr_user_data-Represents_example =
    lookup_intr_user_data-Represents machine (thread 7 ∷ []) 1 7 with_main_guard
      (update (λ q. none) 7 (some 5)) refl with_main_guard-IsSound with_main_guard-Represents

setup_interruptible_guard-interrupt_hook_common_in_example :
    (h' : Heap) × (uv : Ref) × ((lua (userdata 5 ∷ closure 1 ∷ thread 7 ∷ []) with_object
        ▷ setup_interruptible_guard machine (slot 3) (slot 1) false
        ▷ attach_user_value machine 3
        ▷ set_hook_value machine 2)
      ≡ lua (table uv ∷ userdata 5 ∷ closure 1 ∷ thread 7 ∷ []) h')
    × IsSound h'
    × Represents h' (update (λ q. none) 7 (some 5))
    × HasUserValue 5 uv h'
    × (interrupt_hook_common_in machine 7 (lua [] h') ≡ hook_end machine (closure 1) [] h')
setup_interruptible_guard-interrupt_hook_common_in_example =
    setup_interruptible_guard-interrupt_hook_common_in machine (closure 1 ∷ thread 7 ∷ []) []
      with_object (λ q. none) 1 2 7 5 false (closure 1) refl with_object-IsSound (λ q. refl) refl
      (inr (refl, refl))

-- The user data have the table 4 as user value.
abbrev with_user_table : Heap
with_user_table = record with_main_guard { uservalue = λ u. if u == 5 then table 4 else nil }

with_user_table-IsSound : IsSound with_user_table
with_user_table-IsSound = record {
  has_registry = omega arith;
  lookup_is = inr (2, refl, omega arith, omega arith);
  meta_is = inl refl;
  guard_is = λ l g e. absurd (ground arith);
}

with_user_table-Represents : Represents with_user_table (update (λ q. none) 7 (some 5))
with_user_table-Represents q = ground arith

with_user_table-HasUserValue : HasUserValue 5 4 with_user_table
with_user_table-HasUserValue = record { is = refl; no_guard = λ l e. absurd (ground arith) }

set_hook_value-interrupt_hook_common_in_example :
    (h' : Heap) × (set_hook_value machine 1 (lua (userdata 5 ∷ closure 1 ∷ []) with_user_table)
      ≡ lua (table 4 ∷ userdata 5 ∷ closure 1 ∷ []) h')
    × IsSound h'
    × Represents h' (update (λ q. none) 7 (some 5))
    × HasUserValue 5 4 h'
    × (interrupt_hook_common_in machine 7 (lua [] h') ≡ hook_end machine (closure 1) [] h')
    × (interrupt_hook_common_in machine 8 (lua [] h') ≡ raises (lua [] h'))
set_hook_value-interrupt_hook_common_in_example =
    set_hook_value-interrupt_hook_common_in machine (closure 1 ∷ []) [] with_user_table
      (update (λ q. none) 7 (some 5)) 1 7 8 5 4 (closure 1) with_user_table-IsSound
      with_user_table-Represents refl refl with_user_table-HasUserValue (inr (refl, refl))

-- A Lua state with nothing but the registry.
abbrev fresh : Heap
fresh = record { field = λ t k. nil; metatable = λ y. nil; uservalue = λ u. nil; next = 1 }

open_module_lem_example :
    (h' : Heap) × (m e c : Ref) × (open_module machine
        (codes "0.3.4")
        gnu
        pthread
        (lua (text (codes "mtint") ∷ []) fresh)
      ≡ lua (table m ∷ text (codes "mtint") ∷ []) h')
    × IsModule (codes "0.3.4") gnu pthread m e h'
    × (h'.field registry (text interruptible_class_name) ≡ table c)
    × IsClass c h'
    × Keeps fresh h'
open_module_lem_example =
    open_module_lem machine (codes "0.3.4") gnu pthread (text (codes "mtint") ∷ []) fresh
      (omega arith) (inl refl)

assure_sentinel_lem_example :
    (h' : Heap) × (assure_sentinel machine (lua [] fresh) ≡ (false, lua [] h'))
    × (has_sentinel h' ≡ true)
    × (((has_sentinel fresh ≡ true) × (h' ≡ fresh)) ⊎ ((has_sentinel fresh ≡ false) × IsWatched h'))
assure_sentinel_lem_example = assure_sentinel_lem machine [] fresh (omega arith)
