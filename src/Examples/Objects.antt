-- ===== src/Examples/Objects.antt =====
-- The theorems on references to objects, applied to a world with two objects.
use lua_mtint.Base.{zero, suc, ◌≡◌, ◌≢◌, ◌⊎◌, refl, arith, ◌==◌, true, none, some, if◌then◌else◌}
use lua_mtint.Base.Int.{pos}
use lua_mtint.Interruptible.Store.{Ptr, null}
use lua_mtint.Interruptible.Table.Valid.{Live, has_id}
use lua_mtint.Interruptible.Objects.{World, IntrUserData, no_hook, interrupt_hook2, boolean}
use lua_mtint.Interruptible.Objects.Interrupt.{IsReferenced, Interrupts, mtint_interrupt_lem}
use lua_mtint.Interruptible.Objects.Race.{Races, decrement_used-acquire}
use lua_mtint.Interruptible.Objects.Release.{Releases, mt_interruptible_release_lem}
use lua_mtint.Interruptible.Objects.Creation.{Refers, mtint_interruptible_lem, Creates, create_lem}
use lua_mtint.Examples.Stores.{first_object, two_objects, two_chains, two_objects-IsValid}

-- The main guard of the object at address 1.
abbrev pub guard : IntrUserData
guard = record { interruptible = 1; is_main_guard = true }

abbrev pub world : World
world = record {
  store = two_objects;
  udata = λ u. if u == 500 then some guard else none;
  hook = λ l. no_hook;
  lookup = λ l. if l == 50 then some 500 else none;
  mtint_id_counter = 3;
}

pub Live-cases : (q : Ptr) → Live 2 two_chains q → (q ≡ 1) ⊎ (q ≡ 2)
Live-cases q (zero, lt, inside) = absurd (ground arith)
Live-cases q (suc zero, lt, inside) = ground arith
Live-cases q (suc (suc i), lt, inside) = absurd (omega arith)

pub two_objects-IsReferenced : IsReferenced two_objects two_chains
two_objects-IsReferenced = record {
  initialized = λ q o live at. ground (arith, Live-cases q live);
  used = λ q o live at. (ground (arith, Live-cases q live), ground (arith, Live-cases q live));
}

mtint_interrupt_lem_example :
    Interrupts world two_objects-IsValid two_objects-IsReferenced 200
      (pos 3)
      refl
      (boolean true)
      interrupt_hook2
      refl
mtint_interrupt_lem_example =
    mtint_interrupt_lem world two_objects-IsValid two_objects-IsReferenced 200 (pos 3) refl
      (boolean true) interrupt_hook2 refl

mtint_interruptible_lem_example :
    Refers world two_objects-IsValid two_objects-IsReferenced (pos 1) refl 600
mtint_interruptible_lem_example =
    mtint_interruptible_lem world two_objects-IsValid two_objects-IsReferenced (pos 1) refl 600

one : guard.interruptible ≢ null
one = omega arith

mt_interruptible_release_lem_example :
    Releases world two_objects-IsValid 500 guard refl one first_object refl 200
mt_interruptible_release_lem_example =
    mt_interruptible_release_lem world two_objects-IsValid 500 guard refl one first_object refl 200
      (1, omega arith, refl) (omega arith) (omega arith) (omega arith) (λ ne. refl)

unused : ¬ (Live 2 two_chains 9)
unused live = ground (arith, Live-cases 9 live)

nine : 9 ≢ null
nine = omega arith

create_lem_example :
    Creates world two_objects-IsValid 600 9 70 true nine unused (omega arith) (omega arith) 200
create_lem_example =
    create_lem world two_objects-IsValid 600 9 70 true nine unused (omega arith) (omega arith) 200
      (λ ne. refl)

only_first : (q : Ptr) → Live 2 two_chains q → has_id two_objects.object (pos 1) q ≡ true → q ≡ 1
only_first q live same = ground (arith, Live-cases q live)

decrement_used-acquire_example :
    Races world two_objects-IsValid 1 first_object refl
      (1, omega arith, refl)
      refl
      refl
      refl
      only_first
decrement_used-acquire_example =
    decrement_used-acquire world two_objects-IsValid 1 first_object refl (1, omega arith, refl) refl
      refl refl only_first
