-- ===== src/Interruptible/Objects/Accounting/Events.antt =====
-- What Lua calls, in any order: the user data that refer to objects, made, used, and finalised.
use lua_mtint.Base.{◌*◌, ℕ, ◌+◌, ◌^◌, ◌<◌, ◌≡◌, ◌≢◌, ◌⊎◌, Bool, none, some}
use lua_mtint.Base.Int.{ℤ}
use lua_mtint.Interruptible.Store.{Ptr, null}
use lua_mtint.Interruptible.Chain.{IsNat}
use lua_mtint.Interruptible.Table.{Chains}
use lua_mtint.Interruptible.Table.Grow.{IsCalloced}
use lua_mtint.Interruptible.Objects.{
  World, IntrUserData, LuaError, Outcome, returns, raises, then_do, Flag, assure_created,
  mtint_interruptible, mt_interruptible_release, guard_coroutine_release, mtint_interrupt,
  mt_interruptible_interrupt,
}
use lua_mtint.Interruptible.Objects.Accounting.{Accounted}

-- assureCreatedMtInterruptible, Mtint_interruptible, MtInterruptible_release, GuardCoroutine_release,
-- Mtint_interrupt with an id and MtInterruptible_interrupt
pub data Event : Type 0 where
  assures : (u intrp fresh l2 : Ptr) (is_main : Bool) → Event
  refers : (u : Ptr) (id : ℤ) → Event
  releases : (fresh u : Ptr) → Event
  guard_releases : (u : Ptr) → Event
  interrupts : (fresh : Ptr) (id : ℤ) (flag : Flag) → Event
  interrupts_with : (u : Ptr) (flag : Flag) → Event

abbrev pub done : {A : Type 0} → Outcome A → Outcome (Unit {0})
done o = then_do o (λ _ w. returns tt w)

unfoldable pub perform : Event → World → Outcome (Unit {0})
unfolding assure_created mtint_interruptible mt_interruptible_release guard_coroutine_release
    mtint_interrupt mt_interruptible_interrupt
perform (assures u intrp fresh l2 is_main) w = done (assure_created u intrp fresh l2 is_main w)
perform (refers u id) w = done (mtint_interruptible u id w)
perform (releases fresh u) w = mt_interruptible_release fresh u w
perform (guard_releases u) w = guard_coroutine_release u w
perform (interrupts fresh id flag) w = done (mtint_interrupt fresh id flag w)
perform (interrupts_with u flag) w = done (mt_interruptible_interrupt u flag w)

-- User data that exist.
abbrev pub Exists : ℕ → World → Ptr → Type 0
Exists n w u = (u < n) × ((d : IntrUserData) × (w.udata u ≡ some d))

-- What Lua and calloc promise: new user data and objects are where there were none, finalisers and
-- methods get user data that exist, methods get them before they are finalised, and the lookup table has user
-- data that exist. Memory is not so short that the first array cannot be had, and ids are left; an id
-- that is given is not negative; and user data are finalised while ten times the number of objects is
-- an int.
abbrev pub Allowed : ℕ → World → Event → Type 0
Allowed n w (assures u intrp fresh l2 is_main) =
    (u < n)
    × (w.udata u ≡ none)
    × (intrp ≢ null → w.store.object intrp ≡ none)
    × (w.mtint_id_counter + 1 < 2 ^ 31)
    × IsCalloced w.store fresh
    × ((fresh ≢ null) ⊎ (0 < w.store.interruptible_buckets))
    × ((v : Ptr) → w.lookup l2 ≡ some v → Exists n w v)
Allowed n w (refers u id) = (u < n) × (w.udata u ≡ none) × IsNat id
Allowed n w (releases fresh u) =
    Exists n w u × IsCalloced w.store fresh × (w.store.interruptible_counter * 10 < 2 ^ 31)
Allowed n w (guard_releases u) = Exists n w u
Allowed n w (interrupts fresh id flag) = IsNat id
Allowed n w (interrupts_with u flag) =
    (u < n) × ((d : IntrUserData) × (w.udata u ≡ some d) × (d.interruptible ≢ null))

-- It returns, or it raises an error.
abbrev pub Ends : Outcome (Unit {0}) → World → Type 0
Ends o w' = (o ≡ returns tt w') ⊎ ((x : LuaError) × (o ≡ raises x w'))

abbrev pub Keeps : ℕ → Outcome (Unit {0}) → Type 0
Keeps n o = (w' : World) × (chain' : Chains) × Ends o w' × Accounted n w' chain'
