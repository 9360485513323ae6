-- ===== src/Interruptible/Objects.antt =====
-- The functions of src/interruptible.c that Lua calls, each as it runs when no other thread
-- intervenes. What lua_newuserdata and calloc return is passed in.
pub mod Touch
pub mod Interrupt
pub mod Release
pub mod Creation
pub mod Race
pub mod Holders
pub mod Hooks
pub mod Description
pub mod Accounting
pub mod Signals
use lua_mtint.Base.{ℕ, Bool, true, false, ◌&&◌, ◌||◌, not, ◌==◌, Option, none, some, if◌then◌else◌}
use lua_mtint.Base.Int.{ℤ, signed32}
use lua_mtint.Atomic.{inc32, dec32}
use lua_mtint.Errors.{Raise, error_unknown_object_interruptible_id, error_out_of_memory}
use lua_mtint.Interruptible.Store.{
  Ptr, null, null_slot, MtInterruptible, Store, Fault, bad_pointer, ok, fault, Run, Cmd, load,
  modify, put_object, update,
}
use lua_mtint.Interruptible.Buckets.{find_interruptible_with_id, mt_interruptible_free, register}

-- A hook of this file, or none.
pub data Hook : Type 0 where
  no_hook : Hook
  interrupt_hook1 : Hook
  interrupt_hook2 : Hook

pub record IntrUserData : Type 0 where
  pub interruptible : Ptr
  pub is_main_guard : Bool

-- The static variables and objects; the user data by their addresses; the hook of each Lua state;
-- the lookup table, from a Lua state to the user data of its guard; and the counter for ids.
pub record World : Type 0 where
  pub store : Store
  pub udata : Ptr → Option IntrUserData
  pub hook : Ptr → Hook
  pub lookup : Ptr → Option Ptr
  pub mtint_id_counter : ℕ

-- luaL_argerror, or one of the errors of src/error.c
pub data LuaError : Type 0 where
  arg_error : (arg : ℕ) → LuaError
  raised : Raise → LuaError

pub data Outcome (A : Type 0) : Type 0 where
  returns : A → World → Outcome A
  raises : LuaError → World → Outcome A
  faults : Fault → Outcome A

abbrev pub on_store : {A B : Type 0} → World → Run A → (A → World → Outcome B) → Outcome B
on_store w (ok a s) k = k a (record w { store = s })
on_store w (fault e) k = faults e

abbrev pub then_do : {A B : Type 0} → Outcome A → (A → World → Outcome B) → Outcome B
then_do (returns a w) k = k a w
then_do (raises e w) k = raises e w
then_do (faults e) k = faults e

-- An optional argument that should be a boolean.
pub data Flag : Type 0 where
  none_or_nil : Flag
  boolean : Bool → Flag
  other : Flag

abbrev pub hook_of : Flag → Option Hook
hook_of none_or_nil = some interrupt_hook1
hook_of (boolean true) = some interrupt_hook2
hook_of (boolean false) = some no_hook
hook_of other = none

abbrev pub set_hook : Ptr → Hook → World → World
set_hook l2 h w = record w { hook = update w.hook l2 h }

abbrev pub set_udata : Ptr → IntrUserData → World → World
set_udata u d w = record w { udata = update w.udata u (some d) }

-- mtint_interrupt
unfoldable pub signal : Ptr → Hook → World → Outcome Bool
unfolding load
signal intrp h w =
    on_store w (load intrp w.store)
      (λ o w'. if o.l2 == null then returns false w' else returns true (set_hook o.l2 h w'))

-- The user data at `u`, which luaL_checkudata found.
unfoldable pub check_udata : Ptr → World → Outcome IntrUserData
check_udata u w = elim (w.udata u) [ none ↦ faults bad_pointer | some d ↦ returns d w ]

-- MtInterruptible_interrupt, and Mtint_interrupt where it is given an object
unfoldable pub mt_interruptible_interrupt : (u : Ptr) → Flag → World → Outcome Bool
unfolding check_udata signal
mt_interruptible_interrupt u flag w = then_do (check_udata u w) (λ d w'. elim (hook_of flag) [
  | none ↦ raises (arg_error 2) w'
  | some h ↦ signal d.interruptible h w'
])

-- Finds an object for a caller that is to hold a reference to it: lines 362-372 and 532-541.
unfoldable pub acquire : (id : ℤ) → World → Outcome Ptr
unfolding load modify
acquire id w = on_store w (find_interruptible_with_id id w.store) (λ intrp w1.
    if intrp == null
    then raises (raised (error_unknown_object_interruptible_id id)) w1
    else on_store w1 (load intrp w1.store) (λ o w2.
      if not o.initialized
      then raises (raised (error_unknown_object_interruptible_id id)) w2
      else on_store w2 (modify intrp (λ o'. record o' { used = inc32 o'.used }) w2.store)
          (λ _ w3. returns intrp w3)))

-- `atomic_dec(&intrp->used)` and its result
unfoldable pub decrement_used : Ptr → World → Outcome ℕ
unfolding load modify
decrement_used intrp w = on_store w (load intrp w.store) (λ o w1.
    on_store w1 (modify intrp (λ o'. record o' { used = dec32 o'.used }) w1.store)
      (λ _ w2. returns (dec32 o.used) w2))

-- Mtint_interrupt where it is given an id
unfoldable pub mtint_interrupt : (fresh : Ptr) (id : ℤ) → Flag → World → Outcome Bool
unfolding acquire signal decrement_used
mtint_interrupt fresh id flag w = elim (hook_of flag) [
  | none ↦ raises (arg_error 2) w
  | some h ↦ then_do (acquire id w) (λ intrp w1. then_do (signal intrp h w1) (λ signaled w2.
      then_do (decrement_used intrp w2) (λ left w3.
        if left == 0
        then on_store w3 (mt_interruptible_free fresh intrp w3.store) (λ _ w4. returns signaled w4)
        else returns signaled w3)))
]

-- `u` is the new user data.
unfoldable pub mtint_interruptible : (u : Ptr) (id : ℤ) → World → Outcome Ptr
unfolding acquire
mtint_interruptible u id w =
    then_do (acquire id (set_udata u (record { interruptible = null; is_main_guard = false }) w))
      (λ intrp w1.
        returns u (set_udata u (record { interruptible = intrp; is_main_guard = false }) w1))

-- `intrp->L2 = NULL`, under the lock of the object
unfoldable pub clear_l2 : Ptr → World → Outcome (Unit {0})
unfolding modify
clear_l2 intrp w =
    on_store w (modify intrp (λ o. record o { l2 = null }) w.store) (λ _ w1. returns tt w1)

unfoldable pub mt_interruptible_release : (fresh : Ptr) (u : Ptr) → World → Outcome (Unit {0})
unfolding check_udata decrement_used clear_l2
mt_interruptible_release fresh u w = then_do (check_udata u w) (λ d w0.
    if d.interruptible == null
    then returns tt w0
    else then_do (decrement_used d.interruptible w0) (λ left w1.
      then_do
        (if left == 0
          then on_store w1 (mt_interruptible_free fresh d.interruptible w1.store)
              (λ _ w2. returns tt w2)
          else if d.is_main_guard
          then clear_l2 d.interruptible w1
          else returns tt w1)
        (λ _ w2. returns tt (set_udata u (record d { interruptible = null }) w2))))

-- GuardCoroutine_release; `u` is the user data in the guard.
unfoldable pub guard_coroutine_release : (u : Ptr) → World → Outcome (Unit {0})
unfolding check_udata clear_l2
guard_coroutine_release u w =
    then_do (check_udata u w)
      (λ d w0. if d.interruptible == null then returns tt w0 else clear_l2 d.interruptible w0)

unfoldable pub mt_interruptible_id : (u : Ptr) → World → Outcome ℤ
unfolding check_udata load
mt_interruptible_id u w =
    then_do (check_udata u w)
      (λ d w0. on_store w0 (load d.interruptible w0.store) (λ o w1. returns o.id w1))

-- What calloc gives for a new object.
abbrev pub blank : ℤ → MtInterruptible
blank id = record {
  id = id;
  used = 1;
  initialized = false;
  l2 = null;
  prev_interruptible_ptr = null_slot;
  next_interruptible = null;
}

-- The part of assureCreatedMtInterruptible that makes the object: `u`, `intrp` and `fresh` are what
-- lua_newuserdata and the two calls of calloc return.
unfoldable pub create : (u intrp fresh l2 : Ptr) (is_main : Bool) → World → Outcome Ptr
create u intrp fresh l2 is_main w =
    let w0 = set_udata u (record { interruptible = null; is_main_guard = false }) w in
    if intrp == null
    then raises (raised error_out_of_memory) w0
    else let counter = inc32 w0.mtint_id_counter in
      let w1 = record w0 {
        store = put_object intrp (blank (signed32 counter)) w0.store;
        mtint_id_counter = counter;
        lookup = update w0.lookup l2 (some u);
      } in
      let w2 = set_udata u (record { interruptible = intrp; is_main_guard = is_main }) w1 in
      on_store w2 (register fresh intrp l2 w2.store)
        (λ done w3. if done then returns u w3 else raises (raised error_out_of_memory) w3)

-- The test with which assureCreatedMtInterruptible begins: the user data that may be used again.
unfoldable pub existing : (l2 : Ptr) → World → Outcome (Option Ptr)
unfolding check_udata load
existing l2 w = elim (w.lookup l2) [
  | none ↦ returns none w
  | some u ↦ then_do (check_udata u w) (λ d w0.
      if d.interruptible == null
      then returns none w0
      else on_store w0 (load d.interruptible w0.store)
          (λ o w1. returns (if o.l2 == l2 then some u else none) w1))
]

unfoldable pub assure_created : (u intrp fresh l2 : Ptr) (is_main : Bool) → World → Outcome Ptr
unfolding create existing
assure_created u intrp fresh l2 is_main w =
    then_do (existing l2 w)
      (λ found w0. elim found [ some v ↦ returns v w0 | none ↦ create u intrp fresh l2 is_main w0 ])

unfoldable pub mtint_id : (u intrp fresh l2 : Ptr) (is_main : Bool) → World → Outcome ℤ
unfolding assure_created mt_interruptible_id
mtint_id u intrp fresh l2 is_main w =
    then_do (assure_created u intrp fresh l2 is_main w) (λ v w1. mt_interruptible_id v w1)
