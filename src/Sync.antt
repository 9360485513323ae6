-- ===== src/Sync.antt =====
-- The locks and mutexes of src/async_util.h and src/async_util.c: what they are made of on each
-- platform, and what they promise. Each function is given the thread that calls it.
pub mod Primitives
pub mod Locks
pub mod Mutexes
pub mod Monitor
pub mod Destruct
use lua_mtint.Base.{
  ℕ, ◌+◌, ◌-◌, ◌≡◌, Bool, true, false, ◌||◌, Option, none, some, ◌==◌, if◌then◌else◌,
}

-- Which macro MTINT_ASYNC_USE_PTHREAD, MTINT_ASYNC_USE_WINTHREAD or MTINT_ASYNC_USE_STDTHREAD is
-- defined.
pub data Platform : Type 0 where
  pthread : Platform
  winthread : Platform
  stdthread : Platform

abbrev pub Thread : Type 0
Thread = ℕ

-- What a mutex of the platform holds: the thread that owns it, and how often, with 0 for a mutex
-- that is free.
pub record MutexState : Type 0 where
  pub recursive : Bool
  pub owner : Thread
  pub depth : ℕ

-- A call returns, or waits for another thread, or ends the program in async_util_abort.
pub data Call (A : Type 0) : Type 0 where
  returned : A → Call A
  blocks : Call A
  aborts : (rc : ℕ) → Call A

infixl 5 ◌>>=◌
abbrev pub ◌>>=◌ : {A B : Type 0} → Call A → (A → Call B) → Call B
◌>>=◌ (returned a) k = k a
◌>>=◌ blocks k = blocks
◌>>=◌ (aborts rc) k = aborts rc

-- `if (rc != ok) { async_util_abort(rc, __LINE__); }`
abbrev pub expect : {A : Type 0} → (rc ok : ℕ) → A → Call A
expect rc ok a = if rc == ok then returned a else aborts rc

-- A result that is `ok` or `busy`, or else the end of the program.
abbrev pub expect_try : {A : Type 0} → (rc ok busy : ℕ) → A → Call (Bool × A)
expect_try rc ok busy a = if rc == ok || rc == busy then returned (rc == ok, a) else aborts rc

-- What a recursive mutex promises. A thread may take it that owns it, or any if it is free.
abbrev pub may_take : Thread → MutexState → Bool
may_take t m = m.depth == 0 || m.owner == t

abbrev pub taken : Thread → MutexState → MutexState
taken t m = record m { owner = t; depth = m.depth + 1 }

abbrev pub acquire_spec : Thread → MutexState → Call MutexState
acquire_spec t m = if may_take t m then returned (taken t m) else blocks

abbrev pub given_back : MutexState → MutexState
given_back m = record m { depth = m.depth - 1 }

abbrev pub unlocked : MutexState
unlocked = record { recursive = true; owner = 0; depth = 0 }

-- struct Mutex, with the condition variable of POSIX and ISO C left to the platform.
pub record Mutex : Type 0 where
  pub mutex : MutexState
  pub waiting_counter : ℕ
  pub event : Bool

-- Held once, by `t`.
abbrev pub IsHeldBy : Thread → MutexState → Type 0
IsHeldBy t m = (m.recursive ≡ true) × (m.owner ≡ t) × (m.depth ≡ 1)
