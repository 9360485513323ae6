-- ===== src/Startup/Progress.antt =====
-- The steps of a thread up to the barrier of luaopen_mtint, where each round of the waiting loop comes to
-- its end: how far a step takes it, and what no step undoes.
pub mod Schedule
use lua_mtint.Base.{
  ℕ, suc, ◌+◌, ◌≡◌, ◌≢◌, ◌≤◌, ◌<◌, ◌⊎◌, ◌∙◌, refl, sym, ap, subst, arith, Bool, true, false, inl,
  inr, List, [], ◌∷◌, ◌++◌, ◌==◌, if◌then◌else◌, Bool-cases, eq_of_==,
}
use native.Mathlib.Decide.{dec_lt}
use lua_mtint.Sync.{Platform, pthread, winthread, stdthread, Mutex, Call, returned}
use lua_mtint.Sync.Primitives.{ThreadPrimitives}
use lua_mtint.Sync.Destruct.{async_mutex_destruct, all_defined, wait_round}
use lua_mtint.Startup.{
  Stage, check_stage, compete, init_mutex, set_global_lock, finish, wait, body, entered, aborted,
  undefined, Loading, step, step_from, end_round, unloaded, Reachable, start, next, is_early,
  is_winner, idle, busy, done, Phase-Reachable,
}

-- A thread that takes a step, and the time of day at which it does.
pub record Turn : Type 0 where
  pub thread : ℕ
  pub sec : ℕ
  pub usec : ℕ

-- The threads of a schedule take their steps one after another.
unfoldable pub run : ThreadPrimitives → Platform → List Turn → Loading → Loading
run p b [] s = s
run p b (k ∷ l) s = run p b l (step p b k.sec k.usec k.thread s)

abbrev pub occurrences : ℕ → List Turn → ℕ
occurrences t [] = 0
occurrences t (k ∷ l) = if k.thread == t then suc (occurrences t l) else occurrences t l

-- How far a thread is.
abbrev level : Stage → ℕ
level check_stage = 0
level compete = 1
level init_mutex = 2
level set_global_lock = 3
level finish = 4
level _ = 5

-- How many steps of its own a thread needs when the initialisation is done.
abbrev distance : Stage → ℕ
distance wait = 1
distance body = 2
distance entered = 0
distance _ = 3

abbrev is_lost : Stage → Bool
is_lost aborted = true
is_lost undefined = true
is_lost _ = false

abbrev Safe : Loading → Type 0
Safe s = (q : ℕ) → is_lost (s.at q) ≡ false

-- No thread waits before another has begun the initialisation.
abbrev Waits : Loading → Type 0
Waits s = (q : ℕ) → 5 ≤ level (s.at q) → s.init_stage ≢ 0

-- Only POSIX leaves the destruction of a locked mutex undefined.
destruct-defined :
    (b : Platform) (x : Mutex) → b ≢ pthread → all_defined (async_mutex_destruct b x) ≡ true
unfolding async_mutex_destruct
destruct-defined pthread x ne = absurd (ne refl)
destruct-defined winthread x ne = refl
destruct-defined stdthread x ne = refl

-- A round that returns leads back to the test of the loop.
module _ (b : Platform) (plain : b ≢ pthread) (r : Call Mutex) (x : Mutex) (e : r ≡ returned x)
    (t : ℕ) (s : Loading) where
  end_round-wait : end_round b r t s ≡ record s { at = λ q. if t == q then wait else s.at q }
  end_round-wait = rw e (rw (destruct-defined b x plain) refl)

  step-other : (q : ℕ) (c : Stage) → t ≢ q → (step_from b r c t s).at q ≡ s.at q
  unfolding step_from
  step-other q body ne = ap (λ (z : Loading). z.at q) end_round-wait ∙ ground arith
  step-other q check_stage ne = ground arith
  step-other q _ ne = ground arith

  -- A step of its own takes a thread further, up to the waiting loop.
  step-level :
      (c : Stage)
      → s.at t ≡ c
      → (level c ≤ level ((step_from b r c t s).at t))
        × ((level c + 1 ≤ level ((step_from b r c t s).at t)) ⊎ (5 ≤ level c))
  unfolding step_from
  step-level body at = rw end_round-wait (ground arith)
  step-level check_stage at = ground arith
  step-level _ at = ground arith

  step-Safe : (c : Stage) → s.at t ≡ c → Safe s → Safe (step_from b r c t s)
  unfolding step_from
  step-Safe body at safe q = rw end_round-wait (ground (arith, safe q))
  step-Safe check_stage at safe q = ground (arith, safe q)
  step-Safe _ at safe q = ground (arith, safe q)

  step-Waits : (c : Stage) → s.at t ≡ c → Waits s → Waits (step_from b r c t s)
  unfolding step_from
  step-Waits body at w q = rw end_round-wait (ground (arith, w q, w t))
  step-Waits check_stage at w q = ground (arith, w q)
  step-Waits _ at w q = ground (arith, w q, w t)

  step-done : (c : Stage) → s.init_stage ≡ 2 → (step_from b r c t s).init_stage ≡ 2
  unfolding step_from
  step-done body two = rw end_round-wait two
  step-done check_stage two = ground arith
  step-done _ two = ground arith

  step-distance :
      (c : Stage)
      → s.at t ≡ c
      → s.init_stage ≡ 2
      → 5 ≤ level c
      → is_lost c ≡ false
      → (5 ≤ level ((step_from b r c t s).at t))
        × (distance ((step_from b r c t s).at t) ≤ distance c)
        × ((distance ((step_from b r c t s).at t) + 1 ≤ distance c) ⊎ (distance c ≡ 0))
  unfolding step_from
  step-distance body at two high safe = rw end_round-wait (ground arith)
  step-distance check_stage at two high safe = absurd (omega arith)
  step-distance _ at two high safe = ground arith
