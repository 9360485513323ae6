-- ===== src/Sync/Destruct.antt =====
-- mtint_async_lock_destruct and mtint_async_mutex_destruct of src/async_util.c, and the mutex that a
-- thread makes for each round of the waiting loop in luaopen_mtint of src/main.c.
use lua_mtint.Base.{
  ℕ, ◌<◌, ◌≡◌, inl, inr, refl, sym, ◌∙◌, subst, arith, Bool, true, ◌&&◌, ◌==◌, false, List, [], ◌∷◌,
}
use lua_mtint.Sync.{
  Platform, pthread, winthread, stdthread, Thread, MutexState, Mutex, Call, returned, blocks,
  aborts, ◌>>=◌, taken, given_back, unlocked, IsHeldBy,
}
use lua_mtint.Sync.Primitives.{ThreadPrimitives}
use lua_mtint.Sync.Locks.{async_lock_acquire_lem, async_lock_release_lem}
use lua_mtint.Sync.Mutexes.{
  async_mutex_init, async_mutex_lock, async_mutex_unlock, async_mutex_wait_millis, KeptTry,
  async_mutex_wait_millis-KeptTry, async_mutex_init_lem,
}

-- A call that ends the life of a part of a lock or mutex, with the state of the mutex.
pub data Destruction : Type 0 where
  pthread_mutex_destroy : MutexState → Destruction
  pthread_mutexattr_destroy : Destruction
  pthread_cond_destroy : Destruction
  delete_critical_section : MutexState → Destruction
  close_handle : Destruction
  mtx_destroy : MutexState → Destruction
  cnd_destroy : Destruction

pub async_lock_destruct : Platform → MutexState → List Destruction
async_lock_destruct pthread m = pthread_mutex_destroy m ∷ pthread_mutexattr_destroy ∷ []
async_lock_destruct winthread m = delete_critical_section m ∷ []
async_lock_destruct stdthread m = mtx_destroy m ∷ []

unfoldable pub async_mutex_destruct : Platform → Mutex → List Destruction
async_mutex_destruct pthread x =
    pthread_cond_destroy ∷ pthread_mutex_destroy x.mutex ∷ pthread_mutexattr_destroy ∷ []
async_mutex_destruct winthread x = close_handle ∷ delete_critical_section x.mutex ∷ []
async_mutex_destruct stdthread x = cnd_destroy ∷ mtx_destroy x.mutex ∷ []

-- What the platforms ask for: POSIX leaves the destruction of a locked mutex undefined; the others
-- ask only that no other thread waits for the mutex.
abbrev pub IsDefined : Destruction → Type 0
IsDefined (pthread_mutex_destroy m) = m.depth ≡ 0
IsDefined d = Unit {0}

abbrev pub AllDefined : List Destruction → Type 0
AllDefined [] = Unit {0}
AllDefined (d ∷ ds) = IsDefined d × AllDefined ds

abbrev is_defined : Destruction → Bool
is_defined (pthread_mutex_destroy m) = m.depth == 0
is_defined d = true

-- Whether all are defined.
abbrev pub all_defined : List Destruction → Bool
all_defined [] = true
all_defined (d ∷ ds) = is_defined d && all_defined ds

module _ (p : ThreadPrimitives) where
  -- A round of the loop, up to the destruction of `waitMutex`.
  unfoldable pub wait_round : Platform → Thread → (sec usec : ℕ) → Call Mutex
  wait_round b t sec usec = do
    x ← async_mutex_init p b
    y ← async_mutex_lock p b t x
    r ← async_mutex_wait_millis p b t sec usec 1 y
    returned r.1

  KeptTry-returned :
      (t : Thread) (c : Call (Bool × Mutex)) (x : Mutex)
      → KeptTry p t c
      → (c >>= λ r. returned r.1) ≡ returned x
      → IsHeldBy t x.mutex
  KeptTry-returned t (returned r) x held e =
      let same : r.1 ≡ x = cc in subst (λ (z : Mutex). IsHeldBy t z.mutex) same held
  KeptTry-returned t blocks x held e = absurd (cc)
  KeptTry-returned t (aborts rc) x held e = absurd (cc)

  abbrev new_mutex : Mutex
  new_mutex = record { mutex = unlocked; waiting_counter = 0; event = false }

  lock-new_mutex :
      (b : Platform) (t : Thread)
      → 0 < p.posix.max_depth
      → async_mutex_lock p b t new_mutex ≡ returned (record new_mutex { mutex = taken t unlocked })
  unfolding async_mutex_lock
  lock-new_mutex b t deep = rw (async_lock_acquire_lem p b t unlocked refl deep) refl

  -- When a round comes to its end, the thread holds the mutex.
  wait_round-IsHeldBy :
      (b : Platform) (t : Thread) (sec usec : ℕ) (x : Mutex)
      → 0 < p.posix.max_depth
      → wait_round b t sec usec ≡ returned x
      → IsHeldBy t x.mutex
  unfolding wait_round
  wait_round-IsHeldBy b t sec usec x deep run = elim (async_mutex_init_lem p b) [
    | inr (rc, failed) ↦
        let ended : wait_round b t sec usec ≡ aborts rc = rw failed refl in absurd (cc)
    | inl made ↦
        let rest : wait_round b t sec usec
            ≡ (async_mutex_wait_millis p b t sec usec 1 locked >>= λ r. returned r.1) =
          rw made (rw (lock-new_mutex b t deep) refl) in
        KeptTry-returned t _ x
          (async_mutex_wait_millis-KeptTry p b t sec usec 1 locked (refl, refl, refl))
          (sym rest ∙ run)
  ]
    where
      locked : Mutex
      locked = record new_mutex { mutex = taken t unlocked }

  -- On POSIX, a thread that comes to the end of a round of the waiting loop in luaopen_mtint holds
  -- the mutex that async_mutex_destruct is then given, whose destruction POSIX leaves undefined. With
  -- an unlock in front, which would return, it would be defined.
  pub wait_round-undefined :
      (t : Thread) (sec usec : ℕ) (x : Mutex)
      → 0 < p.posix.max_depth
      → wait_round pthread t sec usec ≡ returned x
      → IsHeldBy t x.mutex
        × (¬ AllDefined (async_mutex_destruct pthread x))
        × (y : Mutex) × (async_mutex_unlock p pthread t x ≡ returned y)
        × AllDefined (async_mutex_destruct pthread y)
  unfolding async_mutex_destruct async_mutex_unlock
  wait_round-undefined t sec usec x deep run =
      let held : IsHeldBy t x.mutex = wait_round-IsHeldBy pthread t sec usec x deep run in
      (
        held,
        λ d. omega arith,
        record x { mutex = given_back x.mutex },
        rw (async_lock_release_lem p pthread t x.mutex held.0 held.1 (omega arith)) refl,
        (tt, (omega arith, (tt, tt))),
      )
