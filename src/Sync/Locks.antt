-- ===== src/Sync/Locks.antt =====
-- The functions on Lock of src/async_util.h and src/async_util.c, on each platform.
use lua_mtint.Base.{
  ℕ, ◌<◌, ◌≡◌, ◌≢◌, ◌⊎◌, inl, inr, refl, arith, Bool, true, false, not, ◌==◌, Bool-cases, eq_of_==,
  ap,
}
use lua_mtint.Sync.{
  Platform, pthread, winthread, stdthread, Thread, MutexState, Call, returned, aborts, ◌>>=◌,
  expect, expect_try, acquire_spec, may_take, given_back, unlocked,
}
use lua_mtint.Sync.Primitives.{ThreadPrimitives}

module _ (p : ThreadPrimitives) where
  unfoldable pub async_lock_init : Platform → Call MutexState
  async_lock_init pthread = do
    attr ← expect p.posix.mutexattr_init.0 0 p.posix.mutexattr_init.1
    let typed = p.posix.mutexattr_settype attr p.posix.recursive_type
    attr' ← expect typed.0 0 typed.1
    let made = p.posix.mutex_init attr'
    expect made.0 0 made.1
  async_lock_init winthread = returned p.win.initialize_critical_section
  async_lock_init stdthread =
      let made = p.std.mtx_init p.std.plain_recursive in expect made.0 p.std.thrd_success made.1

  unfoldable pub async_lock_acquire : Platform → Thread → MutexState → Call MutexState
  async_lock_acquire pthread t m = do (rc, m') ← p.posix.mutex_lock t m; expect rc 0 m'
  async_lock_acquire winthread t m = p.win.enter_critical_section t m
  async_lock_acquire stdthread t m = do
    (rc, m') ← p.std.mtx_lock t m
    expect rc p.std.thrd_success m'

  pub async_lock_tryacquire : Platform → Thread → MutexState → Call (Bool × MutexState)
  async_lock_tryacquire pthread t m =
      let (rc, m') = p.posix.mutex_trylock t m in expect_try rc 0 p.posix.ebusy m'
  async_lock_tryacquire winthread t m =
      let (done, m') = p.win.try_enter_critical_section t m in returned (not (done == 0), m')
  async_lock_tryacquire stdthread t m =
      let (rc, m') = p.std.mtx_trylock t m in expect_try rc p.std.thrd_success p.std.thrd_busy m'

  pub async_lock_release : Platform → Thread → MutexState → Call MutexState
  async_lock_release pthread t m = let (rc, m') = p.posix.mutex_unlock t m in expect rc 0 m'
  async_lock_release winthread t m = returned (p.win.leave_critical_section t m)
  async_lock_release stdthread t m =
      let (rc, m') = p.std.mtx_unlock t m in expect rc p.std.thrd_success m'

  -- async_lock_init makes a free recursive lock, or ends the program with a code that is no success;
  -- on Windows it always makes one.
  pub async_lock_init_lem :
      (b : Platform)
      → (async_lock_init b ≡ returned unlocked)
        ⊎ ((rc : ℕ) × (async_lock_init b ≡ aborts rc) × (b ≢ winthread))
  unfolding async_lock_init
  async_lock_init_lem pthread = elim (Bool-cases (p.posix.mutexattr_init.0 == 0)) [
    | inr failed ↦ inr (p.posix.mutexattr_init.0, rw failed refl, λ e. cc)
    | inl made ↦
        let typed = p.posix.mutexattr_settype p.posix.mutexattr_init.1 p.posix.recursive_type in
        elim (Bool-cases (typed.0 == 0)) [
          | inr failed ↦ inr (typed.0, rw made (rw failed refl), λ e. cc)
          | inl set ↦
              let same : typed.1 ≡ p.posix.recursive_type =
                p.posix.settype_law _ _ (eq_of_== _ _ set) in
              elim (Bool-cases ((p.posix.mutex_init p.posix.recursive_type).0 == 0)) [
                | inr failed ↦ inr (
                  (p.posix.mutex_init p.posix.recursive_type).0,
                  rw made (rw set (rw same (rw failed refl))),
                  λ e. cc,
                )
                | inl ok ↦ inl (
                    rw made
                      (rw set (rw same (rw ok (ap returned (p.posix.init_law (eq_of_== _ _ ok)))))))
              ]
        ]
  ]
  async_lock_init_lem winthread = inl (ap returned p.win.initialize_law)
  async_lock_init_lem stdthread =
      elim (Bool-cases ((p.std.mtx_init p.std.plain_recursive).0 == p.std.thrd_success)) [
        | inl ok ↦ inl (rw ok (ap returned (p.std.init_law (eq_of_== _ _ ok))))
        | inr failed ↦ inr ((p.std.mtx_init p.std.plain_recursive).0, rw failed refl, λ e. cc)
      ]

  -- For a lock that is taken fewer times than the platform allows, a thread takes it if it is free or
  -- its own, and otherwise waits.
  pub async_lock_acquire_lem :
      (b : Platform) (t : Thread) (m : MutexState)
      → m.recursive ≡ true
      → m.depth < p.posix.max_depth
      → async_lock_acquire b t m ≡ acquire_spec t m
  unfolding async_lock_acquire
  async_lock_acquire_lem pthread t m rec' shallow = ground (arith, p.posix.lock_law t m)
  async_lock_acquire_lem winthread t m rec' shallow = p.win.enter_law t m rec'
  async_lock_acquire_lem stdthread t m rec' shallow = ground (arith, p.std.lock_law t m)

  -- A lock that another thread has is refused.
  pub async_lock_tryacquire_lem :
      (b : Platform) (t : Thread) (m : MutexState)
      → m.recursive ≡ true
      → m.depth < p.posix.max_depth
      → may_take t m ≡ false
      → async_lock_tryacquire b t m ≡ returned (false, m)
  unfolding async_lock_tryacquire
  async_lock_tryacquire_lem pthread t m rec' shallow shut =
      ground (arith, p.posix.trylock_law t m, p.posix.ebusy_law, shut)
  async_lock_tryacquire_lem winthread t m rec' shallow shut =
      ground (arith, p.win.try_enter_law t m, p.win.try_enter_state_law t m, shut)
  async_lock_tryacquire_lem stdthread t m rec' shallow shut =
      ground (arith, p.std.trylock_busy_law t m, p.std.busy_law, shut)

  -- On every platform the thread that owns a recursive lock gives it back, once, by
  -- async_lock_release, which does not end the program.
  pub async_lock_release_lem :
      (b : Platform) (t : Thread) (m : MutexState)
      → m.recursive ≡ true
      → m.owner ≡ t
      → 0 < m.depth
      → async_lock_release b t m ≡ returned (given_back m)
  unfolding async_lock_release
  async_lock_release_lem pthread t m rec' own held = ground (arith, p.posix.unlock_law t m)
  async_lock_release_lem winthread t m rec' own held =
      ap returned (p.win.leave_law t m rec' own held)
  async_lock_release_lem stdthread t m rec' own held = ground (arith, p.std.unlock_law t m)
