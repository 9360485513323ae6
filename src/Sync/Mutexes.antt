-- ===== src/Sync/Mutexes.antt =====
-- The functions on Mutex of src/async_util.h and src/async_util.c, on each platform. Those that also
-- exist on Lock have the same statements there, on the field `mutex`.
use lua_mtint.Base.{
  ℕ, ◌+◌, ◌-◌, ◌<◌, ◌≡◌, ◌≢◌, ◌⊎◌, inl, inr, refl, arith, Bool, true, false, ◌||◌, ◌==◌, ltb,
  if◌then◌else◌, Bool-cases, ◌∙◌, ap,
}
use lua_mtint.Deadline.{deadline}
use lua_mtint.Sync.{
  Platform, pthread, winthread, stdthread, Thread, MutexState, Mutex, Call, returned, blocks,
  aborts, ◌>>=◌, expect, expect_try, may_take, taken, given_back, unlocked, IsHeldBy,
}
use lua_mtint.Sync.Primitives.{ThreadPrimitives}
use lua_mtint.Sync.Locks.{
  async_lock_init, async_lock_acquire, async_lock_tryacquire, async_lock_release,
  async_lock_init_lem, async_lock_acquire_lem, async_lock_tryacquire_lem, async_lock_release_lem,
}

module _ (p : ThreadPrimitives) where
  unfoldable pub async_mutex_init : Platform → Call Mutex
  async_mutex_init pthread = do
    m ← async_lock_init p pthread
    expect p.posix.cond_init 0 (record { mutex = m; waiting_counter = 0; event = false })
  async_mutex_init winthread = do
    m ← async_lock_init p winthread
    if p.win.create_event
        then returned (record { mutex = m; waiting_counter = 0; event = false })
        else aborts 0
  async_mutex_init stdthread = do
    m ← async_lock_init p stdthread
    expect p.std.cnd_init p.std.thrd_success
        (record { mutex = m; waiting_counter = 0; event = false })

  unfoldable pub async_mutex_lock : Platform → Thread → Mutex → Call Mutex
  async_mutex_lock b t x = do
    m ← async_lock_acquire p b t x.mutex
    returned (record x { mutex = m })

  pub async_mutex_trylock : Platform → Thread → Mutex → Call (Bool × Mutex)
  async_mutex_trylock b t x = do
    (done, m) ← async_lock_tryacquire p b t x.mutex
    returned (done, record x { mutex = m })

  unfoldable pub async_mutex_unlock : Platform → Thread → Mutex → Call Mutex
  async_mutex_unlock b t x = do
    m ← async_lock_release p b t x.mutex
    returned (record x { mutex = m })

  -- `mutex->waitingCounter += 1; LeaveCriticalSection(&mutex->mutex);`
  pub leave_to_wait : Thread → Mutex → Mutex
  leave_to_wait t x = record x {
    mutex = p.win.leave_critical_section t x.mutex;
    waiting_counter = x.waiting_counter + 1;
  }

  -- `EnterCriticalSection(&mutex->mutex); mutex->waitingCounter -= 1;`
  pub enter_after_wait : Thread → Mutex → Call Mutex
  enter_after_wait t x = do
    m ← p.win.enter_critical_section t x.mutex
    returned (record x { mutex = m; waiting_counter = x.waiting_counter - 1 })

  pub async_mutex_wait : Platform → Thread → Mutex → Call Mutex
  async_mutex_wait pthread t x = do
    (rc, m) ← p.posix.cond_wait t x.mutex
    expect rc 0 (record x { mutex = m })
  async_mutex_wait winthread t x = do
    (rc, y) ← p.win.wait_for_single_object t p.win.infinite (leave_to_wait t x)
    z ← enter_after_wait t y
    expect rc p.win.wait_object_0 z
  async_mutex_wait stdthread t x = do
    (rc, m) ← p.std.cnd_wait t x.mutex
    expect rc p.std.thrd_success (record x { mutex = m })

  -- `sec` and `usec` are the time of day.
  unfoldable pub async_mutex_wait_millis :
      Platform → Thread → (sec usec timeout_millis : ℕ) → Mutex → Call (Bool × Mutex)
  async_mutex_wait_millis pthread t sec usec timeout_millis x =
      let (rc, m) = p.posix.cond_timedwait t x.mutex (deadline sec usec timeout_millis) in
      expect_try rc 0 p.posix.etimedout (record x { mutex = m })
  async_mutex_wait_millis winthread t sec usec timeout_millis x = do
    (rc, y) ← p.win.wait_for_single_object t timeout_millis (leave_to_wait t x)
    z ← enter_after_wait t y
    expect_try rc p.win.wait_object_0 p.win.wait_timeout z
  async_mutex_wait_millis stdthread t sec usec timeout_millis x =
      let (rc, m) = p.std.cnd_timedwait t x.mutex (deadline sec usec timeout_millis) in
      expect_try rc p.std.thrd_success p.std.thrd_timedout (record x { mutex = m })

  pub async_mutex_notify : Platform → Mutex → Call Mutex
  async_mutex_notify pthread x = expect p.posix.cond_signal 0 x
  async_mutex_notify winthread x =
      if ltb 0 x.waiting_counter
      then (if p.win.set_event
          then returned (record x { event = true })
          else aborts p.win.get_last_error)
      else returned x
  async_mutex_notify stdthread x = expect p.std.cnd_signal p.std.thrd_success x

  -- After the wait for the event, the critical section is entered once, whatever other threads did.
  enter_after_wait-IsHeldBy :
      (t : Thread) (millis : ℕ) (x y : Mutex) (rc : ℕ)
      → IsHeldBy t x.mutex
      → p.win.wait_for_single_object t millis (leave_to_wait t x) ≡ returned (rc, y)
      → (enter_after_wait t y ≡ blocks)
        ⊎ ((z : Mutex) × (enter_after_wait t y ≡ returned z) × IsHeldBy t z.mutex)
  unfolding enter_after_wait leave_to_wait
  enter_after_wait-IsHeldBy t millis x y rc (rec', own, once) run =
      let left : (leave_to_wait t x).mutex ≡ given_back x.mutex =
        p.win.leave_law t x.mutex rec' own (omega arith) in
      let rec_y : y.mutex.recursive ≡ true =
        p.win.wait_recursive_law t millis (leave_to_wait t x) (rc, y) run (cc) in
      let free : (leave_to_wait t x).mutex.depth ≡ 0 =
        ap (λ (m : MutexState). m.depth) left ∙ omega arith in
      let foreign : (y.mutex.depth ≡ 0) ⊎ (y.mutex.owner ≢ t) =
        p.win.wait_owner_law t millis (leave_to_wait t x) (rc, y) run free in
      elim (Bool-cases (may_take t y.mutex)) [
        | inr taken_by_other ↦ inl (rw (p.win.enter_law t y.mutex rec_y) (rw taken_by_other refl))
        | inl open' ↦
            let none_held : y.mutex.depth ≡ 0 = ground (arith, foreign) in
            inr (
              record y { mutex = taken t y.mutex; waiting_counter = y.waiting_counter - 1 },
              rw (p.win.enter_law t y.mutex rec_y) (rw open' refl),
              (rec_y, refl, omega arith),
            )
      ]

  -- If the call returns, the thread holds the mutex, once.
  abbrev pub Kept : Thread → Call Mutex → Type 0
  Kept t (returned x) = IsHeldBy t x.mutex
  Kept t blocks = Unit {0}
  Kept t (aborts rc) = Unit {0}

  abbrev pub KeptTry : Thread → Call (Bool × Mutex) → Type 0
  KeptTry t (returned r) = IsHeldBy t r.1.mutex
  KeptTry t blocks = Unit {0}
  KeptTry t (aborts rc) = Unit {0}

  Kept-expect : (t : Thread) (rc ok : ℕ) (x : Mutex) → IsHeldBy t x.mutex → Kept t (expect rc ok x)
  Kept-expect t rc ok x held = elim (Bool-cases (rc == ok)) [ inl e ↦ rw e held | inr e ↦ rw e tt ]

  KeptTry-expect_try :
      (t : Thread) (rc ok busy : ℕ) (x : Mutex)
      → IsHeldBy t x.mutex
      → KeptTry t (expect_try rc ok busy x)
  KeptTry-expect_try t rc ok busy x held = elim (Bool-cases (rc == ok || rc == busy)) [
    | inl e ↦ rw e held
    | inr e ↦ rw e tt
  ]

  module _ (t : Thread) (x : Mutex) (held : IsHeldBy t x.mutex) where
    event_wait-Kept :
        (millis : ℕ) (c : Call (ℕ × Mutex))
        → p.win.wait_for_single_object t millis (leave_to_wait t x) ≡ c
        → Kept t (c >>= λ r. enter_after_wait t r.1 >>= λ z. expect r.0 p.win.wait_object_0 z)
    event_wait-Kept millis (returned (rc, y)) run =
        elim (enter_after_wait-IsHeldBy t millis x y rc held run) [
          | inl e ↦ rw e tt
          | inr (z, e, held_z) ↦ rw e (Kept-expect t rc p.win.wait_object_0 z held_z)
        ]
    event_wait-Kept millis blocks run = tt
    event_wait-Kept millis (aborts rc) run = tt

    event_wait-KeptTry :
        (millis : ℕ) (c : Call (ℕ × Mutex))
        → p.win.wait_for_single_object t millis (leave_to_wait t x) ≡ c
        → KeptTry t (
            c >>= λ r.
            enter_after_wait t r.1 >>= λ z. expect_try r.0 p.win.wait_object_0 p.win.wait_timeout z)
    event_wait-KeptTry millis (returned (rc, y)) run =
        elim (enter_after_wait-IsHeldBy t millis x y rc held run) [
          | inl e ↦ rw e tt
          | inr (z, e, held_z) ↦
              rw e (KeptTry-expect_try t rc p.win.wait_object_0 p.win.wait_timeout z held_z)
        ]
    event_wait-KeptTry millis blocks run = tt
    event_wait-KeptTry millis (aborts rc) run = tt

  -- async_mutex_wait of a thread that holds the mutex once: when it returns, on whichever platform and
  -- whatever other threads did, the thread holds the mutex once again.
  pub async_mutex_wait-Kept :
      (b : Platform) (t : Thread) (x : Mutex) → IsHeldBy t x.mutex → Kept t (async_mutex_wait b t x)
  unfolding async_mutex_wait
  async_mutex_wait-Kept pthread t x held = elim (p.posix.wait_law t x.mutex held) [
    | inl e ↦ rw e tt
    | inr (rc, e) ↦ rw e (Kept-expect t rc 0 x held)
  ]
  async_mutex_wait-Kept winthread t x held = event_wait-Kept t x held p.win.infinite _ refl
  async_mutex_wait-Kept stdthread t x held = elim (p.std.wait_law t x.mutex held) [
    | inl e ↦ rw e tt
    | inr (rc, e) ↦ rw e (Kept-expect t rc p.std.thrd_success x held)
  ]

  -- async_mutex_wait_millis of a thread that holds the mutex once: when it returns, with either result,
  -- on whichever platform and whatever other threads did, the thread holds the mutex once again.
  pub async_mutex_wait_millis-KeptTry :
      (b : Platform) (t : Thread) (sec usec timeout_millis : ℕ) (x : Mutex)
      → IsHeldBy t x.mutex
      → KeptTry t (async_mutex_wait_millis b t sec usec timeout_millis x)
  unfolding async_mutex_wait_millis
  async_mutex_wait_millis-KeptTry pthread t sec usec timeout_millis x held =
      rw (p.posix.timedwait_law t x.mutex (deadline sec usec timeout_millis) held)
        (KeptTry-expect_try t _ 0 p.posix.etimedout x held)
  async_mutex_wait_millis-KeptTry winthread t sec usec timeout_millis x held =
      event_wait-KeptTry t x held timeout_millis _ refl
  async_mutex_wait_millis-KeptTry stdthread t sec usec timeout_millis x held =
      rw (p.std.timedwait_law t x.mutex (deadline sec usec timeout_millis) held)
        (KeptTry-expect_try t _ p.std.thrd_success p.std.thrd_timedout x held)

  -- async_mutex_init makes a free recursive mutex that nobody waits for and whose event is not set, or
  -- ends the program.
  pub async_mutex_init_lem :
      (b : Platform)
      → (async_mutex_init b
          ≡ returned (record { mutex = unlocked; waiting_counter = 0; event = false }))
        ⊎ ((rc : ℕ) × (async_mutex_init b ≡ aborts rc))
  unfolding async_mutex_init
  async_mutex_init_lem pthread = elim (async_lock_init_lem p pthread) [
    | inr (rc, e, _) ↦ inr (rc, rw e refl)
    | inl e ↦ elim (Bool-cases (p.posix.cond_init == 0)) [
      | inl ok ↦ inl (rw e (rw ok refl))
      | inr failed ↦ inr (p.posix.cond_init, rw e (rw failed refl))
    ]
  ]
  async_mutex_init_lem winthread = elim (async_lock_init_lem p winthread) [
    | inr (rc, e, _) ↦ inr (rc, rw e refl)
    | inl e ↦ elim (Bool-cases p.win.create_event) [
      | inl ok ↦ inl (rw e (rw ok refl))
      | inr failed ↦ inr (0, rw e (rw failed refl))
    ]
  ]
  async_mutex_init_lem stdthread = elim (async_lock_init_lem p stdthread) [
    | inr (rc, e, _) ↦ inr (rc, rw e refl)
    | inl e ↦ elim (Bool-cases (p.std.cnd_init == p.std.thrd_success)) [
      | inl ok ↦ inl (rw e (rw ok refl))
      | inr failed ↦ inr (p.std.cnd_init, rw e (rw failed refl))
    ]
  ]

  -- A thread that may take a recursive mutex gets it at once. Then every other thread waits for it or
  -- is refused, and unlocking it gives back what was taken.
  pub async_mutex_lock-unlock :
      (b : Platform) (t u : Thread) (x : Mutex)
      → x.mutex.recursive ≡ true
      → x.mutex.depth + 1 < p.posix.max_depth
      → may_take t x.mutex ≡ true
      → u ≢ t
      → (async_mutex_lock b t x ≡ returned (record x { mutex = taken t x.mutex }))
        × (async_mutex_lock b u (record x { mutex = taken t x.mutex }) ≡ blocks)
        × (async_mutex_trylock b u (record x { mutex = taken t x.mutex })
            ≡ returned (false, record x { mutex = taken t x.mutex }))
        × (async_mutex_unlock b t (record x { mutex = taken t x.mutex })
            ≡ returned (record x { mutex = given_back (taken t x.mutex) }))
  unfolding async_mutex_lock async_mutex_trylock async_mutex_unlock
  async_mutex_lock-unlock b t u x rec' shallow open' other =
      let shut : may_take u (taken t x.mutex) ≡ false = ground arith in
      (
        rw (async_lock_acquire_lem p b t x.mutex rec' (omega arith)) (rw open' refl),
        rw (async_lock_acquire_lem p b u (taken t x.mutex) rec' (omega arith)) (rw shut refl),
        rw (async_lock_tryacquire_lem p b u (taken t x.mutex) rec' (omega arith) shut) refl,
        rw (async_lock_release_lem p b t (taken t x.mutex) rec' refl (omega arith)) refl,
      )
