-- ===== src/Sync/Primitives.antt =====
-- What the functions of src/async_util.h and src/async_util.c call on each platform.
use lua_mtint.Base.{ℕ, ◌<◌, ◌≡◌, ◌≢◌, ◌⊎◌, Bool, true, false, ◌==◌, if◌then◌else◌}
use lua_mtint.Deadline.{TimeSpec}
use lua_mtint.Sync.{
  Thread, MutexState, Call, returned, blocks, may_take, taken, given_back, unlocked, Mutex,
  IsHeldBy,
}

-- POSIX threads. A function that returns a code has it first. The fields behind the functions are
-- what the standard says of a recursive mutex that is not taken more than `max_depth` times.
pub record PosixThreads : Type 0 where
  pub recursive_type : ℕ
  pub ebusy : ℕ
  pub etimedout : ℕ
  pub max_depth : ℕ
  pub mutexattr_init : ℕ × ℕ
  pub mutexattr_settype : (attr kind : ℕ) → ℕ × ℕ
  pub mutex_init : (attr : ℕ) → ℕ × MutexState
  pub mutex_lock : Thread → MutexState → Call (ℕ × MutexState)
  pub mutex_trylock : Thread → MutexState → ℕ × MutexState
  pub mutex_unlock : Thread → MutexState → ℕ × MutexState
  pub cond_init : ℕ
  pub cond_wait : Thread → MutexState → Call (ℕ × MutexState)
  pub cond_timedwait : Thread → MutexState → TimeSpec → ℕ × MutexState
  pub cond_signal : ℕ
  pub ebusy_law : ebusy ≢ 0
  pub settype_law :
      (attr kind : ℕ) → (mutexattr_settype attr kind).0 ≡ 0 → (mutexattr_settype attr kind).1 ≡ kind
  pub init_law : (mutex_init recursive_type).0 ≡ 0 → (mutex_init recursive_type).1 ≡ unlocked
  pub lock_law :
      (t : Thread) (m : MutexState)
      → m.recursive ≡ true
      → m.depth < max_depth
      → mutex_lock t m ≡ (if may_take t m then returned (0, taken t m) else blocks)
  pub trylock_law :
      (t : Thread) (m : MutexState)
      → m.recursive ≡ true
      → m.depth < max_depth
      → mutex_trylock t m ≡ (if may_take t m then (0, taken t m) else (ebusy, m))
  pub unlock_law :
      (t : Thread) (m : MutexState)
      → m.recursive ≡ true
      → m.owner ≡ t
      → 0 < m.depth
      → mutex_unlock t m ≡ (0, given_back m)
  -- Whatever the result of a wait, the thread has the mutex back.
  pub wait_law :
      (t : Thread) (m : MutexState)
      → IsHeldBy t m
      → (cond_wait t m ≡ blocks) ⊎ ((rc : ℕ) × (cond_wait t m ≡ returned (rc, m)))
  pub timedwait_law :
      (t : Thread) (m : MutexState) (until : TimeSpec)
      → IsHeldBy t m
      → (cond_timedwait t m until).1 ≡ m

-- Windows: critical sections, which are recursive, and events.
pub record WinThreads : Type 0 where
  pub wait_object_0 : ℕ
  pub wait_timeout : ℕ
  pub initialize_critical_section : MutexState
  pub enter_critical_section : Thread → MutexState → Call MutexState
  pub try_enter_critical_section : Thread → MutexState → ℕ × MutexState
  pub leave_critical_section : Thread → MutexState → MutexState
  pub infinite : ℕ
  pub create_event : Bool
  pub set_event : Bool
  pub get_last_error : ℕ
  -- A thread's wait for the event of a mutex, with what other threads did to the mutex in the meantime.
  pub wait_for_single_object : Thread → (millis : ℕ) → Mutex → Call (ℕ × Mutex)
  pub initialize_law : initialize_critical_section ≡ unlocked
  pub enter_law :
      (t : Thread) (m : MutexState)
      → m.recursive ≡ true
      → enter_critical_section t m ≡ (if may_take t m then returned (taken t m) else blocks)
  pub try_enter_law :
      (t : Thread) (m : MutexState)
      → m.recursive ≡ true
      → ((try_enter_critical_section t m).0 == 0) ≡ (if may_take t m then false else true)
  pub try_enter_state_law :
      (t : Thread) (m : MutexState)
      → m.recursive ≡ true
      → (try_enter_critical_section t m).1 ≡ (if may_take t m then taken t m else m)
  pub leave_law :
      (t : Thread) (m : MutexState)
      → m.recursive ≡ true
      → m.owner ≡ t
      → 0 < m.depth
      → leave_critical_section t m ≡ given_back m
  -- The critical section stays what it is, and no other thread takes it in the name of the one that
  -- waits.
  pub wait_recursive_law :
      (t : Thread) (millis : ℕ) (x : Mutex) (r : ℕ × Mutex)
      → wait_for_single_object t millis x ≡ returned r
      → x.mutex.recursive ≡ true
      → r.1.mutex.recursive ≡ true
  pub wait_owner_law :
      (t : Thread) (millis : ℕ) (x : Mutex) (r : ℕ × Mutex)
      → wait_for_single_object t millis x ≡ returned r
      → x.mutex.depth ≡ 0
      → (r.1.mutex.depth ≡ 0) ⊎ (r.1.mutex.owner ≢ t)

-- The threads of ISO C.
pub record StdThreads : Type 0 where
  pub thrd_success : ℕ
  pub thrd_busy : ℕ
  pub thrd_timedout : ℕ
  pub plain_recursive : ℕ
  pub mtx_init : (kind : ℕ) → ℕ × MutexState
  pub mtx_lock : Thread → MutexState → Call (ℕ × MutexState)
  pub mtx_trylock : Thread → MutexState → ℕ × MutexState
  pub mtx_unlock : Thread → MutexState → ℕ × MutexState
  pub cnd_init : ℕ
  pub cnd_wait : Thread → MutexState → Call (ℕ × MutexState)
  pub cnd_timedwait : Thread → MutexState → TimeSpec → ℕ × MutexState
  pub cnd_signal : ℕ
  pub busy_law : thrd_busy ≢ thrd_success
  pub init_law :
      (mtx_init plain_recursive).0 ≡ thrd_success → (mtx_init plain_recursive).1 ≡ unlocked
  pub lock_law :
      (t : Thread) (m : MutexState)
      → m.recursive ≡ true
      → mtx_lock t m ≡ (if may_take t m then returned (thrd_success, taken t m) else blocks)
  -- A mutex that the thread may take can be refused all the same.
  pub trylock_law :
      (t : Thread) (m : MutexState)
      → m.recursive ≡ true
      → may_take t m ≡ true
      → (mtx_trylock t m ≡ (thrd_success, taken t m)) ⊎ (mtx_trylock t m ≡ (thrd_busy, m))
  pub trylock_busy_law :
      (t : Thread) (m : MutexState)
      → m.recursive ≡ true
      → may_take t m ≡ false
      → mtx_trylock t m ≡ (thrd_busy, m)
  pub unlock_law :
      (t : Thread) (m : MutexState)
      → m.recursive ≡ true
      → m.owner ≡ t
      → 0 < m.depth
      → mtx_unlock t m ≡ (thrd_success, given_back m)
  pub wait_law :
      (t : Thread) (m : MutexState)
      → IsHeldBy t m
      → (cnd_wait t m ≡ blocks) ⊎ ((rc : ℕ) × (cnd_wait t m ≡ returned (rc, m)))
  pub timedwait_law :
      (t : Thread) (m : MutexState) (until : TimeSpec)
      → IsHeldBy t m
      → (cnd_timedwait t m until).1 ≡ m

pub record ThreadPrimitives : Type 0 where
  pub posix : PosixThreads
  pub win : WinThreads
  pub std : StdThreads
