-- ===== src/Examples/Sync.antt =====
-- Locks over primitives as their documentation has them, and a wait that is notified.
use lua_mtint.Base.{ℕ, ◌≡◌, ◌≢◌, inl, inr, refl, arith, true, false, ◌==◌, if◌then◌else◌, ap, ◌∙◌}
use lua_mtint.Sync.{
  pthread, winthread, MutexState, Mutex, Call, returned, blocks, may_take, taken, given_back,
  unlocked, IsHeldBy,
}
use lua_mtint.Sync.Primitives.{PosixThreads, WinThreads, StdThreads, ThreadPrimitives}
use lua_mtint.Sync.Locks.{async_lock_init, async_lock_acquire}
use lua_mtint.Sync.Destruct.{AllDefined, async_mutex_destruct, wait_round, wait_round-undefined}
use lua_mtint.Sync.Mutexes.{
  async_mutex_init, async_mutex_lock, async_mutex_trylock, async_mutex_unlock, async_mutex_wait,
  async_mutex_wait_millis, Kept, async_mutex_wait-Kept, async_mutex_lock-unlock,
}

abbrev posix : PosixThreads
posix = record {
  recursive_type = 1;
  ebusy = 16;
  etimedout = 110;
  max_depth = 1000;
  mutexattr_init = (0, 0);
  mutexattr_settype = λ attr kind. (0, kind);
  mutex_init = λ attr. (0, unlocked);
  mutex_lock = λ t m. if may_take t m then returned (0, taken t m) else blocks;
  mutex_trylock = λ t m. if may_take t m then (0, taken t m) else (16, m);
  mutex_unlock = λ t m. (0, given_back m);
  cond_init = 0;
  cond_wait = λ t m. returned (0, m);
  cond_timedwait = λ t m until. (110, m);
  cond_signal = 0;
  ebusy_law = omega arith;
  settype_law = λ attr kind ok. refl;
  init_law = λ ok. refl;
  lock_law = λ t m rec' shallow. refl;
  trylock_law = λ t m rec' shallow. refl;
  unlock_law = λ t m rec' own held. refl;
  wait_law = λ t m held. inr (0, refl);
  timedwait_law = λ t m until held. refl;
}

abbrev try_enter : ℕ → MutexState → ℕ × MutexState
try_enter t m = if may_take t m then (1, taken t m) else (0, m)

-- While the wait lasts, no other thread does anything.
abbrev wait_for_event : Mutex → Call (ℕ × Mutex)
wait_for_event x = if x.event then returned (0, record x { event = false }) else blocks

pub try_enter-result :
    (t : ℕ) (m : MutexState) → ((try_enter t m).0 == 0) ≡ (if may_take t m then false else true)
try_enter-result t m = ground arith

pub try_enter-state :
    (t : ℕ) (m : MutexState) → (try_enter t m).1 ≡ (if may_take t m then taken t m else m)
try_enter-state t m = ground arith

pub wait_for_event-mutex :
    (x : Mutex) (r : ℕ × Mutex) → wait_for_event x ≡ returned r → r.1.mutex ≡ x.mutex
wait_for_event-mutex x r run = ground (arith, run)

abbrev win : WinThreads
win = record {
  wait_object_0 = 0;
  wait_timeout = 258;
  infinite = 4294967295;
  create_event = true;
  set_event = true;
  get_last_error = 0;
  wait_for_single_object = λ t millis x. wait_for_event x;
  initialize_critical_section = unlocked;
  enter_critical_section = λ t m. if may_take t m then returned (taken t m) else blocks;
  try_enter_critical_section = try_enter;
  leave_critical_section = λ t m. given_back m;
  initialize_law = refl;
  enter_law = λ t m rec'. refl;
  try_enter_law = λ t m rec'. try_enter-result t m;
  try_enter_state_law = λ t m rec'. try_enter-state t m;
  leave_law = λ t m rec' own held. refl;
  wait_recursive_law = λ t millis x r run rec'.
      ap (λ (m : MutexState). m.recursive) (wait_for_event-mutex x r run) ∙ rec';
  wait_owner_law = λ t millis x r run free.
      inl (ap (λ (m : MutexState). m.depth) (wait_for_event-mutex x r run) ∙ free);
}

abbrev std : StdThreads
std = record {
  thrd_success = 0;
  thrd_busy = 1;
  thrd_timedout = 4;
  plain_recursive = 1;
  mtx_init = λ kind. (0, unlocked);
  mtx_lock = λ t m. if may_take t m then returned (0, taken t m) else blocks;
  mtx_trylock = λ t m. if may_take t m then (0, taken t m) else (1, m);
  mtx_unlock = λ t m. (0, given_back m);
  cnd_init = 0;
  cnd_wait = λ t m. returned (0, m);
  cnd_timedwait = λ t m until. (4, m);
  cnd_signal = 0;
  busy_law = omega arith;
  init_law = λ ok. refl;
  lock_law = λ t m rec'. refl;
  trylock_law = λ t m rec' open'. inl (rw open' refl);
  trylock_busy_law = λ t m rec' shut. rw shut refl;
  unlock_law = λ t m rec' own held. refl;
  wait_law = λ t m held. inr (0, refl);
  timedwait_law = λ t m until held. refl;
}

abbrev pub primitives : ThreadPrimitives
primitives = record { posix = posix; win = win; std = std }

-- Held twice by thread 5.
abbrev held_twice : MutexState
held_twice = record { recursive = true; owner = 5; depth = 2 }

abbrev held_mutex : Mutex
held_mutex = record {
  mutex = record { recursive = true; owner = 5; depth = 1 };
  waiting_counter = 0;
  event = true;
}

async_mutex_wait-Kept_example :
    Kept primitives 5 (async_mutex_wait primitives winthread 5 held_mutex)
async_mutex_wait-Kept_example =
    async_mutex_wait-Kept primitives winthread 5 held_mutex (refl, refl, refl)

abbrev taken_again : Mutex
taken_again = record held_mutex { mutex = taken 5 held_mutex.mutex }

six : ◌≢◌ {A = ℕ} 6 5
six = omega arith

async_mutex_lock-unlock_example :
    (async_mutex_lock primitives winthread 5 held_mutex ≡ returned taken_again)
    × (async_mutex_lock primitives winthread 6 taken_again ≡ blocks)
    × (async_mutex_trylock primitives winthread 6 taken_again ≡ returned (false, taken_again))
    × (async_mutex_unlock primitives winthread 5 taken_again
        ≡ returned (record held_mutex { mutex = given_back taken_again.mutex }))
async_mutex_lock-unlock_example =
    async_mutex_lock-unlock primitives winthread 5 6 held_mutex refl (omega arith) refl six

-- The mutex of a round of the waiting loop, as thread 5 has it after the wait.
abbrev waited : Mutex
waited = record {
  mutex = record { recursive = true; owner = 5; depth = 1 };
  waiting_counter = 0;
  event = false;
}

waited-run : wait_round primitives pthread 5 7 900000 ≡ returned waited
unfolding wait_round async_mutex_init async_lock_init async_mutex_lock async_lock_acquire
    async_mutex_wait_millis
waited-run = refl

wait_round-undefined_example :
    IsHeldBy 5 waited.mutex
    × (¬ AllDefined (async_mutex_destruct pthread waited))
    × (y : Mutex) × (async_mutex_unlock primitives pthread 5 waited ≡ returned y)
    × AllDefined (async_mutex_destruct pthread y)
wait_round-undefined_example =
    wait_round-undefined primitives 5 7 900000 waited (omega arith) waited-run
