-- ===== src/Deadline.antt =====
-- The deadline that mtint_async_mutex_wait_millis of src/async_util.c computes, for a timeout that is
-- not negative. What gettimeofday returns is passed in.
use lua_mtint.Base.{ℕ, ◌+◌, ◌*◌, ◌/◌, ◌%◌, ◌<◌, ◌≡◌, arith}

-- struct timespec
pub record TimeSpec : Type 0 where
  pub tv_sec : ℕ
  pub tv_nsec : ℕ

abbrev pub billion : ℕ
billion = 1000 * 1000 * 1000

unfoldable pub deadline : (tv_sec tv_usec timeout_millis : ℕ) → TimeSpec
deadline sec usec timeout_millis =
    let tv_sec = sec + timeout_millis / 1000 in
    let tv_nsec = usec * 1000 + 1000 * 1000 * (timeout_millis % 1000) in
    record { tv_sec = tv_sec + tv_nsec / billion; tv_nsec = tv_nsec % billion }

-- The time in nanoseconds.
abbrev pub nanos : TimeSpec → ℕ
nanos t = t.tv_sec * billion + t.tv_nsec

-- The deadline is in the form that the system asks for, less than 10 ^ 9 nanoseconds behind a second,
-- and is later than the time of day by exactly the timeout.
pub nanos-deadline :
    (sec usec timeout_millis : ℕ)
    → ((deadline sec usec timeout_millis).tv_nsec < billion)
      × (nanos (deadline sec usec timeout_millis)
          ≡ sec * billion + usec * 1000 + timeout_millis * (1000 * 1000))
unfolding deadline
nanos-deadline sec usec timeout_millis = (omega arith, omega arith)
