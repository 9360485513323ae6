-- ===== src/Atomic.antt =====
-- src/async_util.h: the atomic counters, as bit patterns of a 32-bit int.
pub mod Backends
use lua_mtint.Base.{ℕ, ◌+◌, ◌%◌, ◌-◌, ◌^◌}

-- atomic_inc and atomic_dec: the value stored, which is also the result.
unfoldable pub inc32 : ℕ → ℕ
inc32 v = (v + 1) % 2 ^ 32

unfoldable pub dec32 : ℕ → ℕ
dec32 v = (v + 2 ^ 32 - 1) % 2 ^ 32
