-- ===== src/Util/MemBuffer/Reserve.antt =====
-- mtint_membuf_reserve keeps the contents, and makes room where it says so.
use lua_mtint.Base.{ℕ, ◌+◌, ◌*◌, ◌^◌, ◌≤◌, ◌<◌, ◌≡◌, ◌≢◌, arith, true, none, some}
use lua_mtint.Util.MemBuffer.{
  MemBuffer, GrowFactor, Allocator, ReserveResult, ready, membuf_reserve, membuf_init, membuf_free,
}

-- The bytes in use lie in the block; without a block there are none.
pub record IsValid (b : MemBuffer) : Type 0 where
  pub fits : b.start + b.buffer_length ≤ b.buffer_capacity
  pub empty : b.buffer_data ≡ none → b.buffer_capacity ≡ 0

-- Byte `i` of those in use.
abbrev pub content : MemBuffer → ℕ → ℕ
content b i = elim b.buffer_data [ none ↦ 0 | some d ↦ d (b.start + i) ]

-- What reserve promises, by its result.
pub record Reserved (b : MemBuffer) (additional : ℕ) (r : ReserveResult) (b' : MemBuffer)
    : Type 0 where
  pub valid : IsValid b'
  pub same_length : b'.buffer_length ≡ b.buffer_length
  pub same_content : (i : ℕ) → i < b.buffer_length → content b' i ≡ content b i
  pub room : r ≡ ready → b'.start + b'.buffer_length + additional ≤ b'.buffer_capacity
  pub no_growth : r ≢ ready → b'.buffer_capacity ≡ b.buffer_capacity
  pub reason : r ≢ ready → b.buffer_capacity < b.buffer_length + additional

module _ (m : Allocator) (g : GrowFactor) where
  -- Where no size wraps, the buffer stays valid and keeps its contents whatever the result; 0 means
  -- that there is room, and 1 or 2 that the block is as large as before, and too small.
  pub membuf_reserve-Reserved :
      (b : MemBuffer) (additional : ℕ)
      → IsValid b
      → b.start + 2 * (b.buffer_length + additional) < 2 ^ 64
      → Reserved b additional
          (membuf_reserve m g b additional).0
          (membuf_reserve m g b additional).1
  unfolding membuf_reserve
  membuf_reserve-Reserved b additional v small = record {
    valid = record { fits = ground arith; empty = ground arith };
    same_length = ground arith;
    same_content = λ i lt. ground arith;
    room = ground arith;
    no_growth = ground arith;
    reason = ground arith;
  }

  -- Where the sum of the lengths wraps, the request is granted although there is no room for it.
  pub membuf_reserve-wraps :
      (b : MemBuffer) (additional : ℕ)
      → IsValid b
      → b.buffer_capacity < 2 ^ 64
      → additional < 2 ^ 64
      → 2 ^ 64 ≤ b.buffer_length + additional
      → (membuf_reserve m g b additional ≡ (ready, b))
        × (b.buffer_capacity < b.start + b.buffer_length + additional)
  unfolding membuf_reserve
  membuf_reserve-wraps b additional v below asked wraps = (ground arith, omega (arith, v.fits))

-- A buffer that mtint_membuf_init made is valid and has no bytes in use; if true is returned, it has the
-- capacity that was asked for.
pub membuf_init-IsValid :
    (m : Allocator) (capacity : ℕ)
    → IsValid (membuf_init m capacity).1
      × ((membuf_init m capacity).0 ≡ true → capacity ≤ (membuf_init m capacity).1.buffer_capacity)
      × ((membuf_init m capacity).1.buffer_length ≡ 0)
unfolding membuf_init
membuf_init-IsValid m capacity =
    (record { fits = ground arith; empty = ground arith }, ground arith, ground arith)

-- A valid buffer is still valid after mtint_membuf_free, which leaves no block and no bytes in use.
pub membuf_free-IsValid :
    (b : MemBuffer)
    → IsValid b
    → IsValid (membuf_free b)
      × ((membuf_free b).buffer_data ≡ none)
      × ((membuf_free b).buffer_length ≡ 0)
unfolding membuf_free
membuf_free-IsValid b v =
    (record { fits = ground arith; empty = ground arith }, ground arith, ground arith)
