-- ===== src/Util/MemBuffer.antt =====
-- The growing byte buffer of src/util.c: mtint_membuf_init, mtint_membuf_free and
-- mtint_membuf_reserve. A size_t is a number below 2 ^ 64, with its wrap-around written out.
pub mod Reserve
use lua_mtint.Base.{
  ℕ, ◌+◌, ◌*◌, ◌%◌, ◌^◌, Bool, true, false, Option, none, some, ltb, if◌then◌else◌,
}

-- The bytes of a block, by their offsets.
abbrev pub Bytes : Type 0
Bytes = ℕ → ℕ

-- struct MemBuffer, less `growFactor`. `start` is `bufferStart - bufferData`.
pub record MemBuffer : Type 0 where
  pub buffer_data : Option Bytes
  pub start : ℕ
  pub buffer_length : ℕ
  pub buffer_capacity : ℕ

-- What the code asks of `growFactor`, a floating-point number: whether it is positive, and the
-- product with a capacity, cut to a size_t.
pub record GrowFactor : Type 0 where
  pub is_positive : Bool
  pub scale : ℕ → ℕ

-- What malloc and realloc do: whether a request is met, and what fresh memory holds.
pub record Allocator : Type 0 where
  pub grants : ℕ → Bool
  pub junk : Bytes

pub data ReserveResult : Type 0 where
  ready : ReserveResult  -- 0
  should_not_grow : ReserveResult  -- 1
  can_not_grow : ReserveResult  -- 2

abbrev pub u64 : ℕ → ℕ
u64 n = n % 2 ^ 64

abbrev pub no_memory : MemBuffer
no_memory = record { buffer_data = none; start = 0; buffer_length = 0; buffer_capacity = 0 }

unfoldable pub membuf_init : Allocator → ℕ → Bool × MemBuffer
membuf_init m initial_capacity =
    if ltb 0 initial_capacity
    then (if m.grants initial_capacity
        then (
          true,
          record {
            buffer_data = some m.junk;
            start = 0;
            buffer_length = 0;
            buffer_capacity = initial_capacity;
          },
        )
        else (false, no_memory))
    else (true, no_memory)

unfoldable pub membuf_free : MemBuffer → MemBuffer
membuf_free b = elim b.buffer_data [ none ↦ b | some d ↦ no_memory ]

-- memmove(b->bufferData, b->bufferStart, b->bufferLength), and bufferStart = bufferData
compact : MemBuffer → MemBuffer
compact b = elim b.buffer_data [
  | none ↦ record b { start = 0 }
  | some d ↦ record b {
    buffer_data = some (λ i. if ltb i b.buffer_length then d (b.start + i) else d i);
    start = 0;
  }
]

-- The branch in which the block is too small for `new_length` bytes.
grow : Allocator → GrowFactor → ℕ → MemBuffer → ReserveResult × MemBuffer
grow m g new_length b = elim b.buffer_data [
  | none ↦
      let new_capacity = u64 (2 * new_length) in
      if m.grants new_capacity
      then (
        ready,
        record b { buffer_data = some m.junk; start = 0; buffer_capacity = new_capacity },
      )
      else (can_not_grow, b)
  | some d ↦
      let scaled = g.scale b.buffer_capacity in
      let new_capacity = if ltb scaled new_length then new_length else scaled in
      if g.is_positive
      then (if m.grants new_capacity
          then (
            ready,
            record b {
              buffer_data = some (λ i. if ltb i b.buffer_capacity then d i else m.junk i);
              start = 0;
              buffer_capacity = new_capacity;
            },
          )
          else (can_not_grow, b))
      else (should_not_grow, b)
]

unfoldable pub membuf_reserve : Allocator → GrowFactor → MemBuffer → ℕ → ReserveResult × MemBuffer
unfolding compact grow
membuf_reserve m g b additional_length =
    let new_length = u64 (b.buffer_length + additional_length) in
    if ltb b.buffer_capacity (u64 (b.start + new_length))
    then (if ltb b.buffer_capacity new_length
        then grow m g new_length (compact b)
        else (ready, compact b))
    else (ready, b)
