-- ===== src/Examples/Utilities.antt =====
-- The theorems on buffers, quotation and errors, at concrete inputs.
use lua_mtint.Base.{refl, ℕ, ◌+◌, ◌-◌, ◌*◌, ◌^◌, ◌<◌, ◌≡◌, arith, true, some, List, [], ◌∷◌}
use lua_mtint.Errors.{
  codes, object_closed, Formats, error_object_closed, publish_error, raise_message,
}
use lua_mtint.Errors.Kinds.{same_error, starts_with, starts_with-raise_message}
use lua_mtint.Util.MemBuffer.{MemBuffer, GrowFactor, Allocator, ready, membuf_reserve}
use lua_mtint.Util.MemBuffer.Reserve.{
  IsValid, Reserved, membuf_reserve-Reserved, membuf_reserve-wraps,
}
use lua_mtint.Util.Quote.{
  quote_lstring, unescape, at_byte, is_readable, quote_mark, unescape-quote_lstring,
}

-- An allocator that meets every request.
abbrev allocator : Allocator
allocator = record { grants = λ n. true; junk = λ i. 170 }

abbrev doubling : GrowFactor
doubling = record { is_positive = true; scale = λ n. 2 * n }

-- Three bytes in use, from offset 2 of 8.
abbrev buffer : MemBuffer
buffer = record { buffer_data = some (λ i. i); start = 2; buffer_length = 3; buffer_capacity = 8 }

buffer-IsValid : IsValid buffer
buffer-IsValid = record { fits = omega arith; empty = λ e. ground arith }

membuf_reserve-Reserved_example :
    Reserved buffer 7
      (membuf_reserve allocator doubling buffer 7).0
      (membuf_reserve allocator doubling buffer 7).1
membuf_reserve-Reserved_example =
    membuf_reserve-Reserved allocator doubling buffer 7 buffer-IsValid (omega arith)

membuf_reserve-wraps_example :
    (membuf_reserve allocator doubling buffer (2 ^ 64 - 3) ≡ (ready, buffer))
    × (buffer.buffer_capacity < buffer.start + buffer.buffer_length + (2 ^ 64 - 3))
membuf_reserve-wraps_example =
    membuf_reserve-wraps allocator doubling buffer (2 ^ 64 - 3) buffer-IsValid (omega arith)
      (omega arith) (omega arith)

-- A NUL, a quotation mark, a backslash and a letter.
abbrev awkward : List ℕ
awkward = 0 ∷ 34 ∷ 92 ∷ 97 ∷ []

awkward-readable : is_readable awkward ≡ true
unfolding is_readable
awkward-readable = refl

unescape-quote_lstring_example :
    (r : List ℕ) × (quote_lstring (some awkward) ≡ some (quote_mark ∷ r))
    × (unescape at_byte r ≡ some awkward)
unescape-quote_lstring_example = unescape-quote_lstring awkward (omega arith) awkward-readable

-- Numbers printed in the simplest way.
abbrev formats : Formats
formats = record { decimal = λ i. codes "7"; bytes = λ n. codes "8" }

starts_with-raise_message_example :
    starts_with
      (publish_error object_closed).1
      (raise_message formats (error_object_closed (codes "x")))
    ≡ same_error object_closed object_closed
starts_with-raise_message_example =
    starts_with-raise_message formats object_closed (error_object_closed (codes "x"))
