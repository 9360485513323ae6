-- ===== src/Startup/Seed.antt =====
-- The first value of mtint_id_counter, which luaopen_mtint of src/main.c makes of the bytes of an
-- address and of the time.
use Prim.Native.Nat.{bit_xor, bit_xor-bitwise, digits, differ}
use lua_mtint.Base.Int.{pos, signed32}
use lua_mtint.Atomic.{inc32}
use lua_mtint.Base.{ℕ, zero, suc, ◌+◌, ◌*◌, ◌/◌, ◌%◌, ◌^◌, ◌<◌, ◌≡◌, arith}

-- The bytes of a value in memory, and their number.
pub record ByteView : Type 0 where
  pub size : ℕ
  pub byte : ℕ → ℕ

-- The loop over `i` below `2 * size`: `rounds` are left. A byte goes to one of the three lower bytes of the
-- counter, for an AtomicCounter of four bytes.
pub mix_bytes : (rounds i : ℕ) → ByteView → (c : ℕ) → ℕ
mix_bytes zero i v c = c
mix_bytes (suc r) i v c =
    mix_bytes r (i + 1) v (bit_xor c (v.byte ((i + 1) % v.size) % 2 ^ 8 * 2 ^ (i % 3 * 8)))

unfoldable pub id_seed : (address time : ByteView) → ℕ
unfolding mix_bytes
id_seed address time = mix_bytes (2 * time.size) 0 time (mix_bytes (2 * address.size) 0 address 0)

-- 2 ^ k, by doubling.
abbrev bound : ℕ → ℕ
bound zero = 1
bound (suc k) = 2 * bound k

differ-lt : (x y : ℕ) → x < 2 → y < 2 → differ x y < 2
differ-lt zero y lx ly = ly
differ-lt (suc zero) zero lx ly = omega arith
differ-lt (suc zero) (suc zero) lx ly = omega arith
differ-lt (suc zero) (suc (suc y)) lx ly = absurd (omega arith)
differ-lt (suc (suc x)) y lx ly = absurd (omega arith)

digits-lt : (k n a b : ℕ) → a < bound k → b < bound k → digits (λ b'. b') differ n a b < bound k
digits-lt zero zero a b la lb = lb
digits-lt zero (suc n) zero b la lb = lb
digits-lt zero (suc n) (suc a) b la lb = absurd (omega arith)
digits-lt (suc k) zero a b la lb = lb
digits-lt (suc k) (suc n) zero b la lb = lb
digits-lt (suc k) (suc n) (suc a) b la lb = omega (
  arith,
  digits-lt k n (suc a / 2) (b / 2) (omega arith) (omega arith),
  differ-lt (suc a % 2) (b % 2) (omega arith) (omega arith),
)

bit_xor-lt : (a b : ℕ) → a < 2 ^ 24 → b < 2 ^ 24 → bit_xor a b < 2 ^ 24
bit_xor-lt a b la lb =
    omega (arith, bit_xor-bitwise a b, digits-lt 24 a a b (omega arith) (omega arith))

shifted-lt : (byte r : ℕ) → byte < 2 ^ 8 → r < 3 → byte * 2 ^ (r * 8) < 2 ^ 24
shifted-lt byte zero small lt = omega arith
shifted-lt byte (suc zero) small lt = omega arith
shifted-lt byte (suc (suc zero)) small lt = omega arith
shifted-lt byte (suc (suc (suc r))) small lt = absurd (omega arith)

mix_bytes-lt : (rounds i : ℕ) (v : ByteView) (c : ℕ) → c < 2 ^ 24 → mix_bytes rounds i v c < 2 ^ 24
unfolding mix_bytes
mix_bytes-lt zero i v c small = small
mix_bytes-lt (suc r) i v c small = mix_bytes-lt r (i + 1) v _ (
    bit_xor-lt c _ small
      (shifted-lt (v.byte ((i + 1) % v.size) % 2 ^ 8) (i % 3) (omega arith) (omega arith)))

signed32-inc32 : (n : ℕ) → n + 1 < 2 ^ 31 → signed32 (inc32 n) ≡ pos (n + 1)
unfolding inc32
signed32-inc32 n h = let e : (n + 1) % 2 ^ 32 ≡ n + 1 = omega arith in rw e (ground arith)

-- Whatever the address and the time, the seed is below 2 ^ 24, so that the ids counted up from it are
-- positive for the first 2 ^ 31 - 2 ^ 24 objects: the counter is below 2 ^ 31, and the next id does not
-- wrap.
pub id_seed-lt :
    (address time : ByteView) (made : ℕ)
    → made + 2 ^ 24 < 2 ^ 31
    → (id_seed address time < 2 ^ 24)
      × (signed32 (inc32 (id_seed address time + made)) ≡ pos (id_seed address time + made + 1))
unfolding id_seed
id_seed-lt address time made few =
    let small =
      mix_bytes-lt (2 * time.size) 0 time (mix_bytes (2 * address.size) 0 address 0)
        (mix_bytes-lt (2 * address.size) 0 address 0 (omega arith)) in
    (small, signed32-inc32 (id_seed address time + made) (omega arith))
