-- ===== src/Startup/States.antt =====
-- The second half of luaopen_mtint in src/main.c, under the global lock, and handleClosingLuaState:
-- the seed of the ids, and the Lua states that have loaded the library.
use lua_mtint.Base.Counts.{sum_below, sum_below-change, sum_below-zero}
use lua_mtint.Base.{
  ℕ, ◌∙◌, ◌+◌, ◌-◌, ◌<◌, ◌≡◌, sym, arith, Bool, true, false, not, ◌==◌, if◌then◌else◌,
}
use lua_mtint.Atomic.{inc32}

-- `initialized`, `mtint_id_counter`, `stateCounter`, and whether the registry of a Lua state has the
-- sentinel.
pub record Module : Type 0 where
  pub initialized : Bool
  pub id_counter : ℕ
  pub state_counter : ℕ
  pub sentinel : ℕ → Bool

-- luaopen_mtint on the Lua state `l`; `seed` is the value made of an address and the time.
unfoldable pub open_state : (seed l : ℕ) → Module → Module
open_state seed l m =
    let m1 = if not m.initialized then record m { id_counter = seed; initialized = true } else m in
    if not (m1.sentinel l)
    then record m1 {
      state_counter = m1.state_counter + 1;
      sentinel = λ q. if l == q then true else m1.sentinel q;
    }
    else m1

-- handleClosingLuaState, when the closing of `l` collects its sentinel
unfoldable pub close_state : (l : ℕ) → Module → Module
close_state l m = record m {
  state_counter = m.state_counter - 1;
  sentinel = λ q. if l == q then false else m.sentinel q;
}

-- `atomic_inc(&mtint_id_counter)` in assureCreatedMtInterruptible
unfoldable pub take_id : Module → Module
take_id m = record m { id_counter = inc32 m.id_counter }

pub data Event : Type 0 where
  opens : (seed l : ℕ) → Event
  closes : (l : ℕ) → Event
  takes_id : Event

unfoldable pub step : Event → Module → Module
unfolding open_state close_state take_id
step (opens seed l) m = open_state seed l m
step (closes l) m = close_state l m
step takes_id m = take_id m

abbrev pub unloaded : Module
unloaded = record { initialized = false; id_counter = 0; state_counter = 0; sentinel = λ l. false }

-- What happens to Lua states below `n`. A sentinel is finalised once, if it is there. An id is taken only by a function of the loaded library.
pub data Reachable (n : ℕ) : Module → Type 0 where
  start : Reachable n unloaded
  opened : {m : Module} (seed l : ℕ) → l < n → Reachable n m → Reachable n (step (opens seed l) m)
  closed :
      {m : Module} (l : ℕ)
      → l < n
      → m.sentinel l ≡ true
      → Reachable n m
      → Reachable n (step (closes l) m)
  counted : {m : Module} → m.initialized ≡ true → Reachable n m → Reachable n (step takes_id m)

abbrev pub weight : Bool → ℕ
weight true = 1
weight false = 0

-- The number of Lua states below `n` with the sentinel.
abbrev pub open_states : ℕ → (ℕ → Bool) → ℕ
open_states n f = sum_below n (λ q. weight (f q))

open_states-set :
    (n l : ℕ) (b : Bool) (f : ℕ → Bool)
    → l < n
    → open_states n (λ q. if l == q then b else f q) + weight (f l) ≡ open_states n f + weight b
open_states-set n l b f lt =
    sum_below-change n l (λ q. weight (f q)) (λ q. weight (if l == q then b else f q))
      (λ q ne. ground arith) lt
    ∙ ground arith

-- Whatever the order of loading, closing and counting, `stateCounter` is the number of the Lua states
-- that have loaded the library and are not closed.
pub Reachable-state_counter :
    {n : ℕ} {m : Module} → Reachable n m → m.state_counter ≡ open_states n m.sentinel
unfolding step
Reachable-state_counter {n} start = sym (sum_below-zero n)
Reachable-state_counter {n} (opened {m} seed l lt r) =
    ground (arith, Reachable-state_counter r, open_states-set n l true m.sentinel)
Reachable-state_counter {n} (closed {m} l lt open' r) =
    ground (arith, Reachable-state_counter r, open_states-set n l false m.sentinel)
Reachable-state_counter (counted e r) = Reachable-state_counter r
