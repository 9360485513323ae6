-- ===== src/Sync/Monitor.antt =====
-- The condition variable that src/async_util.c and src/async_util.h make of a critical section, a
-- counter and an event on Windows: mtint_async_mutex_wait, mtint_async_mutex_wait_millis and
-- async_mutex_notify, as steps of any number of threads.
use lua_mtint.Base.Counts.{sum_below, sum_below-change, le-sum_below, sum_below-zero}
use lua_mtint.Base.{
  ℕ, ◌+◌, ◌-◌, ◌<◌, ◌≡◌, refl, arith, Bool, true, false, not, ◌&&◌, Option, none, some, List, [],
  ◌∷◌, ◌==◌, ltb, if◌then◌else◌, sym, ◌∙◌,
}

-- Where a thread is: outside the critical section; inside it; in a wait, which has counted itself
-- but not left; at WaitForSingleObject; behind it; or inside again, not yet counted off.
pub data Stage : Type 0 where
  outside : Stage
  holding : Stage
  counted : Stage
  waiting : Stage
  woken : Stage
  entered : Stage

pub record Monitor : Type 0 where
  pub owner : Option ℕ
  pub waiting_counter : ℕ
  pub event : Bool
  pub at : ℕ → Stage

pub data Action : Type 0 where
  lock : Action
  unlock : Action
  count_up : Action
  leave : Action
  wake : Action
  time_out : Action
  enter : Action
  count_down : Action
  notify : Action

abbrev pub go : ℕ → Stage → Monitor → Monitor
go t c s = record s { at = λ q. if t == q then c else s.at q }

-- EnterCriticalSection, which waits while another thread is inside.
abbrev pub enter_section : ℕ → Stage → Monitor → Option Monitor
enter_section t c s = elim s.owner [
  | none ↦ some (go t c (record s { owner = some t }))
  | some u ↦ none
]

-- The event is reset by the one wait that it ends.
abbrev pub wait_for_event : ℕ → Monitor → Option Monitor
wait_for_event t s = if s.event then some (go t woken (record s { event = false })) else none

-- What thread `t` does by an action at a stage; `none` where it has to wait or the code does not do it.
unfoldable pub act_at : Stage → Action → ℕ → Monitor → Option Monitor
act_at outside lock t s = enter_section t holding s
act_at holding unlock t s = some (go t outside (record s { owner = none }))
act_at holding count_up t s =
    some (go t counted (record s { waiting_counter = s.waiting_counter + 1 }))
act_at counted leave t s = some (go t waiting (record s { owner = none }))
act_at waiting wake t s = wait_for_event t s
act_at waiting time_out t s = some (go t woken s)
act_at woken enter t s = enter_section t entered s
act_at entered count_down t s =
    some (go t holding (record s { waiting_counter = s.waiting_counter - 1 }))
act_at holding notify t s = some (if ltb 0 s.waiting_counter then record s { event = true } else s)
act_at _ _ t s = none

unfoldable pub act : Action → ℕ → Monitor → Option Monitor
unfolding act_at
act a t s = act_at (s.at t) a t s

-- async_mutex_init
abbrev pub fresh : Monitor
fresh = record { owner = none; waiting_counter = 0; event = false; at = λ t. outside }

-- What `n` threads can bring about.
pub data Reachable (n : ℕ) : Monitor → Type 0 where
  start : Reachable n fresh
  next :
      {s s' : Monitor} (a : Action) (t : ℕ)
      → t < n
      → Reachable n s
      → act a t s ≡ some s'
      → Reachable n s'

abbrev pub is_inside : Stage → Bool
is_inside holding = true
is_inside counted = true
is_inside entered = true
is_inside _ = false

-- 1 for a thread between its two writes to the counter.
abbrev pub weight : Stage → ℕ
weight outside = 0
weight holding = 0
weight _ = 1

abbrev count : ℕ → (ℕ → Stage) → ℕ
count n at = sum_below n (λ q. weight (at q))

abbrev owns : Option ℕ → ℕ → Bool
owns none t = false
owns (some u) t = u == t

-- The owner is the thread that is inside, and the counter counts the threads that wait.
record IsSound (n : ℕ) (s : Monitor) : Type 0 where
  inside : (t : ℕ) → is_inside (s.at t) ≡ owns s.owner t
  counter : s.waiting_counter ≡ count n s.at

count-go :
    (n t : ℕ) (c : Stage) (at : ℕ → Stage)
    → t < n
    → count n (λ q. if t == q then c else at q) + weight (at t) ≡ count n at + weight c
count-go n t c at lt =
    sum_below-change n t (λ q. weight (at q)) (λ q. weight (if t == q then c else at q))
      (λ q ne. ground arith) lt
    ∙ ground arith

module _ (n t : ℕ) (s s' : Monitor) (lt : t < n) (i : IsSound n s) where
  -- The effect of a move on the counter, for each place to move to.
  abbrev Moved : Type 0
  Moved =
      (c : Stage)
      → count n (λ q. if t == q then c else s.at q) + weight (s.at t) ≡ count n s.at + weight c

  act_at-IsSound :
      (c : Stage) (a : Action) → Moved → s.at t ≡ c → act_at c a t s ≡ some s' → IsSound n s'
  unfolding act_at
  act_at-IsSound outside lock go' e run = record {
    inside = λ q. ground (arith, i.inside q, i.inside t);
    counter = ground (arith, i.counter, go' holding);
  }
  act_at-IsSound woken enter go' e run = record {
    inside = λ q. ground (arith, i.inside q, i.inside t);
    counter = ground (arith, i.counter, go' entered);
  }
  act_at-IsSound entered count_down go' e run = record {
    inside = λ q. ground (arith, i.inside q, i.inside t);
    counter = ground (arith, i.counter, go' holding, le-sum_below n t (λ q. weight (s.at q)) lt);
  }
  act_at-IsSound _ _ go' e run = record {
    inside = λ q. ground (arith, i.inside q, i.inside t);
    counter =
        ground (arith, i.counter, go' outside, go' holding, go' counted, go' waiting, go' woken);
  }

Reachable-IsSound : {n : ℕ} {s : Monitor} → Reachable n s → IsSound n s
unfolding act
Reachable-IsSound {n} start = record { inside = λ t. refl; counter = sym (sum_below-zero n) }
Reachable-IsSound {n} (next {s} {s'} a t lt r run) =
    act_at-IsSound n t s s' lt (Reachable-IsSound r) (s.at t) a (λ c. count-go n t c s.at lt) refl
      run

-- At no time are two threads inside the critical section.
pub Reachable-is_inside :
    {n : ℕ} {s : Monitor}
    → Reachable n s
    → (t u : ℕ) → is_inside (s.at t) ≡ true
    → is_inside (s.at u) ≡ true
    → t ≡ u
Reachable-is_inside {s} r t u in_t in_u =
    let i = Reachable-IsSound r in ground (arith, i.inside t, i.inside u)

-- Steps one after the other; `none` if one of them has to wait.
unfoldable pub run : List (Action × ℕ) → Monitor → Option Monitor
run [] s = some s
run ((a, t) ∷ steps) s = elim (act a t s) [ none ↦ none | some s' ↦ run steps s' ]

-- The event ends no wait.
abbrev pub is_wake : Action → Bool
is_wake wake = true
is_wake _ = false

abbrev pub without_wake : List (Action × ℕ) → Bool
without_wake [] = true
without_wake ((a, t) ∷ steps) = not (is_wake a) && without_wake steps
