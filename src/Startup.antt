-- ===== src/Startup.antt =====
-- The beginning of luaopen_mtint in src/main.c: threads that load the library at the same time agree
-- on one that initialises the global mutex. Each atomic access is one step of its thread, and so is the
-- body of the waiting loop.
pub mod Seed
pub mod States
pub mod Progress
use lua_mtint.Base.{
  ℕ, ◌+◌, ◌≡◌, ◌≢◌, refl, arith, Bool, true, false, ◌==◌, if◌then◌else◌, Bool-cases, inl, inr,
  subst, sym, eq_of_==, ap, ◌∙◌,
}
use lua_mtint.Sync.{Platform, Mutex, Call, returned, blocks, aborts}
use lua_mtint.Sync.Primitives.{ThreadPrimitives}
use lua_mtint.Sync.Destruct.{async_mutex_destruct, all_defined, wait_round}

-- What a thread does next: the test of `initStage`, the compare-and-set, the three statements of the
-- thread that wins, the test of the waiting loop, its body, or what follows line 67. In the body the
-- program may be ended by async_util_abort, or do what is undefined.
pub data Stage : Type 0 where
  check_stage : Stage
  compete : Stage
  init_mutex : Stage
  set_global_lock : Stage
  finish : Stage
  wait : Stage
  body : Stage
  entered : Stage
  aborted : Stage
  undefined : Stage

-- `initStage`, how often `global_mutex` was initialised, whether `mtint_global_lock` points at it,
-- and where each thread is.
pub record Loading : Type 0 where
  pub init_stage : ℕ
  pub mutex_inits : ℕ
  pub global_lock : Bool
  pub at : ℕ → Stage

abbrev pub go : ℕ → Stage → Loading → Loading
go t c s = record s { at = λ q. if t == q then c else s.at q }

-- The end of the body of the waiting loop, which had the result `r` before it destroys its mutex.
abbrev pub end_round : Platform → Call Mutex → ℕ → Loading → Loading
end_round b (returned x) t s =
    go t (if all_defined (async_mutex_destruct b x) then wait else undefined) s
end_round b blocks t s = s
end_round b (aborts rc) t s = go t aborted s

-- One step of thread `t`, which is at `c`.
unfoldable pub step_from : Platform → (r : Call Mutex) → Stage → ℕ → Loading → Loading
step_from b r check_stage t s = if s.init_stage == 2 then go t entered s else go t compete s
step_from b r compete t s =
    if s.init_stage == 0 then go t init_mutex (record s { init_stage = 1 }) else go t wait s
step_from b r init_mutex t s = go t set_global_lock (record s { mutex_inits = s.mutex_inits + 1 })
step_from b r set_global_lock t s = go t finish (record s { global_lock = true })
step_from b r finish t s = go t entered (record s { init_stage = 2 })
step_from b r wait t s = if s.init_stage == 2 then go t entered s else go t body s
step_from b r body t s = end_round b r t s
step_from b r entered t s = s
step_from b r aborted t s = s
step_from b r undefined t s = s

-- `sec` and `usec` are the time of day.
unfoldable pub step : ThreadPrimitives → Platform → (sec usec t : ℕ) → Loading → Loading
unfolding step_from
step p b sec usec t s = step_from b (wait_round p b t sec usec) (s.at t) t s

abbrev pub unloaded : Loading
unloaded = record { init_stage = 0; mutex_inits = 0; global_lock = false; at = λ t. check_stage }

-- The states that some sequence of steps leads to.
pub data Reachable (p : ThreadPrimitives) (b : Platform) : Loading → Type 0 where
  start : Reachable p b unloaded
  next : {s : Loading} (sec usec t : ℕ) → Reachable p b s → Reachable p b (step p b sec usec t s)

-- Neither the winner nor past the barrier.
abbrev pub is_early : Stage → Bool
is_early check_stage = true
is_early compete = true
is_early wait = true
is_early body = true
is_early aborted = true
is_early undefined = true
is_early _ = false

-- Between winning and the end of the initialisation.
abbrev pub is_winner : Stage → Bool
is_winner init_mutex = true
is_winner set_global_lock = true
is_winner finish = true
is_winner _ = false

-- What the winner has done when it is at a stage.
abbrev pub inits_before : Stage → ℕ
inits_before init_mutex = 0
inits_before _ = 1

abbrev pub lock_before : Stage → Bool
lock_before finish = true
lock_before _ = false

data Phase (s : Loading) : Type 0 where
  idle : s.init_stage ≡ 0 → s.mutex_inits ≡ 0 → ((q : ℕ) → is_early (s.at q) ≡ true) → Phase s
  busy :
      (u : ℕ)
      → s.init_stage ≡ 1
      → is_winner (s.at u) ≡ true
      → s.mutex_inits ≡ inits_before (s.at u)
      → (lock_before (s.at u) ≡ true → s.global_lock ≡ true)
      → ((q : ℕ) → q ≢ u → is_early (s.at q) ≡ true)
      → Phase s
  done :
      s.init_stage ≡ 2
      → s.mutex_inits ≡ 1
      → s.global_lock ≡ true
      → ((q : ℕ) → is_winner (s.at q) ≡ false)
      → Phase s

-- A thread before the barrier goes to another place before it.
early-go :
    (s : Loading) (t : ℕ) (c : Stage)
    → is_early (s.at t) ≡ true
    → is_early c ≡ true
    → Phase s
    → Phase (go t c s)
early-go s t c from to (idle a b early) = idle a b (λ q. ground (arith, early q, to))
early-go s t c from to (busy u a won inits lock early) =
    let ne : (t == u) ≡ false = ground (arith, from, won) in
    let same : (go t c s).at u ≡ s.at u = rw ne refl in
    busy u a (ap is_winner same ∙ won) (inits ∙ ap inits_before (sym same))
      (λ h. lock (sym (ap lock_before same) ∙ h)) (λ q ne'. ground (arith, early q ne', to))
early-go s t c from to (done a b l w) = done a b l (λ q. ground (arith, w q, to))

-- The barrier opens for a thread.
opens-Phase : (s : Loading) (t : ℕ) → s.init_stage ≡ 2 → Phase s → Phase (go t entered s)
opens-Phase s t e (idle a b early) = absurd (omega arith)
opens-Phase s t e (busy u a won inits lock early) = absurd (omega arith)
opens-Phase s t e (done a b l w) = done a b l (λ q. ground (arith, w q))

-- The compare-and-set of a thread that wins.
wins-Phase :
    (s : Loading) (t : ℕ)
    → s.init_stage ≡ 0
    → Phase s
    → Phase (go t init_mutex (record s { init_stage = 1 }))
wins-Phase s t e (idle a b early) =
    busy t refl (ground arith) (ground arith) (λ h. ground arith) (λ q ne. ground (arith, early q))
wins-Phase s t e (busy u a won inits lock early) = absurd (omega arith)
wins-Phase s t e (done a b l w) = absurd (omega arith)

end_round-Phase :
    (b : Platform) (r : Call Mutex) (s : Loading) (t : ℕ)
    → is_early (s.at t) ≡ true
    → Phase s
    → Phase (end_round b r t s)
end_round-Phase b (returned x) s t from ph =
    elim (Bool-cases (all_defined (async_mutex_destruct b x))) [
      | inl e ↦ rw e (early-go s t wait from refl ph)
      | inr e ↦ rw e (early-go s t undefined from refl ph)
    ]
end_round-Phase b blocks s t from ph = ph
end_round-Phase b (aborts rc) s t from ph = early-go s t aborted from refl ph

module _ (b : Platform) (r : Call Mutex) (s : Loading) (u : ℕ) (a : s.init_stage ≡ 1)
    (won : is_winner (s.at u) ≡ true) (inits : s.mutex_inits ≡ inits_before (s.at u))
    (lock : lock_before (s.at u) ≡ true → s.global_lock ≡ true)
    (early : (q : ℕ) → q ≢ u → is_early (s.at q) ≡ true) where
  winner-step_from : (c : Stage) → s.at u ≡ c → Phase (step_from b r c u s)
  unfolding step_from
  winner-step_from init_mutex e =
      busy u a (ground arith) (ground arith) (λ h. ground arith)
        (λ q ne. ground (arith, early q ne))
  winner-step_from set_global_lock e =
      busy u a (ground arith) (ground arith) (λ h. ground arith)
        (λ q ne. ground (arith, early q ne))
  winner-step_from finish e = done refl (ground arith) (ground (arith, lock)) (λ q.
      elim (Bool-cases (u == q)) [
        | inl same ↦ ground arith
        | inr other ↦ ground (arith, early q (ground arith))
      ])
  winner-step_from _ e = absurd (ground arith)

winner-Phase :
    (b : Platform) (r : Call Mutex) (s : Loading) (t : ℕ)
    → is_winner (s.at t) ≡ true
    → Phase s
    → Phase (step_from b r (s.at t) t s)
winner-Phase b r s t won_t (idle a z early) = absurd (ground (arith, early t))
winner-Phase b r s t won_t (done a z l w) = absurd (ground (arith, w t))
winner-Phase b r s t won_t (busy u a won inits lock early) = elim (Bool-cases (t == u)) [
  | inl same ↦
      subst (λ z. Phase (step_from b r (s.at z) z s)) (sym (eq_of_== t u same))
        (winner-step_from b r s u a won inits lock early (s.at u) refl)
  | inr other ↦ absurd (ground (arith, early t))
]

Phase-step_from :
    (b : Platform) (r : Call Mutex) (s : Loading) (t : ℕ) (c : Stage)
    → s.at t ≡ c
    → Phase s
    → Phase (step_from b r c t s)
unfolding step_from
Phase-step_from b r s t check_stage e ph = elim (Bool-cases (s.init_stage == 2)) [
  | inl two ↦ rw two (opens-Phase s t (eq_of_== s.init_stage 2 two) ph)
  | inr not_two ↦ rw not_two (early-go s t compete (ap is_early e) refl ph)
]
Phase-step_from b r s t compete e ph = elim (Bool-cases (s.init_stage == 0)) [
  | inl zero' ↦ rw zero' (wins-Phase s t (eq_of_== s.init_stage 0 zero') ph)
  | inr begun ↦ rw begun (early-go s t wait (ap is_early e) refl ph)
]
Phase-step_from b r s t wait e ph = elim (Bool-cases (s.init_stage == 2)) [
  | inl two ↦ rw two (opens-Phase s t (eq_of_== s.init_stage 2 two) ph)
  | inr not_two ↦ rw not_two (early-go s t body (ap is_early e) refl ph)
]
Phase-step_from b r s t body e ph = end_round-Phase b r s t (ap is_early e) ph
Phase-step_from b r s t entered e ph = ph
Phase-step_from b r s t aborted e ph = ph
Phase-step_from b r s t undefined e ph = ph
Phase-step_from b r s t c e ph =
    subst (λ z. Phase (step_from b r z t s)) e (winner-Phase b r s t (ap is_winner e) ph)

module _ {p : ThreadPrimitives} {b : Platform} where
  Phase-Reachable : {s : Loading} → Reachable p b s → Phase s
  unfolding step
  Phase-Reachable start = idle refl refl (λ q. refl)
  Phase-Reachable (next {s} sec usec t r) =
      Phase-step_from b (wait_round p b t sec usec) s t (s.at t) refl (Phase-Reachable r)

  -- Whatever the order of the steps, and however many threads load the library: a thread that is past
  -- the barrier finds the global mutex initialised exactly once, and the pointer to it set.
  pub Reachable-entered :
      {s : Loading}
      → Reachable p b s
      → (t : ℕ) → s.at t ≡ entered
      → (s.mutex_inits ≡ 1) × (s.global_lock ≡ true)
  Reachable-entered r t e = elim (Phase-Reachable r) [
    | idle a z early ↦ absurd (ground (arith, early t))
    | busy u a won inits lock early ↦ absurd (ground (arith, early t))
    | done a z l w ↦ (z, l)
  ]

  -- At no time are two threads between winning and the end of the initialisation.
  pub Reachable-winner :
      {s : Loading}
      → Reachable p b s
      → (t u : ℕ) → is_winner (s.at t) ≡ true
      → is_winner (s.at u) ≡ true
      → t ≡ u
  Reachable-winner r t u won_t won_u = elim (Phase-Reachable r) [
    | idle a z early ↦ absurd (ground (arith, early t))
    | busy v a won inits lock early ↦ ground (arith, early t, early u)
    | done a z l w ↦ absurd (ground (arith, w t))
  ]
