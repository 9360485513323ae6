-- ===== src/Startup/Progress/Schedule.antt =====
-- Schedules of the threads that load the library: whoever is scheduled often enough passes the barrier.
use lua_mtint.Base.{
  ℕ, ◌+◌, ◌≡◌, ◌≢◌, ◌≤◌, ◌<◌, ◌⊎◌, ◌∙◌, refl, sym, subst, arith, true, false, inl, inr, List, [],
  ◌∷◌, ◌++◌, ◌==◌, Bool-cases, eq_of_==,
}
use native.Mathlib.Decide.{dec_lt}
use lua_mtint.Sync.{Platform, pthread, Mutex, Call, returned}
use lua_mtint.Sync.Primitives.{ThreadPrimitives}
use lua_mtint.Sync.Destruct.{wait_round}
use lua_mtint.Startup.{
  Stage, check_stage, wait, body, entered, aborted, undefined, Loading, step, unloaded, Reachable,
  start, next, is_winner, idle, busy, done, Phase-Reachable,
}
use lua_mtint.Startup.Progress.{
  Turn, run, occurrences, level, distance, is_lost, Safe, Waits, step-other, step-level, step-Safe,
  step-Waits, step-done, step-distance,
}

module _ (p : ThreadPrimitives) (b : Platform) (plain : b ≢ pthread)
    (ends : (t sec usec : ℕ) → (x : Mutex) × (wait_round p b t sec usec ≡ returned x)) where
  abbrev round : Turn → Call Mutex
  round k = wait_round p b k.thread k.sec k.usec

  abbrev after : Turn → Loading → Loading
  after k s = step p b k.sec k.usec k.thread s

  abbrev at_end : Turn → Mutex
  at_end k = (ends k.thread k.sec k.usec).0

  ended : (k : Turn) → round k ≡ returned (at_end k)
  ended k = (ends k.thread k.sec k.usec).1

  -- What a step keeps.
  record Running (s : Loading) : Type 0 where
    safe : Safe s
    waits : Waits s

  after-Running : (k : Turn) (s : Loading) → Running s → Running (after k s)
  unfolding step
  after-Running k s i = record {
    safe = step-Safe b plain (round k) (at_end k) (ended k) k.thread s (s.at k.thread) refl i.safe;
    waits =
        step-Waits b plain (round k) (at_end k) (ended k) k.thread s (s.at k.thread) refl i.waits;
  }

  after-other : (k : Turn) (q : ℕ) (s : Loading) → k.thread ≢ q → (after k s).at q ≡ s.at q
  unfolding step
  after-other k q s ne =
      step-other b plain (round k) (at_end k) (ended k) k.thread s q (s.at k.thread) ne

  after-level :
      (k : Turn) (s : Loading)
      → (level (s.at k.thread) ≤ level ((after k s).at k.thread))
        × ((level (s.at k.thread) + 1 ≤ level ((after k s).at k.thread))
            ⊎ (5 ≤ level (s.at k.thread)))
  unfolding step
  after-level k s =
      step-level b plain (round k) (at_end k) (ended k) k.thread s (s.at k.thread) refl

  after-done : (k : Turn) (s : Loading) → s.init_stage ≡ 2 → (after k s).init_stage ≡ 2
  unfolding step
  after-done k s two =
      step-done b plain (round k) (at_end k) (ended k) k.thread s (s.at k.thread) two

  -- The effect of a turn of `q` on how far it is.
  abbrev Advances : Turn → Loading → ℕ → Type 0
  Advances k s q =
      (level (s.at q) ≤ level ((after k s).at q))
      × ((level (s.at q) + 1 ≤ level ((after k s).at q)) ⊎ (5 ≤ level (s.at q)))

  abbrev Closer : Turn → Loading → ℕ → Type 0
  Closer k s q =
      (5 ≤ level ((after k s).at q))
      × (distance ((after k s).at q) ≤ distance (s.at q))
      × ((distance ((after k s).at q) + 1 ≤ distance (s.at q)) ⊎ (distance (s.at q) ≡ 0))

  after-Closer :
      (k : Turn) (q : ℕ) (s : Loading)
      → k.thread ≡ q
      → Running s
      → s.init_stage ≡ 2
      → 5 ≤ level (s.at q)
      → Closer k s q
  unfolding step
  after-Closer k q s e i two high = subst (Closer k s) e (
      step-distance b plain (round k) (at_end k) (ended k) k.thread s (s.at k.thread) refl two
        (subst (λ z. 5 ≤ level (s.at z)) (sym e) high) (i.safe k.thread))

  run-level :
      (l : List Turn) (q m : ℕ) (s : Loading)
      → m ≤ 5
      → m ≤ level (s.at q) + occurrences q l
      → m ≤ level ((run p b l s).at q)
  unfolding run
  run-level [] q m s small h = omega arith
  run-level (k ∷ l) q m s small h = elim (Bool-cases (k.thread == q)) [
    | inl same ↦
        let further : Advances k s q =
          subst (Advances k s) (eq_of_== k.thread q same) (after-level k s) in
        run-level l q m (after k s) small (ground (arith, same, further))
    | inr other ↦
        run-level l q m (after k s) small
          (ground (arith, other, after-other k q s (ground (arith, other))))
  ]

  -- A thread that takes no step stays where it is.
  run-idle :
      (l : List Turn) (q : ℕ) (s : Loading) → occurrences q l ≡ 0 → (run p b l s).at q ≡ s.at q
  unfolding run
  run-idle [] q s h = refl
  run-idle (k ∷ l) q s h = elim (Bool-cases (k.thread == q)) [
    | inl same ↦ absurd (ground (arith, same))
    | inr other ↦
        run-idle l q (after k s) (ground (arith, other)) ∙ after-other k q s (ground (arith, other))
  ]

  run-append : (l1 l2 : List Turn) (s : Loading) → run p b (l1 ++ l2) s ≡ run p b l2 (run p b l1 s)
  unfolding run
  run-append [] l2 s = refl
  run-append (k ∷ l1) l2 s = run-append l1 l2 (after k s)

  run-Reachable : (l : List Turn) {s : Loading} → Reachable p b s → Reachable p b (run p b l s)
  unfolding run
  run-Reachable [] r = r
  run-Reachable (k ∷ l) r = run-Reachable l (next k.sec k.usec k.thread r)

  run-Running : (l : List Turn) {s : Loading} → Running s → Running (run p b l s)
  unfolding run
  run-Running [] i = i
  run-Running (k ∷ l) {s} i = run-Running l (after-Running k s i)

  unloaded-Running : Running unloaded
  unloaded-Running = record { safe = λ q. refl; waits = λ q high. absurd (omega arith) }

  -- The thread that initialises is done when every thread has come as far as the loop.
  init_stage-done :
      {s : Loading}
      → Reachable p b s
      → Running s
      → (t : ℕ) → ((q : ℕ) → (5 ≤ level (s.at q)) ⊎ (s.at q ≡ check_stage))
      → 5 ≤ level (s.at t)
      → (s.init_stage ≡ 2) × (s.mutex_inits ≡ 1)
  init_stage-done {s} r i t far high = elim (Phase-Reachable r) [
    | idle a z early ↦ absurd (i.waits t high a)
    | busy u a won inits lock early ↦ absurd (loses (s.at u) won (far u))
    | done a z l w ↦ (a, z)
  ]
    where
      loses : (c : Stage) → is_winner c ≡ true → (5 ≤ level c) ⊎ (c ≡ check_stage) → ⊥
      loses check_stage won far' = cc
      loses _ won far' = ground arith

  -- Once the initialisation is done, the thread passes.
  run-last :
      (l : List Turn) (t : ℕ) (s : Loading)
      → Running s
      → s.init_stage ≡ 2
      → 5 ≤ level (s.at t)
      → distance (s.at t) ≤ occurrences t l
      → (run p b l s).at t ≡ entered
  unfolding run step
  run-last [] t s i two high enough = arrived (s.at t) (omega arith) (i.safe t)
    where
      arrived : (c : Stage) → distance c ≤ 0 → is_lost c ≡ false → c ≡ entered
      arrived entered near safe = refl
      arrived _ near safe = absurd (omega arith)
  run-last (k ∷ l) t s i two high enough = elim (Bool-cases (k.thread == t)) [
    | inl same ↦
        let far = after-Closer k t s (eq_of_== k.thread t same) i two high in
        run-last l t (after k s) (after-Running k s i) (after-done k s two) far.0
          (ground (arith, same, far))
    | inr other ↦
        let stays = after-other k t s (ground (arith, other)) in
        run-last l t (after k s) (after-Running k s i) (after-done k s two) (rw stays high)
          (rw stays (ground (arith, other)))
  ]

  -- On Windows and with the threads of ISO C (on POSIX the waiting loop does what is undefined), and
  -- where each round of the loop comes to its end: the threads below `n` load the library. If each of
  -- them takes five steps or more, in whatever order and with any number of other steps between them,
  -- the initialisation is done, once; and each thread that then takes two more steps is past the
  -- barrier.
  pub run-entered :
      (n t : ℕ) (l1 l2 : List Turn)
      → ((q : ℕ) → n ≤ q → occurrences q l1 ≡ 0)
      → ((q : ℕ) → q < n → 5 ≤ occurrences q l1)
      → t < n
      → 2 ≤ occurrences t l2
      → ((run p b l1 unloaded).init_stage ≡ 2)
        × ((run p b l1 unloaded).mutex_inits ≡ 1)
        × ((run p b (l1 ++ l2) unloaded).at t ≡ entered)
  run-entered n t l1 l2 others often lt more =
      let s : Loading = run p b l1 unloaded in
      let i : Running s = run-Running l1 unloaded-Running in
      let five : (q : ℕ) → q < n → 5 ≤ level (s.at q) =
        λ q below. run-level l1 q 5 unloaded (omega arith) (omega (arith, often q below)) in
      let far : (q : ℕ) → (5 ≤ level (s.at q)) ⊎ (s.at q ≡ check_stage) = λ q. elim (dec_lt q n) [
        | yes below ↦ inl (five q below)
        | no above ↦ inr (run-idle l1 q unloaded (others q (omega arith)))
      ] in
      let ready = init_stage-done (run-Reachable l1 start) i t far (five t lt) in
      let near : distance (s.at t) ≤ occurrences t l2 =
        omega (arith, near_loop (s.at t) (five t lt) (i.safe t)) in
      (
        ready.0,
        ready.1,
        rw (run-append l1 l2 unloaded) (run-last l2 t s i ready.0 (five t lt) near),
      )
    where
      near_loop : (c : Stage) → 5 ≤ level c → is_lost c ≡ false → distance c ≤ 2
      near_loop wait high safe = omega arith
      near_loop body high safe = omega arith
      near_loop entered high safe = omega arith
      near_loop aborted high safe = absurd (cc)
      near_loop undefined high safe = absurd (cc)
      near_loop _ high safe = absurd (omega arith)
