-- ===== src/Interruptible/Objects/Holders.antt =====
-- The reference count of one object, with any number of threads. A holder is user data that refer to
-- the object, or a call of Mtint_interrupt that works on it. The count is changed by atomic steps
-- outside the global lock; a search and a free are each one step under that lock.
use lua_mtint.Base.{
  ℕ, ◌+◌, ◌-◌, ◌%◌, ◌^◌, ◌≡◌, ◌≢◌, ◌≤◌, ◌<◌, ◌⊎◌, ◌∙◌, refl, arith, Bool, true, false, ◌==◌,
  if◌then◌else◌, inl, inr,
}
use lua_mtint.Base.Counts.{sum_below, sum_below-change, le-sum_below, sum_below-zero, sum_below-le}
use lua_mtint.Atomic.{inc32, dec32}

pub data Position : Type 0 where
  outside : Position  -- no reference
  holding : Position  -- a reference that is counted
  freeing : Position  -- the count was decremented to 0; the free comes next

-- The object: `used`, and whether it is not freed; and the position of each holder.
pub record Shared : Type 0 where
  pub used : ℕ
  pub live : Bool
  pub at : ℕ → Position

abbrev pub move : ℕ → Position → Shared → Shared
move t c s = record s { at = λ q. if t == q then c else s.at q }

-- A search finds the object, and the count is raised, all under the lock: lines 362-372 and 532-541.
unfoldable pub find : ℕ → Shared → Shared
unfolding inc32
find t s = move t holding (record s { used = inc32 s.used })

-- `atomic_dec(&intrp->used) == 0`: lines 420 and 546
unfoldable pub drop : ℕ → Shared → Shared
unfolding dec32
drop t s =
    let left = dec32 s.used in
    move t (if left == 0 then freeing else outside) (record s { used = left })

-- MtInterruptible_free under the lock: lines 421-423 and 547-549
unfoldable pub release : ℕ → Shared → Shared
release t s = move t outside (record s { live = false })

-- The object as assureCreatedMtInterruptible leaves it, held by `t`.
abbrev pub created : ℕ → Shared
created t = record { used = 1; live = true; at = λ q. if t == q then holding else outside }

-- What holders below `n` do, if no search finds the object when nothing is counted any more.
pub data Reachable (n : ℕ) : Shared → Type 0 where
  start : (t : ℕ) → t < n → Reachable n (created t)
  found :
      {s : Shared} (t : ℕ)
      → t < n
      → s.at t ≡ outside
      → s.live ≡ true
      → s.used ≢ 0
      → Reachable n s
      → Reachable n (find t s)
  dropped : {s : Shared} (t : ℕ) → t < n → s.at t ≡ holding → Reachable n s → Reachable n (drop t s)
  released :
      {s : Shared} (t : ℕ) → t < n → s.at t ≡ freeing → Reachable n s → Reachable n (release t s)

abbrev pub weight : Position → ℕ
weight outside = 0
weight holding = 1
weight freeing = 0

-- How many of the holders below `n` have a reference.
abbrev pub holders : ℕ → Shared → ℕ
holders n s = sum_below n (λ q. weight (s.at q))

record Counted (n : ℕ) (s : Shared) : Type 0 where
  used_is : s.used ≡ holders n s
  live_is : (q : ℕ) → q < n → s.at q ≡ holding → s.live ≡ true
  free_is : (q : ℕ) → s.at q ≡ freeing → (s.live ≡ true) × (s.used ≡ 0)
  one : (q r : ℕ) → s.at q ≡ freeing → s.at r ≡ freeing → q ≡ r

holders-move :
    (n t : ℕ) (c : Position) (f : ℕ → Position)
    → t < n
    → sum_below n (λ q. weight (if t == q then c else f q)) + weight (f t)
      ≡ sum_below n (λ q. weight (f q)) + weight c
holders-move n t c f lt =
    sum_below-change n t (λ q. weight (f q)) (λ q. weight (if t == q then c else f q))
      (λ q ne. ground arith) lt
    ∙ ground arith

weight-le : (c : Position) → weight c ≤ 1
weight-le outside = omega arith
weight-le _ = omega arith

holders-le : (n : ℕ) (s : Shared) → holders n s ≤ n
holders-le n s = sum_below-le n (λ q. weight (s.at q)) (λ q. weight-le (s.at q))

le-holders : (n q : ℕ) (s : Shared) → q < n → s.at q ≡ holding → 1 ≤ holders n s
le-holders n q s lt e = ground (arith, le-sum_below n q (λ r. weight (s.at r)))

module _ (n t : ℕ) (s : Shared) (small : n < 2 ^ 31) (lt : t < n) (c : Counted n s) where
  find-Counted : s.at t ≡ outside → s.live ≡ true → s.used ≢ 0 → Counted n (find t s)
  unfolding find
  find-Counted at live some' = record {
    used_is = ground (arith, holders-move n t holding s.at lt, c.used_is, holders-le n s);
    live_is = λ q below e. live;
    free_is = λ q e. absurd (ground (arith, c.free_is q));
    one = λ q r e e'. absurd (ground (arith, c.free_is q));
  }

  -- No other holder is about to free the object that `t` still counts.
  none_freeing : s.at t ≡ holding → (q : ℕ) → s.at q ≢ freeing
  none_freeing at q e = omega (arith, (c.free_is q e).1, c.used_is, le-holders n t s lt at)

  drop-used : s.at t ≡ holding → (drop t s).used ≡ holders n (drop t s)
  unfolding drop
  drop-used at =
      let left : ℕ = (s.used + 2 ^ 32 - 1) % 2 ^ 32 in
      let c' : Position = if left == 0 then freeing else outside in
      let nothing : weight c' ≡ 0 = ground arith in
      let one' : weight (s.at t) ≡ 1 = ground (arith, at) in
      omega (
        arith,
        holders-move n t c' s.at lt,
        nothing,
        one',
        c.used_is,
        le-holders n t s lt at,
        holders-le n s,
      )

  drop-Counted : s.at t ≡ holding → Counted n (drop t s)
  unfolding drop
  drop-Counted at = record {
    used_is = drop-used at;
    live_is = λ q below e. c.live_is t lt at;
    free_is = λ q e. ground (arith, none_freeing at q, c.live_is t lt at);
    one = λ q r e e'. ground (arith, none_freeing at q, none_freeing at r);
  }

  release-Counted : s.at t ≡ freeing → Counted n (release t s)
  unfolding release
  release-Counted at = record {
    used_is = ground (arith, holders-move n t outside s.at lt, c.used_is);
    live_is = λ q below e. absurd (ground (arith, le-holders n q s, c.free_is t, c.used_is));
    free_is = λ q e. absurd (ground (arith, c.one t q));
    one = λ q r e e'. absurd (ground (arith, c.one t q));
  }

created-Counted : (n t : ℕ) → t < n → Counted n (created t)
created-Counted n t lt = record {
  used_is = omega (arith, holders-move n t holding (λ q. outside) lt, sum_below-zero n);
  live_is = λ q below e. refl;
  free_is = λ q e. absurd (ground arith);
  one = λ q r e e'. absurd (ground arith);
}

Counted-Reachable : {n : ℕ} {s : Shared} → n < 2 ^ 31 → Reachable n s → Counted n s
Counted-Reachable {n} small (start t lt) = created-Counted n t lt
Counted-Reachable {n} small (found {s} t lt at live some' r) =
    find-Counted n t s small lt (Counted-Reachable small r) at live some'
Counted-Reachable {n} small (dropped {s} t lt at r) =
    drop-Counted n t s small lt (Counted-Reachable small r) at
Counted-Reachable {n} small (released {s} t lt at r) =
    release-Counted n t s small lt (Counted-Reachable small r) at

module _ (n : ℕ) (s : Shared) (c : Counted n s) where
  -- While `q` is about to free the object, any other holder is outside.
  other-outside :
      (q r : ℕ) (d : Position)
      → s.at q ≡ freeing
      → s.at r ≡ d
      → r < n
      → (r ≡ q) ⊎ (s.at r ≡ outside)
  other-outside q r outside at_q at_r below = inr at_r
  other-outside q r holding at_q at_r below =
      absurd (omega (arith, (c.free_is q at_q).1, c.used_is, le-holders n r s below at_r))
  other-outside q r freeing at_q at_r below = inl (c.one r q at_r at_q)

  inside :
      (q r : ℕ) (d : Position)
      → s.at q ≡ d
      → q < n
      → r < n
      → s.at q ≢ outside
      → (s.live ≡ true)
        × (s.used ≡ holders n s)
        × ((s.at q ≡ holding)
            ⊎ ((s.at q ≡ freeing) × (s.used ≡ 0) × ((r ≡ q) ⊎ (s.at r ≡ outside))))
  inside q r outside at lt_q lt_r ne = absurd (ne at)
  inside q r holding at lt_q lt_r ne = (c.live_is q lt_q at, c.used_is, inl at)
  inside q r freeing at lt_q lt_r ne = (
    (c.free_is q at).0,
    c.used_is,
    inr (at, (c.free_is q at).1, other-outside q r (s.at r) at refl lt_r),
  )

-- With fewer than 2 ^ 31 holders, whatever the order of their steps, provided that no search finds
-- the object while nothing is counted: as long as one of them has a reference or is about to free the
-- object, it is not freed, and `used` is the number of holders that have a reference. A holder that
-- is about to free it finds the count at 0 and every other holder outside.
pub Reachable-holders :
    {n : ℕ} {s : Shared}
    → n < 2 ^ 31
    → Reachable n s
    → (q r : ℕ) → q < n
    → r < n
    → s.at q ≢ outside
    → (s.live ≡ true)
      × (s.used ≡ holders n s)
      × ((s.at q ≡ holding) ⊎ ((s.at q ≡ freeing) × (s.used ≡ 0) × ((r ≡ q) ⊎ (s.at r ≡ outside))))
Reachable-holders {n} {s} small reached q r lt_q lt_r ne =
    inside n s (Counted-Reachable small reached) q r (s.at q) refl lt_q lt_r ne
