-- ===== src/Interruptible/Table/Unlink.antt =====
-- The first half of MtInterruptible_free on one chain: which links change.
use lua_mtint.Base.{
  ℕ, ◌≡◌, ◌≢◌, ◌⊎◌, inl, inr, refl, sym, ◌∙◌, false, not, ◌&&◌, none, some, List, [], ◌∷◌, arith,
  ◌==◌, ◌∈◌, ◌∉◌, Bool-cases, Option, erase, not-mem-erase, ap, if◌then◌else◌, eq_of_==, ==_refl,
}
use lua_mtint.Interruptible.Store.{
  Ptr, null, Slot, null_slot, first_of, next_of, MtInterruptible, Objects,
}
use lua_mtint.Interruptible.Chain.{Link, Seg, nil, cons, Seg-frame}

abbrev pub with_next : Ptr → Option MtInterruptible → Option MtInterruptible
with_next x none = none
with_next x (some o) = some (record o { next_interruptible = x })

abbrev pub with_prev : Slot → Option MtInterruptible → Option MtInterruptible
with_prev slot none = none
with_prev slot (some o) = some (record o { prev_interruptible_ptr = slot })

-- `*slot = x`, where the slot lies in an object.
abbrev pub write_next : Slot → Ptr → Objects → Objects
write_next (next_of r) x m q = if r == q then with_next x (m q) else m q
write_next slot x m q = m q

-- `a->prevInterruptiblePtr = slot`, if `a` is not NULL.
abbrev pub write_prev : Ptr → Slot → Objects → Objects
write_prev a slot m q = if not (a == null) && a == q then with_prev slot (m q) else m q

-- The objects after `p`, which held `o`, has been taken out of its chain and freed.
abbrev pub unlinked : Objects → Ptr → MtInterruptible → Objects
unlinked m p o q =
    if p == q
    then none
    else write_prev o.next_interruptible o.prev_interruptible_ptr
        (write_next o.prev_interruptible_ptr o.next_interruptible m) q

-- The object in which the slot lies is not in the list.
abbrev pub IsOutside : Slot → List Ptr → Type 0
IsOutside (next_of r) xs = r ∉ xs
IsOutside _ xs = Unit {0}

-- The neighbours of `p` in its chain.
pub record Neighbours (slot : Slot) (head : Ptr) (xs : List Ptr) (p : Ptr) (o : MtInterruptible)
    : Type 0 where
  pub before :
      ((head ≡ p) × (o.prev_interruptible_ptr ≡ slot))
      ⊎ ((head ≢ p) × ((r : Ptr) × (o.prev_interruptible_ptr ≡ next_of r) × (r ∈ xs) × (r ≢ p)))
  pub behind :
      (o.next_interruptible ≡ null) ⊎ ((o.next_interruptible ∈ xs) × (o.next_interruptible ≢ p))

module _ {m : Objects} {n i : ℕ} (p : Ptr) (o : MtInterruptible) (at : m p ≡ some o) where
  head_neighbours :
      {slot : Slot} {x : Ptr} {xs : List Ptr}
      → p ∉ xs
      → Seg m n i slot x xs
      → (x ≡ null) ⊎ ((x ∈ xs) × (x ≢ p))
  head_neighbours out (nil e) = inl e
  head_neighbours out (cons {q} e l out' rest) = inr (ground arith, ground arith)

  pub Seg-Neighbours :
      {slot : Slot} {head : Ptr} {xs : List Ptr}
      → Seg m n i slot head xs
      → p ∈ xs
      → Neighbours slot head xs p o
  Seg-Neighbours (nil e) inside = absurd (cc)
  Seg-Neighbours {slot} {head} (cons {q} {o = c} {xs} e l out rest) inside =
      elim (Bool-cases (q == p)) [
        | inl eq ↦
            let same : c ≡ o = ground (arith, l.holds, at) in
            let behind' = head_neighbours (ground arith) rest in
            record {
              before = inl (
                ground arith,
                ap (λ (t : MtInterruptible). t.prev_interruptible_ptr) (sym same) ∙ l.back,
              );
              behind = ground (arith, same, behind');
            }
        | inr ne ↦
            let h = Seg-Neighbours rest (ground arith) in
            record {
              before = inr (
                ground arith,
                elim h.before [
                  | inl (_, back) ↦ (q, back, ground arith, ground arith)
                  | inr (_, (r, back, r_in, r_ne)) ↦ (r, back, ground arith, r_ne)
                ],
              );
              behind = ground (arith, h.behind);
            }
      ]

IsOutside-tail :
    (slot : Slot) (x : Ptr) (xs : List Ptr) → IsOutside slot (x ∷ xs) → IsOutside slot xs
IsOutside-tail null_slot x xs out = tt
IsOutside-tail (first_of list i) x xs out = tt
IsOutside-tail (next_of r) x xs out = ground arith

pub write_next-outside :
    (slot : Slot) (x : Ptr) (m : Objects) (xs : List Ptr) (q : Ptr)
    → IsOutside slot xs
    → q ∈ xs
    → write_next slot x m q ≡ m q
write_next-outside null_slot x m xs q out inside = refl
write_next-outside (first_of list i) x m xs q out inside = refl
write_next-outside (next_of r) x m xs q out inside = ground arith

-- An object that is not next to `p` stays as it was.
pub unlinked-far :
    {slot : Slot} {head : Ptr} {xs : List Ptr} (m : Objects) (p : Ptr) (o : MtInterruptible)
    (q : Ptr)
    → Neighbours slot head xs p o
    → IsOutside slot (q ∷ [])
    → q ∉ xs
    → q ≢ null
    → p ≢ q
    → unlinked m p o q ≡ m q
unlinked-far {slot} {xs} m p o q h outside out ne_null ne = elim h.before [
  | inl (_, back) ↦
      ground (arith, write_next-outside slot o.next_interruptible m (q ∷ []) q outside, h.behind)
  | inr (_, (r, back, r_in, r_ne)) ↦ ground (arith, h.behind)
]

module _ {m : Objects} {n i : ℕ} (p : Ptr) (o : MtInterruptible) (at : m p ≡ some o) where
  -- `p` headed its chain: its successor takes over its slot.
  unlink_head :
      {slot : Slot} {head : Ptr} {xs : List Ptr}
      → IsOutside slot xs
      → p ∉ xs
      → o.prev_interruptible_ptr ≡ slot
      → o.next_interruptible ≡ head
      → Seg m n i (next_of p) head xs
      → Seg (unlinked m p o) n i slot head xs
  unlink_head outside out back front (nil e) = nil e
  unlink_head {slot} {head} outside out back front (cons {q = y} {o = d} {xs} e l out' rest) =
      cons {o = record d { prev_interruptible_ptr = slot }} e
        (record {
          ne_null = l.ne_null;
          holds = ground (
            arith,
            back,
            front,
            l.holds,
            l.ne_null,
            write_next-outside slot o.next_interruptible m (y ∷ xs) y outside,
          );
          back = refl;
          is_nat = l.is_nat;
          home = l.home;
        })
        out'
        (Seg-frame
          (λ a inside.
            ground (arith, back, write_next-outside slot o.next_interruptible m (y ∷ xs) a outside))
          rest)

  -- `p` comes later: only a direct predecessor changes.
  unlink_tail :
      {slot : Slot} {x : Ptr} {c : MtInterruptible} {xs : List Ptr}
      → Link m n i slot x c
      → x ∉ xs
      → Seg m n i (next_of x) c.next_interruptible xs
      → p ≢ x
      → p ∈ xs
      → Seg
          (unlinked m p o)
          n
          i
          (next_of x)
          (if c.next_interruptible == p then o.next_interruptible else c.next_interruptible)
          (erase p xs)
      → Seg (unlinked m p o) n i slot x (x ∷ erase p xs)
  unlink_tail {x} {c} {xs} l out rest ne inside shorter =
      let h = Seg-Neighbours p o at rest inside in
      elim h.before [
        | inl (next, back) ↦
            cons {o = record c { next_interruptible = o.next_interruptible }} refl
              (record {
                ne_null = l.ne_null;
                holds = ground (arith, l.holds, back, h.behind, l.ne_null);
                back = l.back;
                is_nat = l.is_nat;
                home = l.home;
              })
              (not-mem-erase x p xs out) (rw (next, ==_refl p) at shorter)
        | inr (far, (r, back, r_in, r_ne)) ↦
            let apart : (c.next_interruptible == p) ≡ false = ground arith in
            cons {o = c} refl
              (record {
                ne_null = l.ne_null;
                holds = ground (arith, l.holds, back, h.behind, l.ne_null);
                back = l.back;
                is_nat = l.is_nat;
                home = l.home;
              })
              (not-mem-erase x p xs out) (rw apart at shorter)
      ]

  -- The chain without `p`; `head` is what the first slot holds.
  pub Seg-unlinked :
      {slot : Slot} {head : Ptr} {xs : List Ptr}
      → IsOutside slot xs
      → p ∈ xs
      → Seg m n i slot head xs
      → Seg
          (unlinked m p o)
          n
          i
          slot
          (if head == p then o.next_interruptible else head)
          (erase p xs)
  unfolding erase
  Seg-unlinked outside inside (nil e) = absurd (cc)
  Seg-unlinked {slot} {head} outside inside (cons {q = x} {o = c} {xs} e l out rest) =
      elim (Bool-cases (x == p)) [
        | inl eq ↦
            let same : c ≡ o = ground (arith, l.holds, at) in
            let is_p : x ≡ p = eq_of_== x p eq in
            rw (e, eq)
              (unlink_head (IsOutside-tail slot x xs outside) (ground arith)
                (ap (λ (t : MtInterruptible). t.prev_interruptible_ptr) (sym same) ∙ l.back) refl
                (rw (← same, ← is_p) rest))
        | inr ne ↦
            rw (e, ne)
              (unlink_tail l out rest (ground arith) (ground arith)
                (Seg-unlinked out (ground arith) rest))
      ]
