-- ===== src/Interruptible/Chain.antt =====
-- Chains of objects: what the pointers of one bucket stand for, and how they survive writes.
use lua_mtint.Base.{
  ℕ, ◌%◌, ◌≡◌, ◌≢◌, refl, some, List, [], ◌∷◌, arith, ◌==◌, ◌∈◌, ◌∉◌, Bool-cases, inl, inr, ◌∙◌,
  subst, sym,
}
use lua_mtint.Base.Int.{ℤ, pos, pos_part}
use lua_mtint.Interruptible.Store.{Ptr, null, Slot, next_of, MtInterruptible, Objects, update}

abbrev pub IsNat : ℤ → Type 0
IsNat id = id ≡ pos (pos_part id)

-- `q` holds `o`, whose id belongs in bucket `i` of `n` and which knows the slot that points at it.
pub record Link (m : Objects) (n i : ℕ) (slot : Slot) (q : Ptr) (o : MtInterruptible) : Type 0 where
  pub ne_null : q ≢ null
  pub holds : m q ≡ some o
  pub back : o.prev_interruptible_ptr ≡ slot
  pub is_nat : IsNat o.id
  pub home : pos_part o.id % n ≡ i

-- `slot` holds `p`, from which the objects `xs` are linked in both directions.
pub data Seg (m : Objects) (n i : ℕ) : Slot → Ptr → List Ptr → Type 0 where
  nil : {slot : Slot} {p : Ptr} → p ≡ null → Seg m n i slot p []
  cons :
      {slot : Slot} {p q : Ptr} {o : MtInterruptible} {xs : List Ptr}
      → p ≡ q
      → Link m n i slot q o
      → q ∉ xs
      → Seg m n i (next_of q) o.next_interruptible xs
      → Seg m n i slot p (q ∷ xs)

module _ {m : Objects} {n i : ℕ} where
  pub Link-frame :
      {m' : Objects} {slot : Slot} {q : Ptr} {o : MtInterruptible}
      → m' q ≡ m q
      → Link m n i slot q o
      → Link m' n i slot q o
  Link-frame e l = record {
    ne_null = l.ne_null;
    holds = e ∙ l.holds;
    back = l.back;
    is_nat = l.is_nat;
    home = l.home;
  }

  pub Seg-frame :
      {m' : Objects} {slot : Slot} {p : Ptr} {xs : List Ptr}
      → ((q : Ptr) → q ∈ xs → m' q ≡ m q)
      → Seg m n i slot p xs
      → Seg m' n i slot p xs
  Seg-frame same (nil e) = nil e
  Seg-frame same (cons {q} e l out rest) =
      cons e (Link-frame (same q (ground arith)) l) out
        (Seg-frame (λ a h. same a (ground arith)) rest)

  -- Every object of the segment is there, and its bucket is a function of its id.
  pub Seg-home :
      {slot : Slot} {p : Ptr} {xs : List Ptr} (q : Ptr)
      → Seg m n i slot p xs
      → q ∈ xs
      → (o : MtInterruptible) × (m q ≡ some o) × IsNat o.id × (pos_part o.id % n ≡ i) × (q ≢ null)
  Seg-home q (nil e) inside = absurd (cc)
  Seg-home q (cons {q = x} {o} e l out rest) inside = elim (Bool-cases (x == q)) [
    | inl eq ↦ (o, ground (arith, l.holds), l.is_nat, l.home, ground (arith, l.ne_null))
    | inr ne ↦ Seg-home q rest (ground arith)
  ]

  -- A new slot for the first object.
  pub Seg-reslot :
      {slot : Slot} {p q : Ptr} {xs : List Ptr} (slot' : Slot)
      → Seg m n i slot p (q ∷ xs)
      → (o : MtInterruptible) × (m q ≡ some o)
        × Seg (update m q (some (record o { prev_interruptible_ptr = slot' }))) n i slot' q (q ∷ xs)
  Seg-reslot slot' (cons {o} e l out rest) = (
    o,
    l.holds,
    cons {o = record o { prev_interruptible_ptr = slot' }} refl
        (record {
          ne_null = l.ne_null;
          holds = ground arith;
          back = refl;
          is_nat = l.is_nat;
          home = l.home;
        })
        out (Seg-frame (λ a h. ground arith) rest),
  )

  pub Seg-nil : {slot : Slot} {p : Ptr} → Seg m n i slot p [] → p ≡ null
  Seg-nil (nil e) = e

  pub Seg-first : {slot : Slot} {p q : Ptr} {xs : List Ptr} → Seg m n i slot p (q ∷ xs) → p ≡ q
  Seg-first (cons e l out rest) = e

-- The objects of `m` are in `m'`, with the same ids and links.
abbrev pub SameLinks : Objects → Objects → Type 0
SameLinks m m' =
    (q : Ptr) (o : MtInterruptible)
    → m q ≡ some o
    → (o' : MtInterruptible) × (m' q ≡ some o')
      × (o'.id ≡ o.id)
      × (o'.prev_interruptible_ptr ≡ o.prev_interruptible_ptr)
      × (o'.next_interruptible ≡ o.next_interruptible)

module _ {m m' : Objects} {n i : ℕ} (same : SameLinks m m') where
  pub Seg-touch :
      {slot : Slot} {p : Ptr} {xs : List Ptr} → Seg m n i slot p xs → Seg m' n i slot p xs
  Seg-touch (nil e) = nil e
  Seg-touch {slot} {p} (cons {q} {o} {xs} e l out rest) =
      let (o', at, id, back, next) = same q o l.holds in
      cons {o = o'} e
        (record {
          ne_null = l.ne_null;
          holds = at;
          back = back ∙ l.back;
          is_nat = rw id l.is_nat;
          home = rw id l.home;
        })
        out (subst (λ z. Seg m' n i (next_of q) z xs) (sym next) (Seg-touch rest))
