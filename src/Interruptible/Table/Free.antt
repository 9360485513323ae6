-- ===== src/Interruptible/Table/Free.antt =====
-- MtInterruptible_free.
use lua_mtint.Base.{
  ◌*◌, ℕ, zero, suc, ◌+◌, ◌^◌, ◌<◌, ◌≡◌, ◌≢◌, ◌↔◌, refl, ◌∙◌, ap, true, none, some, List, arith,
  ◌==◌, ◌∈◌, ◌∉◌, has, erase, length-erase, has-erase_ne, Bool-cases, inl, inr, eq_of_==,
}
use lua_mtint.Base.Int.{signed32}
use lua_mtint.Atomic.{dec32}
use lua_mtint.Interruptible.Store.{Ptr, Slot, Objects, Store, ok, MtInterruptible}
use lua_mtint.Interruptible.Chain.{Seg, nil, cons}
use lua_mtint.Interruptible.Buckets.{unlink, shrink, mt_interruptible_free}
use lua_mtint.Interruptible.Table.{Chains, Table-frame, Table-apart, payload}
use lua_mtint.Interruptible.Table.Valid.{
  total, total-congr, Live, IsValid, IsFullTable, full_of_pos, full_of_table,
}
use lua_mtint.Interruptible.Table.Grow.{IsCalloced, SameLive}
use lua_mtint.Interruptible.Table.UnlinkRun.{drop_from, Dropped, unlink_lem}
use lua_mtint.Interruptible.Table.Shrink.{shrink_lem}

-- What MtInterruptible_free does to a live object.
pub record Freed (s t : Store) (chain chain' : Chains) (p : Ptr) : Type 0 where
  pub valid : IsValid t chain'
  pub live :
      (q : Ptr)
      → Live t.interruptible_buckets chain' q ↔ (Live s.interruptible_buckets chain q × (q ≢ p))
  pub counter : t.interruptible_counter + 1 ≡ s.interruptible_counter
  pub freed : t.object p ≡ none
  pub others : (q : Ptr) → q ≢ p → payload (t.object q) ≡ payload (s.object q)

free-run :
    (s s1 t : Store) (fresh p : Ptr)
    → unlink p s ≡ ok true s1
    → shrink fresh
        (signed32 (dec32 s1.interruptible_counter))
        (record s1 { interruptible_counter = dec32 s1.interruptible_counter })
      ≡ ok tt t
    → mt_interruptible_free fresh p s ≡ ok tt t
unfolding mt_interruptible_free
free-run s s1 t fresh p run1 run2 = ground arith

dec32-pos : (v : ℕ) → 0 < v → v < 2 ^ 31 → dec32 v + 1 ≡ v
unfolding dec32
dec32-pos v pos_v h = omega arith

erase_out :
    {m : Objects} {n i : ℕ} {slot : Slot} {head : Ptr} {xs : List Ptr} (p : Ptr)
    → Seg m n i slot head xs
    → p ∉ erase p xs
unfolding erase
erase_out p (nil e) = refl
erase_out p (cons {q} e l out rest) = elim (Bool-cases (q == p)) [
  | inl eq ↦ ground arith
  | inr ne ↦ ground (arith, erase_out p rest)
]

total-drop_from :
    (n : ℕ) (chain : Chains) (k : ℕ) (p : Ptr)
    → k < n
    → p ∈ chain k
    → total n (drop_from chain k p) + 1 ≡ total n chain
unfolding total
total-drop_from zero chain k p lt inside = absurd (omega arith)
total-drop_from (suc n) chain k p lt inside = elim (Bool-cases (k == n)) [
  | inl e ↦ ground (
    arith,
    total-congr n (drop_from chain k p) chain (λ j h. ground arith),
    length-erase p (chain k),
  )
  | inr e ↦ ground (arith, total-drop_from n chain k p)
]

module _ (s : Store) {chain : Chains} (v : IsValid s chain) (p : Ptr) (o : MtInterruptible)
    (at : s.object p ≡ some o) (small : s.interruptible_counter * 10 < 2 ^ 31) where
  module _ (k : ℕ) (lt : k < s.interruptible_buckets) (inside : p ∈ chain k) (s1 : Store)
      (d : Dropped s s1 s.interruptible_bucket_list s.interruptible_buckets chain k p) where
    full : IsFullTable s chain
    full = full_of_pos s v (omega arith)

    abbrev uncounted : Store
    uncounted = record s1 { interruptible_counter = dec32 s1.interruptible_counter }

    some_counted : 0 < s.interruptible_counter
    some_counted =
        omega (arith, v.counted, total-drop_from s.interruptible_buckets chain k p lt inside)

    counted_down : dec32 s1.interruptible_counter + 1 ≡ s.interruptible_counter
    counted_down =
        rw d.counter (dec32-pos s.interruptible_counter some_counted (omega (arith, small)))

    full_after : IsFullTable uncounted (drop_from chain k p)
    full_after =
        full_of_table uncounted d.bucket_list d.buckets full.0 full.1
          (Table-frame (λ q. refl) refl d.table)

    valid_after : IsValid uncounted (drop_from chain k p)
    valid_after = record {
      table = inr full_after;
      counted = omega (
        arith,
        counted_down,
        v.counted,
        total-drop_from s.interruptible_buckets chain k p lt inside,
        ap (λ n. total n (drop_from chain k p)) d.buckets,
      );
    }

    gone : (i : ℕ) → i < s.interruptible_buckets → p ∉ drop_from chain k p i
    gone i hi = elim (Bool-cases (k == i)) [
      | inl e ↦ rw e (erase_out p (full.2.seg k lt))
      | inr ne ↦ rw ne (elim (Bool-cases (has p (chain i))) [
        | inl also ↦ absurd (ground (arith, Table-apart full.2 k i p lt hi inside also))
        | inr out ↦ out
      ])
    ]

    live_after :
        (q : Ptr)
        → Live s.interruptible_buckets (drop_from chain k p) q
          ↔ (Live s.interruptible_buckets chain q × (q ≢ p))
    live_after q = (there, back)
      where
        there :
            Live s.interruptible_buckets (drop_from chain k p) q
            → Live s.interruptible_buckets chain q × (q ≢ p)
        there (i, hi, q_in) = elim (Bool-cases (p == q)) [
          | inl e ↦ absurd (ground (arith, gone i hi, eq_of_== p q e))
          | inr ne ↦ ((i, hi, ground (arith, has-erase_ne q p (chain k))), ground arith)
        ]

        back :
            Live s.interruptible_buckets chain q × (q ≢ p)
            → Live s.interruptible_buckets (drop_from chain k p) q
        back ((i, hi, q_in), ne) = (i, hi, ground (arith, has-erase_ne q p (chain k)))

    IsCalloced-after : (fresh : Ptr) → IsCalloced s fresh → IsCalloced uncounted fresh
    IsCalloced-after fresh calloced ne =
        d.arrays fresh (λ e. ground (arith, calloced ne, full.2.found)) ∙ calloced ne

    live_down :
        (q : Ptr)
        → Live s1.interruptible_buckets (drop_from chain k p) q
          ↔ (Live s.interruptible_buckets chain q × (q ≢ p))
    live_down q = rw d.buckets (live_after q)

    Freed-SameLive :
        {t : Store} {chain' : Chains}
        → SameLive uncounted t (drop_from chain k p) chain'
        → Freed s t chain chain' p
    Freed-SameLive same = record {
      valid = same.valid;
      live =
          λ q. (λ h. (live_down q).0 ((same.live q).1 h), λ h. (same.live q).0 ((live_down q).1 h));
      counter = rw same.counter counted_down;
      freed = same.others p (λ h. ((live_down p).0 h).1 refl) ∙ d.freed;
      others = λ q ne. same.payloads q ∙ d.payloads q ne;
    }

    abbrev Frees : Ptr → Type 0
    Frees fresh =
        (t : Store) × (chain' : Chains) × (mt_interruptible_free fresh p s ≡ ok tt t)
        × Freed s t chain chain' p

    freed : (fresh : Ptr) → unlink p s ≡ ok true s1 → IsCalloced s fresh → Frees fresh
    freed fresh run1 calloced =
        let (t, chain', run2, same) =
          shrink_lem uncounted valid_after (omega (arith, counted_down, small)) full_after fresh
            (IsCalloced-after fresh calloced) in
        (t, chain', free-run s s1 t fresh p run1 run2, Freed-SameLive same)

  -- Freeing a live object of a valid table of at most 214748364 objects, ten times whose number is an
  -- int, neither faults nor runs out of fuel. It is the one object that is no longer live, its memory
  -- is free, and the table is valid again, whether or not the array was given up or replaced.
  pub mt_interruptible_free_lem :
      (fresh : Ptr)
      → Live s.interruptible_buckets chain p
      → IsCalloced s fresh
      → (t : Store) × (chain' : Chains) × (mt_interruptible_free fresh p s ≡ ok tt t)
        × Freed s t chain chain' p
  mt_interruptible_free_lem fresh (k, lt, inside) calloced =
      let full = full_of_pos s v (omega arith) in
      let (s1, run1, d) = unlink_lem s full.2 k lt p inside o at in
      freed k lt inside s1 d fresh run1 calloced
