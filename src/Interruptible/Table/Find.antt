-- ===== src/Interruptible/Table/Find.antt =====
-- findInterruptibleWithId on a valid table.
use lua_mtint.Base.{
  ℕ, zero, suc, ◌+◌, ◌%◌, ◌<◌, ◌≡◌, ◌≢◌, refl, ◌⊎◌, true, false, List, arith, ◌==◌, ◌∈◌, length,
  if◌then◌else◌, Bool-cases, inl, inr, eq_of_==, ap, ◌∙◌,
}
use lua_mtint.Base.Int.{ℤ, negsuc, pos_part, eqb_ℤ, eqb_ℤ_parts}
use lua_mtint.Interruptible.Store.{Ptr, null, Slot, Objects, Store, ok, fault, out_of_bounds}
use lua_mtint.Interruptible.Chain.{IsNat, Seg, nil, cons, Seg-home}
use lua_mtint.Interruptible.Buckets.{bucket_index, find_in_chain, find_interruptible_with_id}
use lua_mtint.Interruptible.Table.{Chains, Table, bucket_index-pos}
use lua_mtint.Interruptible.Table.Valid.{
  Live, IsEmptyTable, IsFullTable, IsValid, full_of_pos, length-le-total, has_id,
}

-- What a search for `id` among `xs` returns: NULL if none has it, else one that has it.
record Found (m : Objects) (id : ℤ) (xs : List Ptr) (p : Ptr) : Type 0 where
  missed : p ≡ null → (q : Ptr) → q ∈ xs → has_id m id q ≡ false
  hit : p ≢ null → (p ∈ xs) × (has_id m id p ≡ true)

find_in_chain-Found :
    {n i : ℕ} {slot : Slot} {p : Ptr} {xs : List Ptr} (s : Store) (fuel : ℕ) (id : ℤ)
    → Seg s.object n i slot p xs
    → length xs < fuel
    → (r : Ptr) × (find_in_chain fuel p id s ≡ ok r s) × Found s.object id xs r
unfolding find_in_chain
find_in_chain-Found s zero id g h = absurd (omega arith)
find_in_chain-Found s (suc k) id (nil e) h = (
  null,
  ground arith,
  record { missed = λ e q inside. ground arith; hit = λ ne. absurd (ne refl) },
)
find_in_chain-Found s (suc k) id (cons {q} {o} e l out rest) h = elim (Bool-cases (eqb_ℤ o.id id)) [
  | inl yes' ↦ (
    q,
    ground (arith, l.holds, l.ne_null),
    record {
      missed = λ z. absurd (l.ne_null z);
      hit = λ ne. (ground arith, ground (arith, l.holds));
    },
  )
  | inr no' ↦
      let (r, run, f) = find_in_chain-Found s k id rest (omega arith) in
      (
        r,
        ground (arith, l.holds, l.ne_null),
        record {
          missed = λ z a inside. ground (arith, l.holds, f.missed z a);
          hit = λ ne. ground (arith, f.hit ne);
        },
      )
]

-- What findInterruptibleWithId promises for `n` chains.
record Answer (m : Objects) (n : ℕ) (chain : Chains) (id : ℤ) (p : Ptr) : Type 0 where
  missed : p ≡ null → (q : Ptr) → Live n chain q → has_id m id q ≡ false
  hit : p ≢ null → Live n chain p × (has_id m id p ≡ true)

module _ {s : Store} {list n : ℕ} {chain : Chains} (t : Table s list n chain) (id : ℤ)
    (pos_n : 0 < n) where
  -- An object with the id can only be in the chain that the id leads to.
  home_of_has_id :
      (j : ℕ) (q : Ptr) → j < n → q ∈ chain j → has_id s.object id q ≡ true → pos_part id % n ≡ j
  home_of_has_id j q lt inside same =
      let (o, at, nat', home, _) = Seg-home q (t.seg j lt) inside in
      let eq : eqb_ℤ o.id id ≡ true = ground (arith, at) in
      let parts : pos_part o.id ≡ pos_part id = eqb_ℤ_parts o.id id eq in rw parts at home

  answer : (p : Ptr) → Found s.object id (chain (pos_part id % n)) p → Answer s.object n chain id p
  answer p f = record {
    missed = λ z q (j, lt, inside). elim (Bool-cases (has_id s.object id q)) [
      | inl same ↦ ground (arith, home_of_has_id j q lt inside same, f.missed z q)
      | inr differs ↦ differs
    ];
    hit = λ ne. ((pos_part id % n, omega arith, (f.hit ne).0), (f.hit ne).1);
  }

-- No live object has the id, and NULL is returned; or a live object that has it is.
abbrev pub Finds : Store → Chains → ℤ → Type 0
Finds s chain id =
    ((find_interruptible_with_id id s ≡ ok null s)
      × ((q : Ptr) → Live s.interruptible_buckets chain q → has_id s.object id q ≡ false))
    ⊎ ((p : Ptr) × (p ≢ null)
        × (find_interruptible_with_id id s ≡ ok p s)
        × Live s.interruptible_buckets chain p
        × (has_id s.object id p ≡ true))

module _ (s : Store) {chain : Chains} (v : IsValid s chain) (id : ℤ) (nat : IsNat id) where
  find-empty : IsEmptyTable s → Finds s chain id
  unfolding find_interruptible_with_id
  find-empty (no_list, no_buckets) =
      inl (rw no_list refl, λ q (i, lt, inside). absurd (omega arith))

  decided :
      (p : Ptr)
      → find_interruptible_with_id id s ≡ ok p s
      → Answer s.object s.interruptible_buckets chain id p
      → Finds s chain id
  decided p run a = elim (Bool-cases (p == null)) [
    | inl e ↦
        let is_null : p ≡ null = eq_of_== p null e in
        inl (run ∙ ap (λ q. ok q s) is_null, a.missed is_null)
    | inr ne ↦
        let ne_null : p ≢ null = ground arith in
        let (live, same) = a.hit ne_null in inr (p, ne_null, run, live, same)
  ]

  find-full : IsFullTable s chain → Finds s chain id
  unfolding find_interruptible_with_id
  find-full (list, pos_n, t) =
      let i = pos_part id % s.interruptible_buckets in
      let long = length-le-total s.interruptible_buckets chain i (omega arith) in
      let (p, run, f) =
        find_in_chain-Found s (s.interruptible_counter + 1) id (t.seg i (omega arith))
          (omega (arith, v.counted)) in
      decided p
        (ground
          (arith, bucket_index-pos id s.interruptible_buckets s pos_n nat, t.found, t.size, run))
        (answer t id pos_n p f)

  -- On a valid table, findInterruptibleWithId with an id that is not negative neither faults nor
  -- runs out of fuel. It returns NULL if no live object has the id, and otherwise a live object
  -- that has it; it changes nothing.
  pub find_interruptible_with_id-Live : Finds s chain id
  find_interruptible_with_id-Live = elim v.table [
    | inl empty ↦ find-empty empty
    | inr full ↦ find-full full
  ]

-- No object of a chain has a negative id, so none is found.
null_of_negative :
    {m : Objects} {n : ℕ} {slot : Slot} {p head : Ptr} {xs : List Ptr} {a : ℕ}
    → Found m (negsuc a) xs p
    → Seg m n 0 slot head xs
    → p ≡ null
null_of_negative {m} {p} {a} f g = elim (Bool-cases (p == null)) [
  | inl e ↦ eq_of_== p null e
  | inr ne ↦
      let (inside, same) = f.hit (ground arith) in
      let (o, at, nat', _, _) = Seg-home p g inside in absurd (ground (arith, at, nat'))
]

-- On a valid table with an array, a search for a negative id reads outside the array, unless the
-- number of buckets divides the id: then it returns NULL.
pub find_interruptible_with_id-negative :
    (s : Store) {chain : Chains} (v : IsValid s chain) (pos_n : 0 < s.interruptible_buckets) (a : ℕ)
    → find_interruptible_with_id (negsuc a) s
      ≡ (if suc a % s.interruptible_buckets == 0 then ok null s else fault out_of_bounds)
unfolding find_interruptible_with_id bucket_index
find_interruptible_with_id-negative s {chain} v pos_n a =
    let (list, _, t) = full_of_pos s v pos_n in
    let long = length-le-total s.interruptible_buckets chain 0 pos_n in
    let (p, run, f) =
      find_in_chain-Found s (s.interruptible_counter + 1) (negsuc a) (t.seg 0 pos_n)
        (omega (arith, v.counted)) in
    let missed : p ≡ null = null_of_negative f (t.seg 0 pos_n) in
    ground (arith, list, t.found, t.size, run, missed)
