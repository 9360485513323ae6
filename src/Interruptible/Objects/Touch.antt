-- ===== src/Interruptible/Objects/Touch.antt =====
-- Writes to an object that leave its links and its id alone, as those to `used` and `L2` are.
use lua_mtint.Base.{ℕ, ◌≡◌, ◌≢◌, refl, some, arith, ◌==◌, Bool-cases, inl, inr}
use lua_mtint.Interruptible.Store.{Ptr, null, Store, MtInterruptible, put_object, update}
use lua_mtint.Interruptible.Chain.{SameLinks, Seg-touch, Seg-home}
use lua_mtint.Interruptible.Table.{Chains, Table}
use lua_mtint.Interruptible.Table.Valid.{IsValid, Live, full_of_pos}

-- The same links and id.
pub record IsTouched (o o' : MtInterruptible) : Type 0 where
  pub id : o'.id ≡ o.id
  pub prev : o'.prev_interruptible_ptr ≡ o.prev_interruptible_ptr
  pub next : o'.next_interruptible ≡ o.next_interruptible

module _ (s : Store) {p : Ptr} {o o' : MtInterruptible} (at : s.object p ≡ some o)
    (same : IsTouched o o') where
  same_links : SameLinks s.object (update s.object p (some o'))
  same_links q d at_q = elim (Bool-cases (p == q)) [
    | inl e ↦ (
      o',
      ground arith,
      ground (arith, at, at_q, same.id),
      ground (arith, at, at_q, same.prev),
      ground (arith, at, at_q, same.next),
    )
    | inr e ↦ (d, ground arith, refl, refl, refl)
  ]

  pub touch-Table :
      {list n : ℕ} {chain : Chains} → Table s list n chain → Table (put_object p o' s) list n chain
  touch-Table t = record {
    buckets = t.buckets;
    found = t.found;
    size = t.size;
    seg = λ i lt. Seg-touch same_links (t.seg i lt);
  }

  pub touch-IsValid : {chain : Chains} → IsValid s chain → IsValid (put_object p o' s) chain
  touch-IsValid v = record {
    table = elim v.table [
      | inl empty ↦ inl empty
      | inr (list, pos_n, t) ↦ inr (list, pos_n, touch-Table t)
    ];
    counted = v.counted;
  }

-- A live object is there.
pub Live-object :
    (s : Store) {chain : Chains}
    → IsValid s chain
    → (q : Ptr) → Live s.interruptible_buckets chain q
    → (o : MtInterruptible) × (s.object q ≡ some o) × (q ≢ null)
Live-object s v q (i, lt, inside) =
    let full = full_of_pos s v (omega arith) in
    let (o, at, _, _, ne) = Seg-home q (full.2.seg i lt) inside in (o, at, ne)
