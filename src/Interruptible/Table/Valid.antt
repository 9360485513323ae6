-- ===== src/Interruptible/Table/Valid.antt =====
-- The invariant of the static variables of src/interruptible.c, and the set of live objects.
use lua_mtint.Base.{
  ℕ, zero, suc, ◌+◌, ◌<◌, ◌≤◌, ◌≡◌, ◌≢◌, refl, ◌⊎◌, Bool, false, none, some, arith, ◌==◌, ◌∈◌,
  length, Bool-cases, inl, inr, subst, sym, ◌∙◌,
}
use lua_mtint.Base.Int.{ℤ, eqb_ℤ}
use lua_mtint.Interruptible.Store.{Ptr, null, Objects, Store}
use lua_mtint.Interruptible.Table.{Chains, Table, push_chain}

-- The objects in the first `n` chains.
unfoldable pub total : ℕ → Chains → ℕ
total zero chain = 0
total (suc n) chain = total n chain + length (chain n)

-- `q` is in one of the first `n` chains.
abbrev pub Live : ℕ → Chains → Ptr → Type 0
Live n chain q = (i : ℕ) × (i < n) × (q ∈ chain i)

abbrev pub IsEmptyTable : Store → Type 0
IsEmptyTable s = (s.interruptible_bucket_list ≡ null) × (s.interruptible_buckets ≡ 0)

abbrev pub IsFullTable : Store → Chains → Type 0
IsFullTable s chain =
    (s.interruptible_bucket_list ≢ null)
    × (0 < s.interruptible_buckets)
    × Table s s.interruptible_bucket_list s.interruptible_buckets chain

-- Either there is no array, or the array links the objects of `chain`; the counter counts them.
pub record IsValid (s : Store) (chain : Chains) : Type 0 where
  pub table : IsEmptyTable s ⊎ IsFullTable s chain
  pub counted : s.interruptible_counter ≡ total s.interruptible_buckets chain

pub full_of_pos :
    (s : Store) {chain : Chains}
    → IsValid s chain
    → 0 < s.interruptible_buckets
    → IsFullTable s chain
full_of_pos s v h = elim v.table [ inl (_, none_yet) ↦ absurd (omega arith) | inr full ↦ full ]

-- The static variables name the table.
pub full_of_table :
    (w : Store) {list n : ℕ} {chain : Chains}
    → w.interruptible_bucket_list ≡ list
    → w.interruptible_buckets ≡ n
    → list ≢ null
    → 0 < n
    → Table w list n chain
    → IsFullTable w chain
full_of_table w {list} {n} {chain} at_list of_size ne_null pos_n t = (
  λ e. ne_null (sym at_list ∙ e),
  rw of_size pos_n,
  subst (λ m. Table w w.interruptible_bucket_list m chain) (sym of_size)
      (subst (λ l. Table w l n chain) (sym at_list) t),
)

pub length-le-total : (n : ℕ) (chain : Chains) (i : ℕ) → i < n → length (chain i) ≤ total n chain
unfolding total
length-le-total zero chain i h = absurd (omega arith)
length-le-total (suc n) chain i h = elim (Bool-cases (i == n)) [
  | inl e ↦ ground arith
  | inr e ↦ ground (arith, length-le-total n chain i)
]

pub total-congr :
    (n : ℕ) (a b : Chains) → ((i : ℕ) → i < n → length (a i) ≡ length (b i)) → total n a ≡ total n b
unfolding total
total-congr zero a b h = refl
total-congr (suc n) a b h =
    omega (arith, total-congr n a b (λ i lt. h i (omega arith)), h n (omega arith))

pub total-push_chain :
    (n : ℕ) (chain : Chains) (i : ℕ) (p : Ptr)
    → i < n
    → total n (push_chain chain i p) ≡ total n chain + 1
unfolding total
total-push_chain zero chain i p h = absurd (omega arith)
total-push_chain (suc n) chain i p h = elim (Bool-cases (i == n)) [
  | inl e ↦ ground (arith, total-congr n (push_chain chain i p) chain (λ j lt. ground arith))
  | inr e ↦ ground (arith, total-push_chain n chain i p)
]

-- The object at `q` has the id.
abbrev pub has_id : Objects → ℤ → Ptr → Bool
has_id m id q = elim (m q) [ none ↦ false | some o ↦ eqb_ℤ o.id id ]
