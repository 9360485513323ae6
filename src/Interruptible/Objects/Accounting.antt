-- ===== src/Interruptible/Objects/Accounting.antt =====
-- The reference counts of all objects: `used` is the number of user data that refer to the object.
pub mod Touch
pub mod References
pub mod Creation
pub mod Events
pub mod Performs
pub mod Runs
use lua_mtint.Base.{
  ℕ, ◌+◌, ◌^◌, ◌<◌, ◌≤◌, ◌≡◌, ◌≢◌, ◌⊎◌, inl, inr, refl, sym, ◌∙◌, ap, Bool, true, false, none, some,
  Option, arith, ◌==◌, Bool-cases, if◌then◌else◌, eq_of_==,
}
use lua_mtint.Base.Counts.{
  sum_below, sum_below-congr, sum_below-change, le-sum_below, sum_below-zero, sum_below-le,
}
use lua_mtint.Interruptible.Store.{Ptr, null, Store, MtInterruptible, update}
use lua_mtint.Interruptible.Table.{Chains, payload}
use lua_mtint.Interruptible.Table.Valid.{IsValid, Live}
use lua_mtint.Interruptible.Objects.{World, IntrUserData, set_udata}
use lua_mtint.Interruptible.Objects.Interrupt.{IsReferenced}

-- 1 if the user data refer to `p`.
abbrev pub refers_to : Ptr → Option IntrUserData → ℕ
refers_to p none = 0
refers_to p (some d) = if d.interruptible == p then 1 else 0

-- How many of the user data below `n` refer to `p`.
abbrev pub references : ℕ → World → Ptr → ℕ
references n w p = sum_below n (λ u. refers_to p (w.udata u))

-- The table is valid, each live object is initialised and has as many references as it counts, at least
-- one, and no user data refer to anything but a live object.
pub record Accounted (n : ℕ) (w : World) (chain : Chains) : Type 0 where
  pub valid : IsValid w.store chain
  pub initialized :
      (q : Ptr) (o : MtInterruptible)
      → Live w.store.interruptible_buckets chain q
      → w.store.object q ≡ some o
      → o.initialized ≡ true
  pub counted :
      (q : Ptr) (o : MtInterruptible)
      → Live w.store.interruptible_buckets chain q
      → w.store.object q ≡ some o
      → (o.used ≡ references n w q) × (0 < o.used)
  pub live :
      (u : Ptr) (d : IntrUserData)
      → u < n
      → w.udata u ≡ some d
      → d.interruptible ≢ null
      → Live w.store.interruptible_buckets chain d.interruptible
  pub few : w.store.interruptible_counter ≤ w.mtint_id_counter
  pub ids : w.mtint_id_counter < 2 ^ 31

pub references-le : (n : ℕ) (w : World) (p : Ptr) → references n w p ≤ n
references-le n w p = sum_below-le n (λ u. refers_to p (w.udata u)) (λ u. ground arith)

pub references-set_udata :
    (n : ℕ) (w : World) (u : Ptr) (d : IntrUserData) (p : Ptr)
    → u < n
    → references n (set_udata u d w) p + refers_to p (w.udata u)
      ≡ references n w p + refers_to p (some d)
references-set_udata n w u d p lt =
    sum_below-change n u (λ q. refers_to p (w.udata q))
      (λ q. refers_to p ((set_udata u d w).udata q)) (λ q ne. ground arith) lt
    ∙ ground arith

-- Where nothing refers to `p`, the sum is 0.
pub references-zero :
    (n : ℕ) (w : World) (p : Ptr)
    → ((u : ℕ) → u < n → refers_to p (w.udata u) ≡ 0)
    → references n w p ≡ 0
references-zero n w p none_refers =
    sum_below-congr n (λ u. 0) (λ u. refers_to p (w.udata u)) none_refers ∙ sum_below-zero n

-- One of the user data does not refer to `p` if the sum is 0.
pub not_referring :
    (n : ℕ) (w : World) (p : Ptr) (u : ℕ) (d : IntrUserData)
    → references n w p ≡ 0
    → u < n
    → w.udata u ≡ some d
    → d.interruptible ≢ p
not_referring n w p u d zero_left lt at e =
    let one : refers_to p (w.udata u) ≡ 1 = ground (arith, at, e) in
    absurd (omega (arith, le-sum_below n u (λ q. refers_to p (w.udata q)) lt))

-- An object that holds the same besides its links.
pub payload_inv :
    (x y : Option MtInterruptible) (o' : MtInterruptible)
    → payload y ≡ payload x
    → y ≡ some o'
    → (o : MtInterruptible) × (x ≡ some o) × (o'.used ≡ o.used) × (o'.initialized ≡ o.initialized)
payload_inv none none o' e at = absurd (cc)
payload_inv none (some o'') o' e at = absurd (cc)
payload_inv (some o) none o' e at = absurd (cc)
payload_inv (some o) (some o'') o' e at = (o, refl, cc, cc)

-- An accounted world is one in which objects can be found and referred to once more.
pub Accounted-IsReferenced :
    {n : ℕ} {w : World} {chain : Chains}
    → n + 1 < 2 ^ 31
    → Accounted n w chain
    → IsReferenced w.store chain
Accounted-IsReferenced {n} {w} few a = record {
  initialized = a.initialized;
  used = λ q o live at.
      let (e, some_left) = a.counted q o live at in (some_left, omega (arith, references-le n w q));
}
