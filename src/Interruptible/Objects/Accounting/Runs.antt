-- ===== src/Interruptible/Objects/Accounting/Runs.antt =====
-- Any sequence of the functions that Lua calls, from the start of the program.
use lua_mtint.Base.{ℕ, ◌+◌, ◌^◌, ◌<◌, ◌≡◌, inl, inr, refl, sym, none, arith, subst, []}
use lua_mtint.Interruptible.Store.{null}
use lua_mtint.Interruptible.Table.{Chains}
use lua_mtint.Interruptible.Table.Grow.{total_zero}
use lua_mtint.Interruptible.Objects.{World, Outcome, no_hook}
use lua_mtint.Interruptible.Objects.Accounting.{Accounted}
use lua_mtint.Interruptible.Objects.Accounting.Events.{Event, perform, Allowed, Ends}
use lua_mtint.Interruptible.Objects.Accounting.Performs.{perform-Accounted}

-- No objects and no user data; `seed` is what luaopen_mtint sets the counter for ids to.
abbrev pub fresh_world : ℕ → World
fresh_world seed = record {
  store = record {
    object = λ p. none;
    array = λ p. none;
    interruptible_counter = 0;
    interruptible_buckets = 0;
    bucket_usage = 0;
    interruptible_bucket_list = null;
  };
  udata = λ u. none;
  hook = λ l. no_hook;
  lookup = λ l. none;
  mtint_id_counter = seed;
}

-- The worlds that calls reach, each of which is allowed where it is made.
pub data Reachable (n seed : ℕ) : World → Type 0 where
  start : Reachable n seed (fresh_world seed)
  performed :
      {w w' : World} (e : Event)
      → Allowed n w e
      → Ends (perform e w) w'
      → Reachable n seed w
      → Reachable n seed w'

abbrev none_live : Chains
none_live i = []

fresh-Accounted : (n seed : ℕ) → seed < 2 ^ 31 → Accounted n (fresh_world seed) none_live
fresh-Accounted n seed lt = record {
  valid = record { table = inl (refl, refl); counted = sym (total_zero none_live) };
  initialized = λ q o live at. absurd (cc);
  counted = λ q o live at. absurd (cc);
  live = λ u d lt_u at ne. absurd (cc);
  few = omega arith;
  ids = lt;
}

Ends-unique : (o : Outcome (Unit {0})) (w w' : World) → Ends o w → Ends o w' → w ≡ w'
Ends-unique o w w' (inl e) (inl e') = cc
Ends-unique o w w' (inl e) (inr (x, e')) = absurd (cc)
Ends-unique o w w' (inr (x, e)) (inl e') = absurd (cc)
Ends-unique o w w' (inr (x, e)) (inr (x', e')) = cc

module _ {n seed : ℕ} (few : n + 1 < 2 ^ 31) (small : seed < 2 ^ 31) where
  -- With fewer than 2 ^ 31 - 1 user data, and a seed of the ids below 2 ^ 31, any sequence of `Allowed`
  -- calls, with ids that are not negative and, where user data are finalised, with at most 214748364
  -- objects, leads from the empty table to a world in which the table is valid, each live object is initialised
  -- and has as many references from user data as it counts, at least one, and no user data refer to anything
  -- but a live object.
  pub Reachable-Accounted :
      {w : World} → Reachable n seed w → (chain : Chains) × Accounted n w chain
  Reachable-Accounted start = (none_live, fresh-Accounted n seed small)
  Reachable-Accounted (performed {w} {w'} e ok ends r) =
      let (chain, a) = Reachable-Accounted r in
      let (w'', chain', ends', a') = perform-Accounted few a e ok in
      (chain', subst (λ z. Accounted n z chain') (Ends-unique (perform e w) w'' w' ends' ends) a')
