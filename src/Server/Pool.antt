-- ===== src/Server/Pool.antt =====
-- server/pool.go: a pool of values for each registered type. A type is a number, `V` the values, and
-- `pick` stands for `sync.Pool`: of the values put back and not yet taken it may hand out any, or none,
-- in which case the pool makes a new one.
pub mod Clean
use a_simple_rpc.Prelude.{ℕ, zero, suc, Bool, List, [], ◌∷◌, Option, none, some, nat_eq, get_elem?}
use a_simple_rpc.Prelude.Maps.{Map, lookup, insert}
use a_simple_rpc.Outcome.{Outcome, ok, panic}

-- What reflection does for the pools: `reflect.New` of a type, and `Reset` where a value has it.
pub record Values (V : Type 0) : Type 0 where
  pub new : ℕ → V
  pub reset : V → Option V

abbrev pub Pools : Type 0 → Type 0
Pools V = Map ℕ (List V)

module _ {V : Type 0} where
  abbrev pub remove_at : ℕ → List V → List V
  remove_at i [] = []
  remove_at zero (x ∷ xs) = xs
  remove_at (suc i) (x ∷ xs) = x ∷ remove_at i xs

  -- `Init`: an empty pool, also where the type had one.
  unfoldable pub init : ℕ → Pools V → Pools V
  init t ps = insert t [] ps

  -- `pool.Put(x)` on a pool that may be nil.
  unfoldable pub put_in : ℕ → V → Option (List V) → Pools V → Outcome (Pools V)
  put_in t x none ps = panic
  put_in t x (some xs) ps = ok (insert t (x ∷ xs) ps)

  -- `Put`: a value that cannot be reset is dropped.
  unfoldable pub put_reset : ℕ → Option V → Pools V → Outcome (Pools V)
  put_reset t none ps = ok ps
  put_reset t (some x) ps = put_in t x (lookup t ps) ps

  unfoldable pub put : Values V → ℕ → V → Pools V → Outcome (Pools V)
  put vs t x ps = put_reset t (vs.reset x) ps

  unfoldable pub take_one : Values V → ℕ → ℕ → List V → Option V → Pools V → V × Pools V
  take_one vs pick t xs none ps = (vs.new t, ps)
  take_one vs pick t xs (some x) ps = (x, insert t (remove_at pick xs) ps)

  unfoldable pub get_from : Values V → ℕ → ℕ → Option (List V) → Pools V → Outcome (V × Pools V)
  get_from vs pick t none ps = panic
  get_from vs pick t (some xs) ps = ok (take_one vs pick t xs (get_elem? xs pick) ps)

  -- `Get`: the value at `pick`, and a new one where `pick` is past the end.
  unfoldable pub get : Values V → ℕ → ℕ → Pools V → Outcome (V × Pools V)
  get vs pick t ps = get_from vs pick t (lookup t ps) ps
