-- ===== src/Gateway/Control/Writes.antt =====
-- The writes of the control plane: one revision per write, and a pinned model that the pool selects.
use free_model_router.Gateway.Control.{
  Control, update_model_pool, replace_model_pool, pin_model, auto_select, is_current, PoolMutation,
}
use free_model_router.Catalog.Pool.{ModelPoolConfig, PoolMode}
use free_model_router.Prelude.{
  zero, suc, String, ◌≡◌, sym, ap, ◌∙◌, true, false, List, arith, Result, ok, err,
}
use free_model_router.Prelude.Int.{pos, negsuc, ℤ, eq_ℤ, suc_int64}
use free_model_router.Model.Route.{ProviderModelId}
use free_model_router.Model.Identity.{parse}
use mathlib.Core.Bool.{false≢true}
use free_model_router.Gateway.Control.Optimistic.{
  IsOptimistic, update_model_pool-IsOptimistic, replace_model_pool-IsOptimistic,
  pin_parsed-IsOptimistic, auto_select-IsOptimistic,
}

pub data Write : Type 0 where
  updates : ℤ → PoolMutation → Write
  replaces : ℤ → List ProviderModelId → PoolMode → Write
  pins : ℤ → ProviderModelId → Write
  selects_auto : ℤ → Write

abbrev pub expected : Write → ℤ
expected (updates r m) = r
expected (replaces r ids m) = r
expected (pins r id) = r
expected (selects_auto r) = r

unfoldable pub handle : Control → Write → Control × Result ModelPoolConfig
handle c (updates r m) = update_model_pool c r m
handle c (replaces r ids m) = replace_model_pool c r ids m
handle c (pins r id) = pin_model c r id
handle c (selects_auto r) = auto_select c r

-- Every write of the control plane is one optimistic step: one that fails, for a stale revision, a
-- mutation that contradicts itself, an unknown mode or an unknown model, leaves the whole state as
-- it was; one that succeeds was given the current revision, advances it by exactly one, returns the
-- configuration it left, and touches neither the catalog nor the routes.
pub handle-IsOptimistic : (c : Control) (w : Write) → IsOptimistic c (expected w) (handle c w)
unfolding handle pin_model
handle-IsOptimistic c (updates r m) = update_model_pool-IsOptimistic c r m
handle-IsOptimistic c (replaces r ids m) = replace_model_pool-IsOptimistic c r ids m
handle-IsOptimistic c (pins r id) = pin_parsed-IsOptimistic c r id (parse id)
handle-IsOptimistic c (selects_auto r) = auto_select-IsOptimistic c r

eq_ℤ-suc_int64 : (a r : ℤ) → eq_ℤ a r ≡ true → eq_ℤ (suc_int64 a) r ≡ false
eq_ℤ-suc_int64 (pos n) (pos m) h = ground arith
eq_ℤ-suc_int64 (pos n) (negsuc m) h = cc
eq_ℤ-suc_int64 (negsuc n) (pos m) h = cc
eq_ℤ-suc_int64 (negsuc zero) (negsuc m) h = ground arith
eq_ℤ-suc_int64 (negsuc (suc n)) (negsuc m) h = ground arith

-- A write whose revision is not the current one fails.
handle-stale :
    (c : Control) (w : Write)
    → is_current c (expected w) ≡ false
    → (e : String) × (handle c w ≡ (c, err e))
handle-stale c w h = go (handle c w) (handle-IsOptimistic c w)
  where
    go :
        (o : Control × Result ModelPoolConfig)
        → IsOptimistic c (expected w) o
        → (e : String) × (o ≡ (c, err e))
    go (after, err e) k = (e, ap (λ d. (d, err e)) k)
    go (after, ok cfg) k = absurd (false≢true (sym h ∙ k.current))

-- Of two writes with the same expected revision at most one succeeds: after the first has, the
-- second fails and changes nothing, so that no update is lost.
pub handle_once :
    (c : Control) (w v : Write) (cfg : ModelPoolConfig)
    → (handle c w).1 ≡ ok cfg
    → expected v ≡ expected w
    → (e : String) × (handle (handle c w).0 v ≡ ((handle c w).0, err e))
handle_once c w v cfg h same =
    handle-stale (handle c w).0 v (go (handle c w) (handle-IsOptimistic c w) h)
  where
    go :
        (o : Control × Result ModelPoolConfig)
        → IsOptimistic c (expected w) o
        → o.1 ≡ ok cfg
        → is_current o.0 (expected v) ≡ false
    go (after, err e) k l = cc
    go (after, ok g) k l =
        rw (same, sym (ap (λ x. x.revision) k.returned), k.advanced)
          (eq_ℤ-suc_int64 c.pool.pool.revision (expected w) k.current)
