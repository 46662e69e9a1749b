-- ===== src/Gateway/Policy.antt =====
-- internal/gateway/failover.go: the bounds on the attempts of one client request. Durations are in
-- nanoseconds.
pub mod Defaults
use free_model_router.Prelude.{
  ℕ, ◌≤◌, ◌≡◌, refl, sym, inl, inr, not, arith, ltb, if◌then◌else◌, Bool-cases,
}
use free_model_router.Prelude.Int.{ℤ, pos, is_positive, negsuc, ltb_ℤ}
use mathlib.Core.Path.{ap₂, subst}

abbrev pub default_max_attempts : ℕ
default_max_attempts = 4

abbrev pub default_failover_budget : ℕ
default_failover_budget = 30000000000

abbrev pub max_configured_attempts : ℕ
max_configured_attempts = 100

abbrev pub max_configured_budget : ℕ
max_configured_budget = 600000000000

pub record FailoverPolicy : Type 0 where
  pub max_attempts : ℤ
  pub budget : ℤ

-- A field that is not positive takes its default, one above its maximum the maximum.
abbrev pub clamp : ℕ → ℕ → ℤ → ℤ
clamp default most n =
    if not (is_positive n) then pos default else if ltb_ℤ (pos most) n then pos most else n

-- `FailoverPolicy.normalized`
unfoldable pub normalized : FailoverPolicy → FailoverPolicy
normalized p = record {
  max_attempts = clamp default_max_attempts max_configured_attempts p.max_attempts;
  budget = clamp default_failover_budget max_configured_budget p.budget;
}

pub record IsBounded (p : FailoverPolicy) : Type 0 where
  pub attempts : ℕ
  pub nanos : ℕ
  pub max_attempts : p.max_attempts ≡ pos attempts
  pub budget : p.budget ≡ pos nanos
  pub some_attempt : 1 ≤ attempts
  pub attempts_bound : attempts ≤ max_configured_attempts
  pub some_budget : 1 ≤ nanos
  pub budget_bound : nanos ≤ max_configured_budget

clamp-bounds :
    (default most : ℕ) (n : ℤ)
    → 1 ≤ default
    → default ≤ most
    → (k : ℕ) × (clamp default most n ≡ pos k) × (1 ≤ k) × (k ≤ most)
clamp-bounds default most (negsuc n) low high = (default, refl, low, high)
clamp-bounds default most (pos n) low high = elim (Bool-cases (ltb 0 n)) [
  | inr nonpos ↦ (default, ground arith, low, high)
  | inl positive ↦ elim (Bool-cases (ltb most n)) [
    | inl over ↦ (most, ground arith, ground arith, ground arith)
    | inr fits ↦ (n, ground arith, ground arith, ground arith)
  ]
]

clamp_idem :
    (default most : ℕ) (n : ℤ)
    → 1 ≤ default
    → default ≤ most
    → clamp default most (clamp default most n) ≡ clamp default most n
clamp_idem default most n low high =
    let b = clamp-bounds default most n low high in
    subst (λ x. clamp default most x ≡ x) (sym b.1) (in_range b.0 b.2 b.3)
  where
    in_range : (k : ℕ) → 1 ≤ k → k ≤ most → clamp default most (pos k) ≡ pos k
    in_range k one top = ground arith

-- Whatever the configuration holds, zero, negative and huge values included, a normalized policy
-- allows between 1 and 100 attempts in a budget of between 1 ns and 10 minutes, and normalizing it
-- again changes nothing.
pub normalized-IsBounded :
    (p : FailoverPolicy) → IsBounded (normalized p) × (normalized (normalized p) ≡ normalized p)
unfolding normalized
normalized-IsBounded p =
    let a = clamp-bounds 4 100 p.max_attempts (omega arith) (omega arith) in
    let b = clamp-bounds 30000000000 600000000000 p.budget (omega arith) (omega arith) in
    (
      record {
        attempts = a.0;
        nanos = b.0;
        max_attempts = a.1;
        budget = b.1;
        some_attempt = a.2;
        attempts_bound = a.3;
        some_budget = b.2;
        budget_bound = b.3;
      },
      ap₂ (λ x y. record { max_attempts = x; budget = y })
          (clamp_idem 4 100 p.max_attempts (omega arith) (omega arith))
          (clamp_idem 30000000000 600000000000 p.budget (omega arith) (omega arith)),
    )
