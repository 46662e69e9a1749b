-- ===== src/Gateway/Policy/Defaults.antt =====
-- internal/gateway/failover.go: the default policy with what the environment sets. An unset variable reads
-- as the empty text; the parsers of package strconv are parameters.
use free_model_router.Gateway.Policy.{
  FailoverPolicy, default_max_attempts, default_failover_budget, max_configured_attempts,
  normalized,
}
use free_model_router.Prelude.Text.{str_eq}
use free_model_router.Prelude.Int.{ℤ, pos, negsuc}
use free_model_router.Prelude.{
  ℕ, ◌*◌, ◌≤◌, ◌<◌, String, ◌≡◌, refl, inl, inr, not, ◌&&◌, Option, none, some, arith, ltb,
  if◌then◌else◌, Bool-cases,
}
use mathlib.Core.Path.{ap₂}

abbrev pub max_configured_budget_milli : ℕ
max_configured_budget_milli = 600_000

-- A setting counts where it parses to a number from 1 to the maximum.
unfoldable pub configured : ℕ → Option ℤ → Option ℕ
configured most none = none
configured most (some (negsuc n)) = none
configured most (some (pos n)) = if ltb 0 n && not (ltb most n) then some n else none

abbrev pub setting : (String → Option ℤ) → ℕ → String → Option ℕ
setting parse most raw = if str_eq raw "" then none else configured most (parse raw)

abbrev pub attempts_or_default : Option ℕ → ℤ
attempts_or_default none = pos default_max_attempts
attempts_or_default (some n) = pos n

abbrev pub budget_or_default : Option ℕ → ℤ
budget_or_default none = pos default_failover_budget
budget_or_default (some ms) = pos (ms * 1_000_000)

-- `DefaultFailoverPolicy`
unfoldable pub default_failover_policy :
    (String → Option ℤ) → (String → Option ℤ) → String → String → FailoverPolicy
unfolding configured
default_failover_policy atoi parse_int attempts budget_ms = record {
  max_attempts = attempts_or_default (setting atoi max_configured_attempts attempts);
  budget = budget_or_default (setting parse_int max_configured_budget_milli budget_ms);
}

-- A setting that counts is in range.
InRange : ℕ → Option ℕ → Type 0
InRange most none = Unit
InRange most (some n) = (0 < n) × (n ≤ most)

configured-InRange : (most : ℕ) (n : Option ℤ) → InRange most (configured most n)
unfolding InRange configured
configured-InRange most none = tt
configured-InRange most (some (negsuc n)) = tt
configured-InRange most (some (pos n)) = elim (Bool-cases (ltb 0 n && not (ltb most n))) [
  | inl fits ↦ rw (fits) (ground (arith, fits), ground (arith, fits))
  | inr out ↦ rw (out) tt
]

setting-InRange :
    (parse : String → Option ℤ) (most : ℕ) (raw : String) → InRange most (setting parse most raw)
unfolding InRange
setting-InRange parse most raw = elim (Bool-cases (str_eq raw "")) [
  | inl unset ↦ rw (unset) tt
  | inr given ↦ rw (given) (configured-InRange most (parse raw))
]

with_attempts :
    (n : Option ℕ)
    → InRange 100 n
    → (b : ℤ)
    → (normalized (record { max_attempts = attempts_or_default n; budget = b })).max_attempts
      ≡ attempts_or_default n
unfolding InRange normalized
with_attempts none h b = refl
with_attempts (some n) h b = ground (arith, h)

with_budget :
    (n : Option ℕ)
    → InRange 600_000 n
    → (a : ℤ)
    → (normalized (record { max_attempts = a; budget = budget_or_default n })).budget
      ≡ budget_or_default n
unfolding InRange normalized
with_budget none h a = refl
with_budget (some n) h a = ground (arith, h)

-- Whatever the environment holds, the default policy is one that normalizing does not change.
normalized-default_failover_policy :
    (atoi parse_int : String → Option ℤ) (attempts budget_ms : String)
    → normalized (default_failover_policy atoi parse_int attempts budget_ms)
      ≡ default_failover_policy atoi parse_int attempts budget_ms
unfolding default_failover_policy normalized
normalized-default_failover_policy atoi parse_int attempts budget_ms =
    ap₂ (λ x y. record { max_attempts = x; budget = y })
      (with_attempts (setting atoi 100 attempts) (setting-InRange atoi 100 attempts) (pos 1))
      (with_budget (setting parse_int 600_000 budget_ms)
        (setting-InRange parse_int 600_000 budget_ms) (pos 1))
