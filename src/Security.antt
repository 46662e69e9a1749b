-- ===== src/Security.antt =====
-- internal/security/security.go: which addresses a server may listen on, and the bearer token. The
-- parsing of package net and the handling of spaces and case of package strings are parameters.
pub mod Guarded
use free_model_router.Prelude.Text.{str_eq}
use free_model_router.Prelude.{
  ℕ, zero, suc, ◌+◌, ◌-◌, ◌*◌, ◌/◌, ◌%◌, ◌^◌, ◌≤◌, ◌<◌, String, ◌≡◌, refl, sym, ap, ◌∙◌, ◌≢◌, ◌↔◌,
  ◌⊎◌, inl, inr, Bool, true, false, not, ◌&&◌, ◌||◌, Option, none, some, List, [], ◌∷◌, ◌++◌, arith,
  ltb, leb, ◌==◌, if◌then◌else◌, Bool-cases, Option-cases, &&_iff, bool_ext, Result, ok, err,
  Result-cases, length, All, length-append, All-append, In, In-append_left, In-append_right,
  In-append_cases, All-In,
}

pub record Net : Type 0 where
  pub trim_space : String → String
  pub equal_fold : String → String → Bool
  pub split_host_port : String → Option (String × String)
  pub is_loopback_ip : String → Bool
  pub fields : String → List String

-- What a handler does with a request, by its authorization header.
pub data Reply (R : Type 0) : Type 0 where
  unauthorized not_found : Reply R
  served : R → Reply R

abbrev pub Handler : Type 0 → Type 0
Handler R = String → Reply R

module _ (net : Net) where
  abbrev pub host_of : Option (String × String) → Result String
  host_of none = err "invalid bind address"
  host_of (some (host, port)) =
      if str_eq port ""
      then err "invalid bind address"
      else if str_eq host ""
      then err "invalid bind address"
      else ok host

  -- `bindHost`
  unfoldable pub bind_host : String → Result String
  bind_host bind =
      if str_eq (net.trim_space bind) ""
      then err "invalid bind address"
      else host_of (net.split_host_port (net.trim_space bind))

  abbrev pub is_loopback_host : Result String → Bool
  is_loopback_host (err e) = false
  is_loopback_host (ok host) = net.equal_fold host "localhost" || net.is_loopback_ip host

  -- `IsLoopbackBind`
  unfoldable pub is_loopback_bind : String → Bool
  unfolding bind_host
  is_loopback_bind bind = is_loopback_host (bind_host bind)

  abbrev pub loopback_only : Bool → Result String → Result (Unit {0})
  loopback_only b (err e) = err e
  loopback_only b (ok host) = if b then ok tt else err "management bind must be loopback-only"

  -- `ValidateLoopbackBind`
  unfoldable pub validate_loopback_bind : String → Result (Unit {0})
  unfolding is_loopback_bind bind_host
  validate_loopback_bind bind = loopback_only (is_loopback_bind bind) (bind_host bind)

  abbrev pub is_remote_loopback : Option (String × String) → Bool
  is_remote_loopback none = false
  is_remote_loopback (some (host, port)) = net.is_loopback_ip host

  -- `IsLoopbackRemote`
  unfoldable pub is_loopback_remote : String → Bool
  is_loopback_remote addr = is_remote_loopback (net.split_host_port addr)

  abbrev pub is_bearer : List String → String → Bool
  is_bearer (scheme ∷ got ∷ []) want = net.equal_fold scheme "Bearer" && str_eq got want
  is_bearer _ want = false

  -- `validBearer`
  unfoldable pub valid_bearer : String → String → Bool
  valid_bearer header want = is_bearer (net.fields header) want

  module _ {R : Type 0} where
    abbrev pub or_not_found : Option (Handler R) → Handler R
    or_not_found none = λ header. not_found
    or_not_found (some h) = h

    -- `RequireBearer`
    unfoldable pub require_bearer : Option (Handler R) → String → Handler R
    unfolding valid_bearer
    require_bearer next token header =
        if not (valid_bearer header (net.trim_space token))
        then unauthorized
        else or_not_found next header

    abbrev pub guard_bind : Handler R → String → String → Result String → Result (Handler R)
    guard_bind next bind token (err e) = err e
    guard_bind next bind token (ok host) =
        if is_loopback_bind bind
        then ok next
        else if str_eq (net.trim_space token) ""
        then err "bearer token is required for non-loopback inference"
        else ok (require_bearer (some next) token)

    -- `RequireInferenceAuth`
    unfoldable pub require_inference_auth :
        Option (Handler R) → String → String → Result (Handler R)
    unfolding bind_host is_loopback_bind require_bearer
    require_inference_auth none bind token = err "next handler must not be nil"
    require_inference_auth (some next) bind token = guard_bind next bind token (bind_host bind)
