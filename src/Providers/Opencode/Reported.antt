-- ===== src/Providers/Opencode/Reported.antt =====
-- What the gateway does when the client of OpenCode fails: the failures of this client under the decision of
-- internal/gateway/attempt.go.
use free_model_router.Gateway.Errors.{
  Error, is_nil, is_unsupported, is_deadline, fallback_decision, new_failure_error, as_failure,
  classified,
}
use free_model_router.Model.Failure.{
  Failure, new_failure, network, rate_limited, auth, bad_request, server_error, protocol, route,
  credential, FailureAction, stop, next_route, next_model, disable_credential,
  decide_failure_action,
}
use free_model_router.Providers.Wire.{failed, status_failure, status_failure_error}
use free_model_router.Providers.Http.{Exchange, HttpRequest, ChatCall, not_received, closed}
use free_model_router.Providers.Opencode.{exchange, transport_failure, on_status}
use free_model_router.Prelude.{
  ℕ, ◌≡◌, refl, sym, ◌∙◌, ◌⊎◌, inl, inr, Bool, true, false, ◌&&◌, ◌||◌, Option, none, some, arith,
  leb, ◌==◌, if◌then◌else◌, Bool-cases,
}
use mathlib.Core.Option.{some-ne-none, some-injective}
use mathlib.Core.Path.{subst}

-- What an answer with a status other than 200 leads to.
abbrev pub status_action : ℕ → FailureAction
status_action code =
    if code == 429
    then next_route
    else if (code == 401) || (code == 403)
    then disable_credential
    else next_model

abbrev pub expected_action : Exchange → FailureAction
expected_action x =
    if is_nil x.do_error
    then status_action x.status
    else if is_nil x.ctx_err
    then next_route
    else stop

record IsDecided (code : ℕ) : Type 0 where
  failure : Failure
  by_status : status_failure code ≡ some failure
  action : (fallback_decision (status_failure_error failure code)).1 ≡ status_action code

status_failure-IsDecided : (code : ℕ) → (code == 200) ≡ false → IsDecided code
unfolding status_failure fallback_decision is_unsupported new_failure_error as_failure classified
    decide_failure_action
status_failure-IsDecided code h = elim (Bool-cases (code == 429)) [
  | inl a ↦ record {
    failure = new_failure rate_limited route;
    by_status = rw (a) refl;
    action = rw (a) refl;
  }
  | inr a ↦ elim (Bool-cases ((code == 401) || (code == 403))) [
    | inl b ↦ record {
      failure = new_failure auth credential;
      by_status = rw (a, b) refl;
      action = rw (a, b) refl;
    }
    | inr b ↦ elim (Bool-cases (code == 400)) [
      | inl c ↦ record {
        failure = new_failure bad_request route;
        by_status = rw (a, b, c) refl;
        action = rw (a, b) refl;
      }
      | inr c ↦ elim (Bool-cases (leb 500 code)) [
        | inl d ↦ record {
          failure = new_failure server_error route;
          by_status = rw (a, b, c, d) refl;
          action = rw (a, b) refl;
        }
        | inr d ↦ record {
          failure = new_failure protocol route;
          by_status = rw (a, b, c, d, h) refl;
          action = rw (a, b) refl;
        }
      ]
    ]
  ]
]

-- The call fails, with an error on which the gateway acts so, and holds no open body.
pub record IsRefused {P : Type 0} (action : FailureAction) (c : ChatCall P) : Type 0 where
  pub error : Error
  pub result : c.result ≡ failed error
  pub decided : (fallback_decision error).1 ≡ action
  pub released : (c.body ≡ closed) ⊎ (c.body ≡ not_received)

on_status-IsRefused :
    {P : Type 0} (f : Option Failure) (stream : Bool) (x : Exchange) (h : HttpRequest P)
    → status_failure x.status ≡ f
    → (x.status == 200) ≡ false
    → IsRefused (status_action x.status) (on_status f stream x h)
on_status-IsRefused none stream x h e n =
    let d = status_failure-IsDecided x.status n in
    absurd (some-ne-none d.failure (sym d.by_status ∙ e))
on_status-IsRefused (some f) stream x h e n =
    let d = status_failure-IsDecided x.status n in
    record {
      error = status_failure_error f x.status;
      result = refl;
      decided =
          subst
            (λ g. (fallback_decision (status_failure_error g x.status)).1 ≡ status_action x.status)
            (some-injective d.failure f (sym d.by_status ∙ e)) d.action;
      released = inl refl;
    }

other_status : {a b : Bool} → a ≡ true → (a && b) ≡ false → b ≡ false
other_status e h = ground (arith, e, h)

-- An error that carries no `UnsupportedError`.
abbrev pub IsForeign : Error → Type 0
IsForeign e = is_unsupported e ≡ false

transport-IsRefused :
    {P : Type 0} (x : Exchange) (h : HttpRequest P)
    → IsForeign x.do_error
    → IsForeign x.ctx_err
    → (fallback_decision (transport_failure x network x.do_error)).1
      ≡ (if is_nil x.ctx_err then next_route else stop)
unfolding transport_failure fallback_decision new_failure_error is_unsupported as_failure classified
    decide_failure_action
transport-IsRefused x h d c = elim (Bool-cases (is_nil x.ctx_err)) [
  | inr a ↦ rw (a, c) refl
  | inl a ↦ elim (Bool-cases (x.deadline || is_deadline x.do_error)) [
    | inl b ↦ rw (a, b, d) refl
    | inr b ↦ rw (a, b, d) refl
  ]
]

-- If the call fails or the answer has another status than 200, and neither the network's nor the context's error carries
-- an `UnsupportedError`, then the client of OpenCode fails, holds no open body, and its error makes the gateway stop
-- where the context has an error, try the next route where the call failed, and otherwise what the status says:
-- 429 the next route, 401 and 403 disable the credential, and any other status the next model, 400 among them.
pub exchange-IsRefused :
    {P : Type 0} (stream : Bool) (x : Exchange) (h : HttpRequest P)
    → (is_nil x.do_error && (x.status == 200)) ≡ false
    → IsForeign x.do_error
    → IsForeign x.ctx_err
    → IsRefused (expected_action x) (exchange stream x h)
unfolding exchange
exchange-IsRefused stream x h n d c = elim (Bool-cases (is_nil x.do_error)) [
  | inl e ↦
      rw (e) (on_status-IsRefused (status_failure x.status) stream x h refl (other_status e n))
  | inr e ↦ rw (e) (record {
    error = transport_failure x network x.do_error;
    result = refl;
    decided = transport-IsRefused x h d c;
    released = inr refl;
  })
]
