-- ===== src/Model/Failure.antt =====
-- internal/model/failure.go: classified upstream failures, and the routing policy decided from them.
use free_model_router.Prelude.{ℕ, Bool, true, false, ◌||◌, String, Result, ok, err, if◌then◌else◌}

-- `FailureClass` is a string in Go: `other` is any value that is none of the constants, `empty` is "".
pub data FailureClass : Type 0 where
  canceled timeout rate_limited auth bad_request server_error protocol network unknown :
      FailureClass
  empty : FailureClass
  other : String → FailureClass

pub data FailureScope : Type 0 where
  request model route credential provider : FailureScope
  other_scope : String → FailureScope

pub record Failure : Type 0 where
  pub class : FailureClass
  pub scope : FailureScope

abbrev pub new_failure : FailureClass → FailureScope → Failure
new_failure c s = record { class = c; scope = s }

is_empty : FailureClass → Bool
is_empty empty = true
is_empty _ = false

is_known_scope : FailureScope → Bool
is_known_scope (other_scope s) = false
is_known_scope _ = true

-- `Failure.Validate`
pub validate : Failure → Result (Unit {0})
unfolding is_empty is_known_scope
validate f =
    if is_empty f.class
    then err "failure class must not be empty"
    else if is_known_scope f.scope
    then ok tt
    else err "invalid failure scope"

pub data FailureAction : Type 0 where
  stop next_route next_model disable_credential disable_route cooldown_provider : FailureAction

abbrev pub is_request : FailureScope → Bool
is_request request = true
is_request _ = false

abbrev pub is_credential : FailureScope → Bool
is_credential credential = true
is_credential _ = false

abbrev pub is_provider : FailureScope → Bool
is_provider provider = true
is_provider _ = false

abbrev pub is_canceled_or_unknown : FailureClass → Bool
is_canceled_or_unknown canceled = true
is_canceled_or_unknown unknown = true
is_canceled_or_unknown _ = false

-- the `switch` on the class
unfoldable pub by_class : FailureClass → FailureScope → FailureAction
by_class auth s = if is_credential s then disable_credential else stop
by_class rate_limited s = if is_provider s then cooldown_provider else next_route
by_class timeout s = next_route
by_class network s = next_route
by_class server_error s = next_model
by_class protocol s = disable_route
by_class bad_request s = stop
by_class _ s = stop

unfoldable pub decide_failure_action : Failure → FailureAction
unfolding by_class
decide_failure_action f =
    if is_request f.scope || is_canceled_or_unknown f.class then stop else by_class f.class f.scope

-- `HTTPStatus`
unfoldable pub http_status_of_class : FailureClass → ℕ
http_status_of_class rate_limited = 429
http_status_of_class bad_request = 400
http_status_of_class _ = 502

unfoldable pub http_status : Failure → ℕ
unfolding http_status_of_class
http_status f = http_status_of_class f.class
