-- ===== src/Providers/Opencode.antt =====
-- internal/providers/opencode: the client of OpenCode, whose authenticated routes go to another address and with a
-- credential. `strings.TrimSpace` is a parameter.
pub mod Isolated
pub mod Reported
use Prim.Native.Char.{Char, code}
use Prim.Native.String.{◌++◌ as append}
use free_model_router.Catalog.Pool.{contains}
use free_model_router.Gateway.Errors.{Error, nil, plain, is_nil, is_deadline, new_failure_error}
use free_model_router.Model.Failure.{
  Failure, FailureClass, new_failure, auth, credential, timeout, network, protocol, bad_request,
  request, route,
}
use free_model_router.Model.Route.{ProviderRoute}
use free_model_router.Prelude.Affix.{starts_with, trim_right}
use free_model_router.Prelude.Text.{str_eq}
use free_model_router.Prelude.{
  ℕ, String, Bool, true, false, not, ◌&&◌, ◌||◌, Option, none, some, List, [], ◌∷◌, ◌==◌,
  if◌then◌else◌,
}
use free_model_router.Providers.Wire.{
  Outcome, returned, failed, NormalizedRequest, ChatRequest, Reasons, reasons_of, build_payload,
  status_failure, status_failure_error,
}
use free_model_router.Providers.Sse.{Line}
use free_model_router.Providers.Http.{
  Exchange, HttpRequest, Body, not_received, unclosed, closed, ChatStream, sse_stream, one_shot,
  ChatCall, refused, canceled_failure, route_failure_error, ReplyChoice, read_reply, one_shot_of,
}

abbrev pub auth_route_name : String
auth_route_name = "opencode-zen"

abbrev pub auth_base_url : String
auth_base_url = "https://opencode.ai/zen/v1"

abbrev pub verified_anonymous_free : List String
verified_anonymous_free =
    "big-pickle" ∷ "mimo-v2.5-free" ∷ "ling-3.0-flash-fin-free" ∷ "nemotron-3-ultra-free"
    ∷ "nemotron-3.5-lightning-free" ∷ "muse-spark-1.3-contributor-free" ∷ []

-- `isVerifiedAnonymousFree`
unfoldable pub is_verified_anonymous_free : String → Bool
is_verified_anonymous_free id = contains verified_anonymous_free id

-- `Provider`, with what its credential resolver gives
pub record OpencodeProvider : Type 0 where
  pub base_url : String
  pub auth_base_override : String
  pub native_free_only : Bool
  pub credential : Outcome String

abbrev pub is_slash : Char → Bool
is_slash c = code c == b'/'

-- `strings.TrimRight(baseURL, "/")+path`
abbrev pub under : String → String → String
under base_url path = append (trim_right is_slash base_url) path

-- `strings.HasPrefix(string(route.ID), AuthRouteName+"::")`
unfoldable pub is_auth_route : ProviderRoute → Bool
is_auth_route r = starts_with "opencode-zen::" r.id

unfoldable pub chat_base_url : OpencodeProvider → ProviderRoute → String
unfolding is_auth_route
chat_base_url p r =
    if is_auth_route r
    then (if not (str_eq p.auth_base_override "") then p.auth_base_override else auth_base_url)
    else p.base_url

-- The failure of a call or a read that met an error.
unfoldable pub transport_failure : Exchange → FailureClass → Error → Error
transport_failure x class e =
    if not (is_nil x.ctx_err)
    then canceled_failure x.ctx_err
    else if x.deadline || is_deadline e
    then route_failure_error timeout e
    else route_failure_error class e

abbrev pub opencode_text : ReplyChoice → String
opencode_text c = if str_eq c.delta "" && not (str_eq c.content "") then c.content else c.delta

abbrev pub body_after : Outcome ChatStream → Body
body_after (returned s) = closed
body_after (failed e) = unclosed

module _ {P : Type 0} where
  abbrev pub replied : HttpRequest P → Outcome ChatStream → ChatCall P
  replied sent result = record { sent = some sent; result = result; body = body_after result }

  -- An answer with status 200.
  unfoldable pub receive : Bool → Exchange → HttpRequest P → ChatCall P
  unfolding read_reply transport_failure
  receive stream x sent =
      if stream
      then record { sent = some sent; result = returned (sse_stream x.lines); body = unclosed }
      else if not (is_nil x.read_error)
      then replied sent (failed (transport_failure x protocol x.read_error))
      else replied sent (one_shot_of (read_reply opencode_text x.reply))

  -- A failing status: the body is drained and closed.
  abbrev pub on_status : Option Failure → Bool → Exchange → HttpRequest P → ChatCall P
  on_status (some f) stream x sent = record {
    sent = some sent;
    result = failed (status_failure_error f x.status);
    body = closed;
  }
  on_status none stream x sent = receive stream x sent

  unfoldable pub exchange : Bool → Exchange → HttpRequest P → ChatCall P
  unfolding receive status_failure transport_failure
  exchange stream x sent =
      if not (is_nil x.do_error)
      then record {
        sent = some sent;
        result = failed (transport_failure x network x.do_error);
        body = not_received;
      }
      else on_status (status_failure x.status) stream x sent

module _ {M F P : Type 0} (trim_space : String → String)
    (marshal : ChatRequest M F → Outcome P) where
  abbrev pub bearer_of : ProviderRoute → Outcome String → Outcome (Option String)
  bearer_of r (failed e) =
      if is_auth_route r
      then failed (
          new_failure_error (new_failure auth credential)
            (plain "OpenCode Zen credential is unavailable"))
      else returned none
  bearer_of r (returned key) =
      if is_auth_route r
      then (if str_eq (trim_space key) ""
          then failed (
              new_failure_error (new_failure auth credential)
                (plain "OpenCode Zen credential is unavailable"))
          else returned (some key))
      else returned none

  abbrev pub with_bearer :
      OpencodeProvider → ProviderRoute → Bool → Exchange → P → Outcome (Option String) → ChatCall P
  with_bearer p r stream x payload (failed e) = refused e
  with_bearer p r stream x payload (returned bearer) = exchange stream x (record {
    url = under (chat_base_url p r) "/chat/completions";
    payload = payload;
    bearer = bearer;
  })

  abbrev pub with_payload :
      OpencodeProvider → ProviderRoute → Bool → Exchange → Outcome P → ChatCall P
  with_payload p r stream x (failed e) = refused e
  with_payload p r stream x (returned payload) =
      if not (is_nil x.build_error)
      then refused (new_failure_error (new_failure bad_request request) x.build_error)
      else with_bearer p r stream x payload (bearer_of r p.credential)

  -- `Provider.ChatCompletion`
  unfoldable pub opencode_chat :
      OpencodeProvider → ProviderRoute → NormalizedRequest M F → Exchange → ChatCall P
  unfolding build_payload exchange chat_base_url is_verified_anonymous_free is_auth_route
  opencode_chat p r req x =
      if p.native_free_only && not (is_verified_anonymous_free r.upstream_model_id)
      then refused (
          new_failure_error (new_failure auth credential)
            (plain "model is not eligible for native anonymous OpenCode"))
      else with_payload p r req.stream x
          (build_payload marshal (reasons_of "opencode public route") r.upstream_model_id req)
