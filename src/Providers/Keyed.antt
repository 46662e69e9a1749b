-- ===== src/Providers/Keyed.antt =====
-- internal/providers/xai, gemini and nvidia: clients whose routes share one key from the environment. Their texts
-- agree but for names, so that the definitions below are those of xai, with the name as an argument.
pub mod Released
use free_model_router.Gateway.Errors.{Error, is_nil, new_failure_error}
use free_model_router.Model.Failure.{Failure, new_failure, network, bad_request, request}
use free_model_router.Model.Route.{ProviderRoute}
use free_model_router.Prelude.Text.{str_eq}
use free_model_router.Prelude.{
  String, ◌≡◌, ◌≢◌, ◌⊎◌, inl, inr, refl, sym, ◌∙◌, Bool, true, false, not, Option, none, some,
  if◌then◌else◌, Bool-cases,
}
use free_model_router.Providers.Wire.{
  Outcome, returned, failed, NormalizedRequest, ChatRequest, Reasons, reasons_of, build_payload,
  status_failure, status_failure_error,
}
use free_model_router.Providers.Sse.{Line, protocol_failure}
use free_model_router.Providers.Http.{
  Exchange, HttpRequest, Body, not_received, unclosed, closed, ChatStream, sse_stream, ChatCall,
  refused, canceled_failure, route_failure_error, ReplyChoice, read_reply, one_shot_of,
}
use free_model_router.Providers.Opencode.{under}
use mathlib.Core.Path.{subst}

abbrev pub message_text : ReplyChoice → String
message_text c = c.content

-- The header of a key, where `APIKey` gives one
abbrev pub bearer_key : String → Option String
bearer_key key = if not (str_eq key "") then some key else none

abbrev pub keyed_failure : Exchange → Error
keyed_failure x =
    if not (is_nil x.ctx_err)
    then canceled_failure x.ctx_err
    else route_failure_error network x.do_error

module _ {P : Type 0} where
  -- An answer that is no stream: `defer drain(resp.Body)` closes it on every path.
  abbrev pub drained : HttpRequest P → Outcome ChatStream → ChatCall P
  drained sent result = record { sent = some sent; result = result; body = closed }

  unfoldable pub keyed_receive : Bool → Exchange → HttpRequest P → ChatCall P
  unfolding read_reply
  keyed_receive stream x sent =
      if stream
      then record { sent = some sent; result = returned (sse_stream x.lines); body = unclosed }
      else if not (is_nil x.read_error)
      then drained sent (failed (protocol_failure x.read_error))
      else drained sent (one_shot_of (read_reply message_text x.reply))

  abbrev pub on_keyed_status : Option Failure → Bool → Exchange → HttpRequest P → ChatCall P
  on_keyed_status (some f) stream x sent = drained sent (failed (status_failure_error f x.status))
  on_keyed_status none stream x sent = keyed_receive stream x sent

  unfoldable pub keyed_exchange : Bool → Exchange → HttpRequest P → ChatCall P
  unfolding keyed_receive status_failure
  keyed_exchange stream x sent =
      if not (is_nil x.do_error)
      then record { sent = some sent; result = failed (keyed_failure x); body = not_received }
      else on_keyed_status (status_failure x.status) stream x sent

module _ {M F P : Type 0} (marshal : ChatRequest M F → Outcome P) where
  abbrev pub with_keyed_payload : String → String → Bool → Exchange → Outcome P → ChatCall P
  with_keyed_payload base_url key stream x (failed e) = refused e
  with_keyed_payload base_url key stream x (returned payload) =
      if not (is_nil x.build_error)
      then refused (new_failure_error (new_failure bad_request request) x.build_error)
      else keyed_exchange stream x (record {
        url = under base_url "/chat/completions";
        payload = payload;
        bearer = bearer_key key;
      })

  -- `Provider.ChatCompletion`, of a client that calls itself `name` in its errors
  unfoldable pub keyed_chat :
      String → String → String → ProviderRoute → NormalizedRequest M F → Exchange → ChatCall P
  unfolding build_payload keyed_exchange
  keyed_chat name base_url key r req x =
      with_keyed_payload base_url key req.stream x
        (build_payload marshal (reasons_of name) r.upstream_model_id req)

  unfoldable pub xai_chat :
      String → String → ProviderRoute → NormalizedRequest M F → Exchange → ChatCall P
  unfolding keyed_chat
  xai_chat = keyed_chat "the xai api route"

  unfoldable pub gemini_chat :
      String → String → ProviderRoute → NormalizedRequest M F → Exchange → ChatCall P
  unfolding keyed_chat
  gemini_chat = keyed_chat "the gemini ai route"

  unfoldable pub nvidia_chat :
      String → String → ProviderRoute → NormalizedRequest M F → Exchange → ChatCall P
  unfolding keyed_chat
  nvidia_chat = keyed_chat "the nvidia hosted route"
