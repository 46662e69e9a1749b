-- ===== src/Providers/Wire.antt =====
-- internal/providers/*/chat.go: what a client sends, and how it reads the status of the answer. Messages and
-- temperatures are copied only, so that their types are parameters; raw JSON is a text.
use Prim.Native.String.{◌++◌ as append}
use free_model_router.Gateway.Errors.{Error, unsupported_error, status_error, new_failure_error}
use free_model_router.Model.Failure.{
  Failure, new_failure, rate_limited, auth, bad_request, server_error, protocol, route, credential,
  request,
}
use free_model_router.Prelude.Text.{str_eq}
use free_model_router.Prelude.Int.{ℤ, pos}
use free_model_router.Prelude.{
  ℕ, String, Bool, not, ◌&&◌, ◌||◌, Option, none, some, List, [], ◌∷◌, leb, ◌==◌, if◌then◌else◌,
}

-- `ToolSpec` of internal/provider/provider.go
pub record ToolSpec : Type 0 where
  pub kind : String
  pub name : String
  pub description : String
  pub schema : String

-- `NormalizedRequest`, with the names of its extensions in the order of the map's iteration.
pub record NormalizedRequest (M F : Type 0) : Type 0 where
  pub messages : List M
  pub tools : List ToolSpec
  pub tool_choice : String
  pub response_format : String
  pub reasoning : String
  pub stream : Bool
  pub max_tokens : ℤ
  pub temperature : Option F
  pub extensions : List String

-- `chatRequest`
pub record ChatRequest (M F : Type 0) : Type 0 where
  pub model : String
  pub messages : List M
  pub stream : Bool
  pub max_tokens : ℤ
  pub temperature : Option F
  pub tools : List ToolSpec
  pub tool_choice : String
  pub response_format : String
  pub reasoning : String

-- A value, or the error that a call returns.
pub data Outcome (A : Type 0) : Type 0 where
  returned : A → Outcome A
  failed : Error → Outcome A

-- `chatTool`: the kind is written as "function".
abbrev pub function_tool : ToolSpec → ToolSpec
function_tool t = record t { kind = "function" }

abbrev pub push_tool : ToolSpec → Outcome (List ToolSpec) → Outcome (List ToolSpec)
push_tool t (returned ts) = returned (function_tool t ∷ ts)
push_tool t (failed e) = failed e

unfoldable pub function_tools : String → List ToolSpec → Outcome (List ToolSpec)
function_tools reason [] = returned []
function_tools reason (t ∷ ts) =
    let rest = function_tools reason ts in
    if not (str_eq t.kind "") && not (str_eq t.kind "function")
    then failed (unsupported_error "tools[].type" reason)
    else push_tool t rest

-- The texts of the two errors, which differ between the providers.
pub record Reasons : Type 0 where
  pub tools : String
  pub extensions : String

abbrev pub reasons_of : String → Reasons
reasons_of name = record {
  tools = append "only function tools are supported by " name;
  extensions = append "not supported by " name;
}

module _ {M F P : Type 0} (marshal : ChatRequest M F → Outcome P) where
  abbrev pub marshalled : Outcome P → Outcome P
  marshalled (failed e) = failed (new_failure_error (new_failure bad_request request) e)
  marshalled (returned p) = returned p

  abbrev pub chat_request : String → NormalizedRequest M F → List ToolSpec → ChatRequest M F
  chat_request mdl req tools = record {
    model = mdl;
    messages = req.messages;
    stream = req.stream;
    max_tokens = req.max_tokens;
    temperature = req.temperature;
    tools = tools;
    tool_choice = req.tool_choice;
    response_format = req.response_format;
    reasoning = req.reasoning;
  }

  abbrev pub payload_of :
      Reasons → String → NormalizedRequest M F → Outcome (List ToolSpec) → List String → Outcome P
  payload_of reasons mdl req (failed e) extensions = failed e
  payload_of reasons mdl req (returned tools) (x ∷ xs) =
      failed (unsupported_error x reasons.extensions)
  payload_of reasons mdl req (returned tools) [] = marshalled (marshal (chat_request mdl req tools))

  -- `buildPayload`
  unfoldable pub build_payload : Reasons → String → NormalizedRequest M F → Outcome P
  unfolding function_tools
  build_payload reasons mdl req =
      payload_of reasons mdl req (function_tools reasons.tools req.tools) req.extensions

-- The failure of a status, where it is one.
unfoldable pub status_failure : ℕ → Option Failure
status_failure code =
    if code == 429
    then some (new_failure rate_limited route)
    else if (code == 401) || (code == 403)
    then some (new_failure auth credential)
    else if code == 400
    then some (new_failure bad_request route)
    else if leb 500 code
    then some (new_failure server_error route)
    else if not (code == 200)
    then some (new_failure protocol route)
    else none

-- `errStatus` in the failure of a status
abbrev pub status_failure_error : Failure → ℕ → Error
status_failure_error f code = new_failure_error f (status_error (pos code))
