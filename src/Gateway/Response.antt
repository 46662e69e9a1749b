-- ===== src/Gateway/Response.antt =====
-- What a chat request writes to its client: the writes of internal/gateway/attempt.go, in order.

-- `StreamEvent` of internal/provider/provider.go
use free_model_router.Prelude.{
  ℕ, String, Bool, true, false, not, ◌||◌, Option, none, some, List, [], ◌∷◌,
}
use free_model_router.Prelude.Int.{ℤ}
use free_model_router.Prelude.Text.{str_eq}
use free_model_router.Gateway.Errors.{Error, upstream_error_status}

pub record TokenUsage : Type 0 where
  pub prompt : ℤ
  pub completion : ℤ
  pub total : ℤ

pub record StreamEvent : Type 0 where
  pub delta_text : String
  pub choice_index : ℤ
  pub tool_calls : List String
  pub reasoning_content : String
  pub finish_reason : String
  pub usage : Option TokenUsage

abbrev pub has_any : List String → Bool
has_any [] = false
has_any (x ∷ l) = true

-- `StreamEvent.Semantic`
unfoldable pub semantic : StreamEvent → Bool
semantic ev =
    not (str_eq ev.delta_text "")
    || has_any ev.tool_calls
    || not (str_eq ev.reasoning_content "")
    || not (str_eq ev.finish_reason "")

-- The message of a non-streaming response.
pub record ChatResponse : Type 0 where
  pub model : String
  pub content : String
  pub tool_calls : List String
  pub reasoning : String
  pub finish_reason : String

-- `json_error` is `writeError` with a status, `json_ok` the response with status 200; the others
-- belong to a stream: its headers, one chunk per event, the closing line, an error line. The model id
-- goes with each chunk.
pub data Sent : Type 0 where
  json_error : ℕ → Sent
  json_ok : ChatResponse → Sent
  sse_headers : Sent
  sse_chunk : String → StreamEvent → Sent
  sse_done : Sent
  sse_error : Error → Sent

-- `writeUpstreamError`
abbrev pub write_status : Option ℕ → List Sent
write_status none = []
write_status (some code) = json_error code ∷ []

unfoldable pub write_upstream_error : Error → List Sent
write_upstream_error e = write_status (upstream_error_status e)
