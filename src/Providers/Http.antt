-- ===== src/Providers/Http.antt =====
-- internal/providers/*/chat.go: one exchange with an upstream, and the answer that is no stream. What the network,
-- the clock and the client's context do is the argument `Exchange`.
use free_model_router.Gateway.Errors.{Error, plain, wrapped, new_failure_error}
use free_model_router.Gateway.Response.{StreamEvent, TokenUsage}
use free_model_router.Model.Failure.{FailureClass, new_failure, canceled, request, route}
use free_model_router.Prelude.Int.{pos, is_positive}
use free_model_router.Providers.Wire.{Outcome, returned, failed}
use free_model_router.Providers.Sse.{Line, protocol_failure}
use free_model_router.Prelude.{
  ℕ, String, Bool, ◌||◌, Option, none, some, List, [], ◌∷◌, if◌then◌else◌,
}

-- The first choice's fields of `chatResponse`, with what `json.Marshal` makes of each tool call.
pub record ReplyChoice : Type 0 where
  pub content : String
  pub reasoning_content : String
  pub tool_calls : List (Outcome String)
  pub delta : String
  pub finish_reason : String

-- `chatResponse`
pub record ChatReply : Type 0 where
  pub choices : List ReplyChoice
  pub usage : TokenUsage

-- What a call meets: the errors of `NewRequest` and of `Do`; the error of the client's context and whether the
-- request's own deadline has passed, where a call or a read fails; and the answer, its status first.
pub record Exchange : Type 0 where
  pub build_error : Error
  pub do_error : Error
  pub ctx_err : Error
  pub deadline : Bool
  pub status : ℕ
  pub read_error : Error
  pub reply : Outcome ChatReply
  pub lines : List Line

pub record HttpRequest (P : Type 0) : Type 0 where
  pub url : String
  pub payload : P
  pub bearer : Option String

pub data Body : Type 0 where
  not_received unclosed closed : Body

pub data ChatStream : Type 0 where
  sse_stream : List Line → ChatStream
  one_shot : StreamEvent → ChatStream

-- What a call sends, what it gives its caller, and what it leaves of the answer's body.
pub record ChatCall (P : Type 0) : Type 0 where
  pub sent : Option (HttpRequest P)
  pub result : Outcome ChatStream
  pub body : Body

abbrev pub refused : {P : Type 0} → Error → ChatCall P
refused e = record { sent = none; result = failed e; body = not_received }

abbrev pub canceled_failure : Error → Error
canceled_failure cause = new_failure_error (new_failure canceled request) cause

abbrev pub route_failure_error : FailureClass → Error → Error
route_failure_error c cause = new_failure_error (new_failure c route) cause

-- `ev.Usage`, where the answer counts any token
abbrev pub counted_usage : TokenUsage → Option TokenUsage
counted_usage u =
    if is_positive u.total || is_positive u.prompt || is_positive u.completion then some u else none

abbrev pub push_text : String → Outcome (List String) → Outcome (List String)
push_text x (returned xs) = returned (x ∷ xs)
push_text x (failed e) = failed e

unfoldable pub marshal_all : List (Outcome String) → Outcome (List String)
marshal_all [] = returned []
marshal_all (returned x ∷ xs) = push_text x (marshal_all xs)
marshal_all (failed e ∷ xs) = failed e

-- The event of the first choice; `text` is its content.
abbrev pub reply_event :
    String → ReplyChoice → TokenUsage → Outcome (List String) → Outcome StreamEvent
reply_event text c usage (failed e) = failed (protocol_failure e)
reply_event text c usage (returned calls) = returned (record {
  delta_text = text;
  choice_index = pos 0;
  tool_calls = calls;
  reasoning_content = c.reasoning_content;
  finish_reason = c.finish_reason;
  usage = counted_usage usage;
})

abbrev pub first_choice :
    (ReplyChoice → String) → List ReplyChoice → TokenUsage → Outcome StreamEvent
first_choice text [] usage = failed (protocol_failure (plain "chat response has no choices"))
first_choice text (c ∷ cs) usage = reply_event (text c) c usage (marshal_all c.tool_calls)

-- The event of an answer that is no stream; `text` chooses the content.
unfoldable pub read_reply : (ReplyChoice → String) → Outcome ChatReply → Outcome StreamEvent
unfolding marshal_all
read_reply text (failed e) = failed (protocol_failure (wrapped "malformed chat response" e))
read_reply text (returned r) = first_choice text r.choices r.usage

abbrev pub one_shot_of : Outcome StreamEvent → Outcome ChatStream
one_shot_of (failed e) = failed e
one_shot_of (returned ev) = returned (one_shot ev)
