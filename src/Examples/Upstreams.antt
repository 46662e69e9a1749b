-- ===== src/Examples/Upstreams.antt =====
-- The clients of the upstreams at concrete answers, and two tests of what they do at the edges.
use free_model_router.Catalog.Pool.{contains}
use free_model_router.Gateway.Response.{semantic}
use free_model_router.Prelude.Affix.{behind}
use free_model_router.Prelude.Affix.{trim_right}
use free_model_router.Prelude.Affix.{starts_with}
use free_model_router.Prelude.Text.{str_discrete}
use free_model_router.Gateway.Errors.{is_unsupported}
use free_model_router.Examples.{route_of}
use free_model_router.Gateway.Errors.{nil, eof, plain}
use free_model_router.Model.Access.{free}
use free_model_router.Model.Route.{ProviderRoute}
use free_model_router.Prelude.Int.{pos}
use free_model_router.Prelude.{
  ℕ, String, ◌≡◌, refl, true, false, none, List, [], ◌∷◌, arith, length,
}
use free_model_router.Providers.Wire.{Outcome, returned, failed, NormalizedRequest, ChatRequest}
use free_model_router.Providers.Sse.{Line, SseChunk, next, next_or_last}
use free_model_router.Providers.Sse.Delivery.{IsDelivery, drive-IsDelivery}
use free_model_router.Providers.Sse.Transcript.{drive}
use free_model_router.Providers.Http.{Exchange, HttpRequest, unclosed}
use free_model_router.Providers.Opencode.{OpencodeProvider, opencode_chat, exchange}
use free_model_router.Providers.Opencode.Isolated.{AllSent, opencode_chat-AllSent}
use free_model_router.Providers.Opencode.Reported.{IsRefused, expected_action, exchange-IsRefused}

abbrev pub as_it_is : String → String
as_it_is s = s

abbrev pub marshal_whole : ChatRequest String ℕ → Outcome (ChatRequest String ℕ)
marshal_whole r = returned r

-- A chunk whose content is its text.
abbrev chunk_of : String → Outcome SseChunk
chunk_of s = returned (record {
  choices =
      record {
        index = pos 0;
        content = s;
        reasoning_content = "";
        tool_calls = [];
        finish_reason = "";
      }
      ∷ [];
  usage = none;
})

abbrev line_of : String → Line
line_of s = record { ctx_before = nil; text = s; error = nil; ctx_after = nil }

-- A last line that no line end follows.
abbrev last_line : String → Line
last_line s = record { ctx_before = nil; text = s; error = eof; ctx_after = nil }

abbrev hello : List Line
hello = line_of "data:hel" ∷ line_of ": ping" ∷ line_of "data:lo" ∷ line_of "data:[DONE]" ∷ []

drive-IsDelivery_example :
    IsDelivery as_it_is chunk_of hello
      (drive (next as_it_is chunk_of) 5 (record { done = false; lines = hello }))
drive-IsDelivery_example = drive-IsDelivery as_it_is chunk_of hello 5 (omega arith)

-- These lines give two events.
hello_lem : length (drive (next as_it_is chunk_of) 5 (record { done = false; lines = hello })).0 ≡ 2
unfolding drive next str_discrete trim_right starts_with behind semantic
hello_lem = refl

abbrev pub question : NormalizedRequest String ℕ
question = record {
  messages = "hi" ∷ [];
  tools = record { kind = ""; name = "clock"; description = ""; schema = "{}" } ∷ [];
  tool_choice = "";
  response_format = "";
  reasoning = "";
  stream = false;
  max_tokens = pos 0;
  temperature = none;
  extensions = [];
}

abbrev zen : OpencodeProvider
zen = record {
  base_url = "https://opencode.ai/zen/v1";
  auth_base_override = "";
  native_free_only = true;
  credential = returned "key";
}

abbrev pickle_route : ProviderRoute
pickle_route = record (route_of "opencode-zen::big-pickle" "opencode/big-pickle" "opencode" free) {
  upstream_model_id = "big-pickle";
}

-- An answer with a status, whose body is cut off.
abbrev pub answered : ℕ → Exchange
answered status = record {
  build_error = nil;
  do_error = nil;
  ctx_err = nil;
  deadline = false;
  status = status;
  read_error = plain "unexpected EOF";
  reply = failed (plain "unexpected end of JSON input");
  lines = [];
}

opencode_chat-AllSent_example :
    AllSent as_it_is marshal_whole zen pickle_route question
      (opencode_chat as_it_is marshal_whole zen pickle_route question (answered 200)).sent
opencode_chat-AllSent_example =
    opencode_chat-AllSent as_it_is marshal_whole zen pickle_route question (answered 200)

abbrev posted : HttpRequest String
posted = record {
  url = "https://opencode.ai/zen/v1/chat/completions";
  payload = "{}";
  bearer = none;
}

exchange-IsRefused_example :
    IsRefused (expected_action (answered 429)) (exchange false (answered 429) posted)
unfolding is_unsupported
exchange-IsRefused_example = exchange-IsRefused false (answered 429) posted refl refl refl

-- A last line without a line end: opencode and nvidia pass it over, xai and gemini deliver it.
last_line_lost :
    (next as_it_is chunk_of (record { done = false; lines = last_line "data:lo" ∷ [] })).error ≡ eof
unfolding next
last_line_lost = refl

last_line_read :
    (next_or_last as_it_is chunk_of
      (record { done = false; lines = last_line "data:lo" ∷ [] })).event.delta_text
    ≡ "lo"
unfolding next_or_last str_discrete trim_right starts_with behind semantic
last_line_read = refl

-- An answer with status 200 that cannot be read: opencode leaves its body open.
body_left_open :
    (opencode_chat as_it_is marshal_whole zen pickle_route question (answered 200)).body ≡ unclosed
unfolding opencode_chat contains str_discrete starts_with
body_left_open = refl
