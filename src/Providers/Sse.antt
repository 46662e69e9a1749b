-- ===== src/Providers/Sse.antt =====
-- internal/providers/*/chat.go: the stream of events of an answer, line by line. The decoding of a chunk and
-- `strings.TrimSpace` are parameters. Behind the lines that the upstream delivers, a read gives `io.EOF`.
pub mod Transcript
pub mod Delivery
use Prim.Native.Char.{Char, code}
use free_model_router.Gateway.Errors.{Error, nil, eof, plain, is_nil, new_failure_error}
use free_model_router.Gateway.Response.{StreamEvent, TokenUsage, semantic}
use free_model_router.Model.Failure.{new_failure, protocol, route}
use free_model_router.Prelude.Affix.{starts_with, behind, trim_right}
use free_model_router.Prelude.Text.{str_eq}
use free_model_router.Prelude.Int.{ℤ, pos}
use free_model_router.Providers.Wire.{Outcome, returned, failed}
use free_model_router.Prelude.{
  ℕ, String, Bool, true, false, not, ◌&&◌, ◌||◌, Option, none, some, List, [], ◌∷◌, ◌==◌,
  if◌then◌else◌,
}

-- The first choice's fields of `sseChunk`.
pub record SseChoice : Type 0 where
  pub index : ℤ
  pub content : String
  pub reasoning_content : String
  pub tool_calls : List String
  pub finish_reason : String

-- `sseChunk`
pub record SseChunk : Type 0 where
  pub choices : List SseChoice
  pub usage : Option TokenUsage

-- One round of the loop of `Next`: `ctx.Err()` before the read, what `ReadString` gives, and `ctx.Err()` after it.
pub record Line : Type 0 where
  pub ctx_before : Error
  pub text : String
  pub error : Error
  pub ctx_after : Error

-- `sseStream`, with the rounds to come.
pub record SseStream : Type 0 where
  pub done : Bool
  pub lines : List Line

pub record Next : Type 0 where
  pub event : StreamEvent
  pub error : Error
  pub stream : SseStream

abbrev pub no_event : StreamEvent
no_event = record {
  delta_text = "";
  choice_index = pos 0;
  tool_calls = [];
  reasoning_content = "";
  finish_reason = "";
  usage = none;
}

abbrev pub stopped : Error → List Line → Next
stopped e ls = record { event = no_event; error = e; stream = record { done = true; lines = ls } }

abbrev pub protocol_failure : Error → Error
protocol_failure cause = new_failure_error (new_failure protocol route) cause

abbrev pub is_line_end : Char → Bool
is_line_end c = (code c == b'\r') || (code c == b'\n')

abbrev pub is_exactly_eof : Error → Bool
is_exactly_eof eof = true
is_exactly_eof _ = false

abbrev pub event_of : SseChoice → Option TokenUsage → StreamEvent
event_of c usage = record {
  delta_text = c.content;
  choice_index = c.index;
  tool_calls = c.tool_calls;
  reasoning_content = c.reasoning_content;
  finish_reason = c.finish_reason;
  usage = usage;
}

-- What the text of a line means to the loop: it goes on, it ends with an error, or it gives an event.
pub data Meaning : Type 0 where
  ignored : Meaning
  ended : Error → Meaning
  delivered : StreamEvent → Meaning

abbrev pub choice_meaning : List SseChoice → Option TokenUsage → Meaning
choice_meaning [] usage = ignored
choice_meaning (c ∷ cs) usage =
    if semantic (event_of c usage) then delivered (event_of c usage) else ignored

abbrev pub chunk_meaning : Outcome SseChunk → Meaning
chunk_meaning (failed e) = ended (protocol_failure e)
chunk_meaning (returned chunk) = choice_meaning chunk.choices chunk.usage

module _ (trim_space : String → String) (decode : String → Outcome SseChunk) where
  abbrev pub data_meaning : String → Meaning
  data_meaning data_text =
      if str_eq data_text "[DONE]" then ended eof else chunk_meaning (decode data_text)

  unfoldable pub line_meaning : String → Meaning
  line_meaning text =
      if str_eq text "" || starts_with ":" text
      then ignored
      else if not (starts_with "data:" text)
      then ignored
      else data_meaning (trim_space (behind "data:" text))

  -- The end of a round; the flag is that of the stream, which an unterminated last line has set.
  abbrev pub proceed : Bool → List Line → Next → Meaning → Next
  proceed done ls rest ignored = rest
  proceed done ls rest (ended e) = stopped e ls
  proceed done ls rest (delivered ev) = record {
    event = ev;
    error = nil;
    stream = record { done = done; lines = ls };
  }

  abbrev pub trimmed : String → String
  trimmed text = trim_right is_line_end text

  -- The loop of `Next` in opencode and nvidia.
  unfoldable pub next_line : List Line → Next
  unfolding line_meaning
  next_line [] = stopped eof []
  next_line (l ∷ ls) =
      let rest = next_line ls in
      if not (is_nil l.ctx_before)
      then stopped l.ctx_before ls
      else if not (is_nil l.error)
      then (if is_exactly_eof l.error
          then stopped eof ls
          else if not (is_nil l.ctx_after)
          then stopped l.ctx_after ls
          else stopped (protocol_failure l.error) ls)
      else proceed false ls rest (line_meaning (trimmed l.text))

  -- `Next` in opencode and nvidia
  unfoldable pub next : SseStream → Next
  unfolding next_line
  next s =
      if s.done then record { event = no_event; error = eof; stream = s } else next_line s.lines

  -- Behind a read that gave text and `io.EOF`: an empty text or a comment ends the stream, any other line that
  -- gives no event leads to a read that ends it.
  abbrev pub proceed_last : List Line → Next → String → Next
  proceed_last ls rest text =
      if str_eq text "" || starts_with ":" text
      then stopped eof ls
      else proceed true ls rest (line_meaning text)

  -- The loop of `Next` in xai and gemini, which reads an unterminated last line; the flag is that of the stream.
  unfoldable pub next_line_or_last : Bool → List Line → Next
  unfolding line_meaning
  next_line_or_last done [] = stopped eof []
  next_line_or_last done (l ∷ ls) =
      let rest = next_line_or_last done ls in
      let last = next_line_or_last true ls in
      if not (is_nil l.ctx_before)
      then stopped l.ctx_before ls
      else if is_nil l.error
      then proceed done ls rest (line_meaning (trimmed l.text))
      else if is_exactly_eof l.error
      then (if str_eq (trim_space l.text) ""
          then stopped eof ls
          else proceed_last ls last (trimmed l.text))
      else if not (is_nil l.ctx_after)
      then stopped l.ctx_after ls
      else stopped (protocol_failure l.error) ls

  -- `Next` in xai and gemini
  unfoldable pub next_or_last : SseStream → Next
  unfolding next_line_or_last
  next_or_last s =
      if s.done
      then record { event = no_event; error = eof; stream = s }
      else next_line_or_last s.done s.lines
