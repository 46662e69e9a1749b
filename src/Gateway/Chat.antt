-- ===== src/Gateway/Chat.antt =====
-- internal/gateway/attempt.go: `ChatHandler` over the attempts that the upstreams make of it.

-- What a chat request reads from outside.
use free_model_router.Prelude.{ℕ, ◌≡◌, sym, ◌∙◌, ◌⊎◌, inl, inr, Bool, true, false, List, [], ◌∷◌}
use free_model_router.Router.Filter.{Candidate}
use free_model_router.Gateway.Streaming.{run_streaming_attempt, run_non_streaming_attempt}
use free_model_router.Gateway.Attempt.{Attempt, Upstream}
use free_model_router.Gateway.Attempts.{Env, Outcome, AttemptCandidate, Run, chat}
use free_model_router.Gateway.Policy.{FailoverPolicy}
use free_model_router.Gateway.Response.{
  Sent, StreamEvent, sse_headers, ChatResponse, sse_chunk, json_ok, semantic,
}
use free_model_router.Gateway.Attempts.Answer.{IsBrief, IsAnswer, chat-IsAnswer}
use free_model_router.Gateway.Streaming.Attempted.{
  run_streaming_attempt_lem, run_non_streaming_attempt_lem,
}
use mathlib.Core.Bool.{false≢true}
use free_model_router.Gateway.Streaming.Commit.{IsTail}

pub record World : Type 0 where
  pub ctx_err : ℕ → Bool
  pub clock : ℕ → ℕ
  pub upstream : ℕ → Candidate → Upstream
  pub gone : Bool

abbrev pub run_either : Bool → Candidate → Upstream → Attempt
run_either true = run_streaming_attempt
run_either false = run_non_streaming_attempt

abbrev pub outcome_of : Attempt → Outcome
outcome_of a = record { handled = a.handled; error = a.error; sent = a.sent }

abbrev pub env_of : World → Bool → Env
env_of w stream = record {
  ctx_err = w.ctx_err;
  clock = w.clock;
  gone = w.gone;
  attempt = λ k c. outcome_of (run_either stream c (w.upstream k c));
}

-- `ChatHandler` behind the resolution of the candidates.
unfoldable pub chat_handler : World → FailoverPolicy → Bool → Bool → ℕ → List AttemptCandidate → Run
chat_handler w policy stream explicit start candidates =
    chat (env_of w stream) policy explicit start candidates

-- The response of a streaming request, from its headers on.
pub record IsStreamOf (sent : List Sent) : Type 0 where
  pub candidate : Candidate
  pub event : StreamEvent
  pub rest : List Sent
  pub opened : sent ≡ sse_headers ∷ sse_chunk candidate.model.id event ∷ rest
  pub speaks : semantic event ≡ true
  pub tail : IsTail candidate rest

-- What the client of a request sees, streaming or not.
abbrev pub IsClientView : Bool → List Sent → Type 0
IsClientView true sent = IsStreamOf sent ⊎ IsBrief sent
IsClientView false sent = ((r : ChatResponse) × (sent ≡ json_ok r ∷ [])) ⊎ IsBrief sent

quiet :
    (w : World) (stream : Bool) (k : ℕ) (c : Candidate)
    → ((env_of w stream).attempt k c).handled ≡ false
    → ((env_of w stream).attempt k c).sent ≡ []
quiet w true k c h = elim (run_streaming_attempt_lem c (w.upstream k c)) [
  | inl q ↦ q.nothing_sent
  | inr s ↦ absurd (false≢true (sym h ∙ s.handled))
]
quiet w false k c h = elim (run_non_streaming_attempt_lem c (w.upstream k c)) [
  | inl q ↦ q.nothing_sent
  | inr s ↦ absurd (false≢true (sym h ∙ s.handled))
]

answered :
    (w : World) (stream : Bool) (sent : List Sent)
    → IsAnswer (env_of w stream) sent
    → IsClientView stream sent
answered w true sent (inr brief) = inr brief
answered w false sent (inr brief) = inr brief
answered w true sent (inl (k, c, done, e)) = elim (run_streaming_attempt_lem c (w.upstream k c)) [
  | inl q ↦ absurd (false≢true (sym q.handled ∙ done))
  | inr s ↦ inl (record {
    candidate = c;
    event = s.first_event;
    rest = s.rest;
    opened = e ∙ s.sent;
    speaks = s.semantic;
    tail = s.tail;
  })
]
answered w false sent (inl (k, c, done, e)) =
    elim (run_non_streaming_attempt_lem c (w.upstream k c)) [
      | inl q ↦ absurd (false≢true (sym q.handled ∙ done))
      | inr s ↦ inl (s.response, e ∙ s.sent)
    ]

-- Over all the attempts of a request, whatever the upstreams do and whenever the timers fire: a
-- streaming client sees one stream of one model, a non-streaming client one response, or either of them
-- a single JSON error or nothing.
pub chat_handler-IsClientView :
    (w : World) (policy : FailoverPolicy) (stream explicit : Bool) (start : ℕ)
    (candidates : List AttemptCandidate)
    → IsClientView stream (chat_handler w policy stream explicit start candidates).sent
unfolding chat_handler
chat_handler-IsClientView w policy stream explicit start candidates =
    answered w stream _
      (chat-IsAnswer (env_of w stream) (quiet w stream) policy explicit start candidates)
