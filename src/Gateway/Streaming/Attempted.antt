-- ===== src/Gateway/Streaming/Attempted.antt =====
-- What one attempt sends, from its slot to its end, streaming or not.
use free_model_router.Prelude.{
  String, ◌≡◌, refl, sym, ◌⊎◌, inl, inr, Bool, true, false, List, [], ◌∷◌, Bool-cases,
}
use free_model_router.Router.Filter.{Candidate}
use free_model_router.Gateway.Streaming.{
  run_attempt, run_streaming_attempt, respond, collect_loop, run_non_streaming_attempt, Collected,
  in_slot, budget_error_or, stream_loop, at_eof, empty_collected, collect,
}
use free_model_router.Gateway.Attempt.{Budget, Attempt, Upstream, Read, is_expired, no_tokens, fire}
use free_model_router.Gateway.Errors.{Error, is_nil, is_eof}
use free_model_router.Gateway.Streaming.Commit.{
  IsQuiet, IsStreamed, give_up-IsQuiet, stream_loop-Shape,
}
use free_model_router.Gateway.Response.{ChatResponse, json_ok}
use mathlib.Core.Path.{subst}
use free_model_router.Prelude.Text.{str_eq}

in_slot-IsQuiet : (c : Candidate) (a : Attempt) → IsQuiet a → IsQuiet (in_slot c a)
in_slot-IsQuiet c a q = record {
  handled = q.handled;
  uncommitted = q.uncommitted;
  nothing_sent = q.nothing_sent;
  failed = q.failed;
}

in_slot-IsStreamed : (c : Candidate) (a : Attempt) → IsStreamed c a → IsStreamed c (in_slot c a)
in_slot-IsStreamed c a s = record {
  first_event = s.first_event;
  rest = s.rest;
  handled = s.handled;
  committed = s.committed;
  sent = s.sent;
  semantic = s.semantic;
  tail = s.tail;
}

budget_error_or-fails :
    (b : Budget) (e : Error) → is_nil e ≡ false → is_nil (budget_error_or b e) ≡ false
budget_error_or-fails b e h = elim (Bool-cases (is_expired b)) [
  | inl late ↦ rw (late) refl
  | inr on_time ↦ rw (on_time) h
]

pub run_attempt_cases :
    (loop : Budget → Attempt) (c : Candidate) (up : Upstream)
    → IsQuiet (run_attempt loop c up)
      ⊎ ((b : Budget) × (run_attempt loop c up ≡ in_slot c (loop b)))
unfolding run_attempt
run_attempt_cases loop c up = elim (Bool-cases (is_nil up.slot_error)) [
  | inr refused ↦ rw (refused) (
      inl (record {
        handled = refl;
        uncommitted = refl;
        nothing_sent = refl;
        failed = budget_error_or-fails _ up.slot_error refused;
      }))
  | inl slot ↦ elim (Bool-cases (is_nil up.call_error)) [
    | inr failed ↦
        rw (slot, failed)
          (inl (
            in_slot-IsQuiet c _ (
              give_up-IsQuiet up.ctx_err c.route.id no_tokens _
                (budget_error_or-fails _ up.call_error failed))))
    | inl called ↦ elim (Bool-cases up.has_stream) [
      | inr no_stream ↦
          rw (slot, called, no_stream)
            (inl (in_slot-IsQuiet c _ (give_up-IsQuiet up.ctx_err c.route.id no_tokens _ refl)))
      | inl stream ↦ rw (slot, called, stream) (inr (_, refl))
    ]
  ]
]

-- However the upstream behaves and whenever the budget's timer fires, a streaming attempt is either
-- quiet: not handled, with an error, nothing committed and nothing sent; or handled and committed, and
-- then it sent its headers, a chunk for a semantic event, further such chunks of the same model, and at
-- most one closing line behind them.
pub run_streaming_attempt_lem :
    (c : Candidate) (up : Upstream)
    → IsQuiet (run_streaming_attempt c up) ⊎ IsStreamed c (run_streaming_attempt c up)
unfolding run_streaming_attempt
run_streaming_attempt_lem c up =
    elim (run_attempt_cases (λ b. stream_loop up.ctx_err c up.reads b false no_tokens) c up) [
      | inl quiet ↦ inl quiet
      | inr ran ↦
          subst (λ a. IsQuiet a ⊎ IsStreamed c a) (sym ran.1)
            (elim (stream_loop-Shape up.ctx_err c up.reads ran.0 false no_tokens) [
              | inl q ↦ inl (in_slot-IsQuiet c _ q)
              | inr s ↦ inr (in_slot-IsStreamed c _ s)
            ])
    ]

-- A non-streaming attempt that is done: one response of the candidate's model.
pub record IsResponded (c : Candidate) (a : Attempt) : Type 0 where
  pub response : ChatResponse
  pub handled : a.handled ≡ true
  pub committed : a.is_committed ≡ true
  pub sent : a.sent ≡ json_ok response ∷ []
  pub model : response.model ≡ c.model.id

respond_lem :
    (c : Candidate) (acc : Collected) (finish_reason : String)
    → IsResponded c (respond c acc finish_reason)
unfolding respond
respond_lem c acc finish_reason = record {
  response = _;
  handled = refl;
  committed = refl;
  sent = refl;
  model = refl;
}

at_eof_lem :
    (ctx_err : Bool) (c : Candidate) (acc : Collected)
    → IsQuiet (at_eof ctx_err c acc) ⊎ IsResponded c (at_eof ctx_err c acc)
unfolding respond
at_eof_lem ctx_err c acc = elim (Bool-cases acc.seen) [
  | inl seen ↦ rw (seen) (inr (respond_lem c acc ""))
  | inr silent_so_far ↦ rw (silent_so_far) (inl (give_up-IsQuiet ctx_err c.route.id _ _ refl))
]

collect_loop_lem :
    (ctx_err : Bool) (c : Candidate) (rs : List Read) (b : Budget) (acc : Collected)
    → IsQuiet (collect_loop ctx_err c rs b acc) ⊎ IsResponded c (collect_loop ctx_err c rs b acc)
unfolding collect_loop
collect_loop_lem ctx_err c [] b acc = elim (Bool-cases (is_expired b)) [
  | inl late ↦ rw (late) (inl (give_up-IsQuiet ctx_err c.route.id _ _ refl))
  | inr on_time ↦ rw (on_time) (at_eof_lem ctx_err c acc)
]
collect_loop_lem ctx_err c (r ∷ rs) b acc = elim (Bool-cases (is_expired (fire r.fires b))) [
  | inl late ↦ rw (late) (inl (give_up-IsQuiet ctx_err c.route.id _ _ refl))
  | inr on_time ↦ elim (Bool-cases (is_eof r.error)) [
    | inl ended ↦ rw (on_time, ended) (at_eof_lem ctx_err c acc)
    | inr not_ended ↦ elim (Bool-cases (is_nil r.error)) [
      | inr failed ↦
          rw (on_time, not_ended, failed) (inl (give_up-IsQuiet ctx_err c.route.id _ _ failed))
      | inl fine ↦ elim (Bool-cases (str_eq r.event.finish_reason "")) [
        | inr last ↦ rw (on_time, not_ended, fine, last) (inr (respond_lem c _ _))
        | inl more ↦
            rw (on_time, not_ended, fine, more)
              (collect_loop_lem ctx_err c rs (fire r.fires b) (collect acc r.event))
      ]
    ]
  ]
]

in_slot-IsResponded : (c : Candidate) (a : Attempt) → IsResponded c a → IsResponded c (in_slot c a)
in_slot-IsResponded c a s = record {
  response = s.response;
  handled = s.handled;
  committed = s.committed;
  sent = s.sent;
  model = s.model;
}

-- A non-streaming attempt is either quiet, or handled and committed with exactly one response, of the
-- candidate's model.
pub run_non_streaming_attempt_lem :
    (c : Candidate) (up : Upstream)
    → IsQuiet (run_non_streaming_attempt c up) ⊎ IsResponded c (run_non_streaming_attempt c up)
unfolding run_non_streaming_attempt
run_non_streaming_attempt_lem c up =
    elim (run_attempt_cases (λ b. collect_loop up.ctx_err c up.reads b empty_collected) c up) [
      | inl quiet ↦ inl quiet
      | inr ran ↦
          subst (λ a. IsQuiet a ⊎ IsResponded c a) (sym ran.1)
            (elim (collect_loop_lem up.ctx_err c up.reads ran.0 empty_collected) [
              | inl q ↦ inl (in_slot-IsQuiet c _ q)
              | inr s ↦ inr (in_slot-IsResponded c _ s)
            ])
    ]
