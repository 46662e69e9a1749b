-- ===== src/Gateway/Streaming/Commit.antt =====
-- What an attempt sends: nothing before the commit, and a well-formed stream behind it.

-- An attempt that leaves the client's response untouched, with an error for the next one.
use free_model_router.Gateway.Response.{sse_done}
use free_model_router.Prelude.{
  ◌≡◌, refl, ◌⊎◌, inl, inr, Bool, true, false, not, ◌&&◌, List, [], ◌∷◌, arith, Bool-cases,
}
use free_model_router.Gateway.Streaming.{on_stream_error, on_read, on_chunk, stream_loop}
use free_model_router.Gateway.Attempt.{
  Attempt, give_up, Read, Budget, prepend, is_expired, can_commit, fire, committed,
}
use free_model_router.Router.Filter.{Candidate}
use free_model_router.Gateway.Errors.{is_nil, Error, is_eof, is_request_canceled, eof}
use free_model_router.Gateway.Response.{
  Sent, StreamEvent, TokenUsage, sse_headers, semantic, sse_chunk, sse_error,
}
use free_model_router.Model.Route.{RouteId}
use free_model_router.Prelude.Text.{str_eq}

pub record IsQuiet (a : Attempt) : Type 0 where
  pub handled : a.handled ≡ false
  pub uncommitted : a.is_committed ≡ false
  pub nothing_sent : a.sent ≡ []
  pub failed : is_nil a.error ≡ false

-- A stream behind its headers: chunks of the candidate's model for semantic events, and at most one
-- line behind them, the closing one or an error.
abbrev pub IsTail : Candidate → List Sent → Type 0
IsTail c [] = Unit
IsTail c (sse_chunk m ev ∷ l) = (m ≡ c.model.id) × (semantic ev ≡ true) × IsTail c l
IsTail c (sse_done ∷ []) = Unit
IsTail c (sse_error e ∷ []) = Unit
IsTail c _ = ⊥

abbrev pub IsOpened : Candidate → Attempt → Type 0
IsOpened c a = (a.handled ≡ true) × (a.is_committed ≡ true) × IsTail c a.sent

-- A committed stream: its headers, at least one chunk, and the rest.
pub record IsStreamed (c : Candidate) (a : Attempt) : Type 0 where
  pub first_event : StreamEvent
  pub rest : List Sent
  pub handled : a.handled ≡ true
  pub committed : a.is_committed ≡ true
  pub sent : a.sent ≡ sse_headers ∷ sse_chunk c.model.id first_event ∷ rest
  pub semantic : semantic first_event ≡ true
  pub tail : IsTail c rest

-- By the state of the stream when a part of the loop starts.
abbrev pub Shape : Candidate → Bool → Attempt → Type 0
Shape c true a = IsOpened c a
Shape c false a = IsQuiet a ⊎ IsStreamed c a

pub give_up-IsQuiet :
    (ctx_err : Bool) (id : RouteId) (t : TokenUsage) (e : Error)
    → is_nil e ≡ false
    → IsQuiet (give_up ctx_err id t e)
unfolding give_up
give_up-IsQuiet ctx_err id t e h = record {
  handled = refl;
  uncommitted = refl;
  nothing_sent = refl;
  failed = h;
}

on_stream_error-Shape :
    (ctx_err : Bool) (c : Candidate) (ic : Bool) (t : TokenUsage) (e : Error)
    → is_nil e ≡ false
    → Shape c ic (on_stream_error ctx_err c.route.id ic t e)
unfolding on_stream_error
on_stream_error-Shape ctx_err c false t e h = elim (Bool-cases (is_eof e)) [
  | inl ended ↦ rw (ended) (inl (give_up-IsQuiet ctx_err c.route.id t _ refl))
  | inr broken ↦ rw (broken) (inl (give_up-IsQuiet ctx_err c.route.id t e h))
]
on_stream_error-Shape ctx_err c true t e h = elim (Bool-cases (is_eof e)) [
  | inl ended ↦ rw (ended) (refl, refl, tt)
  | inr broken ↦ elim (Bool-cases (is_request_canceled ctx_err e)) [
    | inl left_by ↦ rw (broken, left_by) (refl, refl, tt)
    | inr blamed ↦ rw (broken, blamed) (refl, refl, tt)
  ]
]

on_chunk-IsOpened :
    (c : Candidate) (t : TokenUsage) (ev : StreamEvent) (rest : Attempt)
    → semantic ev ≡ true
    → IsOpened c rest
    → IsOpened c (on_chunk c t ev rest)
on_chunk-IsOpened c t ev rest s h = elim (Bool-cases (not (str_eq ev.finish_reason ""))) [
  | inl last ↦ rw (last) (refl, refl, (refl, s, tt))
  | inr more ↦ rw (more) (h.0, h.1, (refl, s, h.2))
]

on_chunk-IsStreamed :
    (c : Candidate) (t : TokenUsage) (ev : StreamEvent) (rest : Attempt)
    → semantic ev ≡ true
    → IsOpened c rest
    → IsStreamed c (prepend (sse_headers ∷ []) (on_chunk c t ev rest))
on_chunk-IsStreamed c t ev rest s h =
    let o = on_chunk-IsOpened c t ev rest s h in
    record {
      first_event = ev;
      rest = _;
      handled = o.0;
      committed = o.1;
      sent = refl;
      semantic = s;
      tail = o.2.2;
    }

not_late : (b : Budget) → is_expired b && not true ≡ false
not_late b = ground arith

on_read-Shape :
    (ctx_err : Bool) (c : Candidate) (r : Read) (b : Budget) (ic : Bool) (t : TokenUsage)
    (continue : Budget → Bool → TokenUsage → Attempt)
    → ((b' : Budget) (ic' : Bool) (t' : TokenUsage) → Shape c ic' (continue b' ic' t'))
    → Shape c ic (on_read ctx_err c r b ic t continue)
unfolding on_read
on_read-Shape ctx_err c r b false t continue more = elim (Bool-cases (is_expired b)) [
  | inl late ↦ rw (late) (inl (give_up-IsQuiet ctx_err c.route.id t _ refl))
  | inr on_time ↦ elim (Bool-cases (is_nil r.error)) [
    | inr failed ↦ rw (on_time, failed) (on_stream_error-Shape ctx_err c false t r.error failed)
    | inl fine ↦ elim (Bool-cases (semantic r.event)) [
      | inr idle ↦ rw (on_time, fine, idle) (more b false t)
      | inl speaks ↦ elim (Bool-cases (can_commit (fire r.fires_at_commit b))) [
        | inl won ↦
            rw (on_time, fine, speaks, won)
              (inr (on_chunk-IsStreamed c _ r.event _ speaks (more committed true _)))
        | inr lost ↦
            rw (on_time, fine, speaks, lost) (inl (give_up-IsQuiet ctx_err c.route.id _ _ refl))
      ]
    ]
  ]
]
on_read-Shape ctx_err c r b true t continue more =
    rw (not_late b) (elim (Bool-cases (is_nil r.error)) [
      | inr failed ↦ rw (failed) (on_stream_error-Shape ctx_err c true t r.error failed)
      | inl fine ↦ elim (Bool-cases (semantic r.event)) [
        | inr idle ↦ rw (fine, idle) (more b true t)
        | inl speaks ↦ rw (fine, speaks) (on_chunk-IsOpened c _ r.event _ speaks (more b true _))
      ]
    ])

pub stream_loop-Shape :
    (ctx_err : Bool) (c : Candidate) (rs : List Read) (b : Budget) (ic : Bool) (t : TokenUsage)
    → Shape c ic (stream_loop ctx_err c rs b ic t)
unfolding stream_loop
stream_loop-Shape ctx_err c [] b true t =
    rw (not_late b) (on_stream_error-Shape ctx_err c true t eof refl)
stream_loop-Shape ctx_err c [] b false t = elim (Bool-cases (is_expired b)) [
  | inl late ↦ rw (late) (inl (give_up-IsQuiet ctx_err c.route.id t _ refl))
  | inr on_time ↦ rw (on_time) (on_stream_error-Shape ctx_err c false t eof refl)
]
stream_loop-Shape ctx_err c (r ∷ rs) b ic t =
    on_read-Shape ctx_err c r (fire r.fires b) ic t (stream_loop ctx_err c rs)
      (stream_loop-Shape ctx_err c rs)
