-- ===== src/Providers/Sse/Transcript.antt =====
-- What a client that calls `Next` until it fails gets of a stream.
use free_model_router.Providers.Sse.{
  Line, SseStream, SseChunk, Next, Meaning, ignored, ended, delivered, line_meaning, trimmed, next,
  next_line, proceed, stopped, choice_meaning, chunk_meaning, event_of, SseChoice, protocol_failure,
  is_exactly_eof,
}
use free_model_router.Providers.Wire.{Outcome, returned, failed}
use free_model_router.Gateway.Errors.{Error, new_failure_error, nil, eof, is_nil}
use free_model_router.Gateway.Response.{StreamEvent, TokenUsage, semantic}
use free_model_router.Prelude.Text.{str_eq}
use free_model_router.Prelude.Affix.{starts_with, behind}
use free_model_router.Prelude.{
  ℕ, Option, ◌||◌, zero, suc, ◌<◌, ◌≤◌, String, ◌≡◌, refl, ap, inl, inr, Bool, true, false, not,
  List, [], ◌∷◌, arith, length, if◌then◌else◌, Bool-cases,
}

abbrev pub with_event : StreamEvent → List StreamEvent × Error → List StreamEvent × Error
with_event ev t = (ev ∷ t.0, t.1)

-- A client that calls until it gets an error, at most so often.
abbrev pub followed_by : Next → List StreamEvent × Error → List StreamEvent × Error
followed_by answer rest =
    if is_nil answer.error then with_event answer.event rest else ([], answer.error)

unfoldable pub drive : (SseStream → Next) → ℕ → SseStream → List StreamEvent × Error
drive step zero s = ([], nil)
drive step (suc n) s = let rest = drive step n (step s).stream in followed_by (step s) rest

-- A meaning that ends the stream does so with an error.
IsEnding : Meaning → Type 0
IsEnding ignored = Unit
IsEnding (ended e) = is_nil e ≡ false
IsEnding (delivered ev) = Unit

choice_meaning-IsEnding :
    (cs : List SseChoice) (usage : Option TokenUsage) → IsEnding (choice_meaning cs usage)
unfolding IsEnding
choice_meaning-IsEnding [] usage = tt
choice_meaning-IsEnding (c ∷ cs) usage = elim (Bool-cases (semantic (event_of c usage))) [
  | inl e ↦ rw (e) tt
  | inr e ↦ rw (e) tt
]

chunk_meaning-IsEnding : (c : Outcome SseChunk) → IsEnding (chunk_meaning c)
unfolding IsEnding new_failure_error
chunk_meaning-IsEnding (failed e) = refl
chunk_meaning-IsEnding (returned chunk) = choice_meaning-IsEnding chunk.choices chunk.usage

stopped-followed_by :
    (e : Error) (ls : List Line) (t : List StreamEvent × Error)
    → is_nil e ≡ false
    → followed_by (stopped e ls) t ≡ ([], e)
stopped-followed_by e ls t h = rw (h) refl

not-false : (b : Bool) → not b ≡ true → b ≡ false
not-false b h = ground (arith, h)

module _ (trim_space : String → String) (decode : String → Outcome SseChunk) where
  abbrev pub continue_with : List StreamEvent × Error → Meaning → List StreamEvent × Error
  continue_with t ignored = t
  continue_with t (ended e) = ([], e)
  continue_with t (delivered ev) = with_event ev t

  -- The error of a read that fails: the client's, the end of the input, or a failure of the route.
  abbrev pub read_failure : Line → Error
  read_failure l =
      if is_exactly_eof l.error
      then eof
      else if is_nil l.ctx_after
      then protocol_failure l.error
      else l.ctx_after

  -- The events of the lines in their order, up to the first that ends the stream.
  unfoldable pub transcript : List Line → List StreamEvent × Error
  transcript [] = ([], eof)
  transcript (l ∷ ls) =
      let rest = transcript ls in
      if not (is_nil l.ctx_before)
      then ([], l.ctx_before)
      else if not (is_nil l.error)
      then ([], read_failure l)
      else continue_with rest (line_meaning trim_space decode (trimmed trim_space decode l.text))

  abbrev opened : List Line → SseStream
  opened ls = record { done = false; lines = ls }

  line_meaning-IsEnding : (text : String) → IsEnding (line_meaning trim_space decode text)
  unfolding line_meaning IsEnding
  line_meaning-IsEnding text = elim (Bool-cases (str_eq text "" || starts_with ":" text)) [
    | inl e ↦ rw (e) tt
    | inr e ↦ elim (Bool-cases (starts_with "data:" text)) [
      | inr f ↦ rw (e, f) tt
      | inl f ↦ elim (Bool-cases (str_eq (trim_space (behind "data:" text)) "[DONE]")) [
        | inl g ↦ rw (e, f, g) refl
        | inr g ↦ rw (e, f, g) (chunk_meaning-IsEnding (decode (trim_space (behind "data:" text))))
      ]
    ]
  ]

  abbrev driven : ℕ → Next → List StreamEvent × Error
  driven n a = followed_by a (drive (next trim_space decode) n a.stream)

  -- What holds of a list of lines for every client that calls often enough.
  IsFollowed : List Line → Type 0
  IsFollowed ls =
      (n : ℕ) → length ls ≤ n → driven n (next_line trim_space decode ls) ≡ transcript ls

  drive-opened :
      (ls : List Line)
      → IsFollowed ls
      → (n : ℕ) → length ls < n
      → drive (next trim_space decode) n (opened ls) ≡ transcript ls
  unfolding drive next IsFollowed
  drive-opened ls h zero l = absurd (omega (arith, l))
  drive-opened ls h (suc n) l = h n (omega (arith, l))

  proceed-IsFollowed :
      (ls : List Line)
      → IsFollowed ls
      → (m : Meaning) → IsEnding m
      → (n : ℕ) → length ls < n
      → driven n (proceed trim_space decode false ls (next_line trim_space decode ls) m)
        ≡ continue_with (transcript ls) m
  unfolding IsFollowed IsEnding
  proceed-IsFollowed ls h ignored t n l = h n (omega (arith, l))
  proceed-IsFollowed ls h (ended e) t n l = stopped-followed_by e ls _ t
  proceed-IsFollowed ls h (delivered ev) t n l = ap (with_event ev) (drive-opened ls h n l)

  next_line-IsFollowed : (ls : List Line) → IsFollowed ls
  unfolding IsFollowed transcript next_line new_failure_error
  next_line-IsFollowed [] n l = refl
  next_line-IsFollowed (x ∷ ls) n l = elim (Bool-cases (not (is_nil x.ctx_before))) [
    | inl a ↦ rw (a) (stopped-followed_by x.ctx_before ls _ (not-false _ a))
    | inr a ↦ elim (Bool-cases (not (is_nil x.error))) [
      | inr b ↦
          rw (a, b)
            (proceed-IsFollowed ls (next_line-IsFollowed ls) _ (line_meaning-IsEnding _) n
              (omega (arith, l)))
      | inl b ↦ elim (Bool-cases (is_exactly_eof x.error)) [
        | inl c ↦ rw (a, b, c) refl
        | inr c ↦ elim (Bool-cases (is_nil x.ctx_after)) [
          | inl d ↦ rw (a, b, c, d) refl
          | inr d ↦ rw (a, b, c, d) (stopped-followed_by x.ctx_after ls _ d)
        ]
      ]
    ]
  ]

  -- A client that calls `Next` of opencode or nvidia until it fails, and that may call more often than there
  -- are lines, gets the events of the lines in their order, without loss or repetition, and then the error of the
  -- first line that ends the stream: the client's own, `io.EOF`, or a failure of the route.
  pub drive-transcript :
      (ls : List Line) (n : ℕ)
      → length ls < n
      → drive (next trim_space decode) n (record { done = false; lines = ls }) ≡ transcript ls
  drive-transcript ls n l = drive-opened ls (next_line-IsFollowed ls) n l
