-- ===== src/Providers/Sse/Delivery.antt =====
-- What a stream delivers, line by line, said without the functions that read it.
use free_model_router.Providers.Sse.{
  Line, SseChunk, SseChoice, Meaning, line_meaning, next, choice_meaning, chunk_meaning,
  data_meaning, event_of, is_exactly_eof, is_line_end,
}
use free_model_router.Providers.Sse.Transcript.{drive, transcript, drive-transcript, continue_with}
use free_model_router.Providers.Wire.{Outcome, returned, failed}
use free_model_router.Gateway.Errors.{Error, new_failure_error, eof, is_nil}
use free_model_router.Gateway.Response.{StreamEvent, TokenUsage, semantic, has_any}
use free_model_router.Model.Failure.{new_failure, protocol, route}
use free_model_router.Prelude.Text.{str_eq, str_eq→eq, str_eq_refl}
use free_model_router.Prelude.Affix.{starts_with, behind, trim_right}
use free_model_router.Prelude.{
  ℕ, Option, ◌||◌, ◌⊎◌, ◌<◌, String, ◌≡◌, ◌≢◌, refl, sym, ◌∙◌, ap, inl, inr, true, false, List, [],
  ◌∷◌, arith, length, Bool-cases,
}
use mathlib.Core.Bool.{true≢false}
use mathlib.Core.Path.{subst}

-- A choice that brings no text, no tool call, no reasoning and no end.
abbrev pub IsSilent : SseChoice → Type 0
IsSilent c =
    (c.content ≡ "") × (c.tool_calls ≡ []) × (c.reasoning_content ≡ "") × (c.finish_reason ≡ "")

no_calls : (l : List String) → has_any l ≡ false → l ≡ []
no_calls [] h = refl
no_calls (x ∷ l) h = cc

semantic-IsSilent :
    (c : SseChoice) (u : Option TokenUsage) → semantic (event_of c u) ≡ false → IsSilent c
unfolding semantic
semantic-IsSilent c u h = (
  str_eq→eq c.content "" (ground (arith, h)),
  no_calls c.tool_calls (ground (arith, h)),
  str_eq→eq c.reasoning_content "" (ground (arith, h)),
  str_eq→eq c.finish_reason "" (ground (arith, h)),
)

semantic-not-IsSilent :
    (c : SseChoice) (u : Option TokenUsage) → semantic (event_of c u) ≡ true → ¬ IsSilent c
unfolding semantic
semantic-not-IsSilent c u h k = true≢false (sym h ∙ (rw (k.0, k.1, k.2, k.3, str_eq_refl "") refl))

-- A line that carries no data: an empty one, a comment, or another field.
abbrev pub IsOther : String → Type 0
IsOther text = (text ≡ "") ⊎ (starts_with ":" text ≡ true) ⊎ (starts_with "data:" text ≡ false)

abbrev pub failure_of : Error → Error
failure_of cause = new_failure_error (new_failure protocol route) cause

exactly_eof : (e : Error) → is_exactly_eof e ≡ true → e ≡ eof
exactly_eof eof h = refl
exactly_eof e h = cc

not-eof : (e : Error) → is_exactly_eof e ≡ false → e ≢ eof
not-eof e h k = true≢false (sym (ap is_exactly_eof k) ∙ h)

other_cases :
    (text : String)
    → (str_eq text "" || starts_with ":" text) ≡ true
    → (text ≡ "") ⊎ (starts_with ":" text ≡ true)
other_cases text h = elim (Bool-cases (starts_with ":" text)) [
  | inl e ↦ inr e
  | inr e ↦ inl (str_eq→eq text "" (ground (arith, h, e)))
]

not-str : (a b : String) → str_eq a b ≡ false → a ≢ b
not-str a b h e = true≢false (sym (str_eq_refl b) ∙ subst (λ x. str_eq x b ≡ false) e h)

module _ (trim_space : String → String) (decode : String → Outcome SseChunk) where
  -- A line that was read without an error, with this text before its end.
  pub record IsRead (l : Line) (text : String) : Type 0 where
    pub open_before : is_nil l.ctx_before ≡ true
    pub fine : is_nil l.error ≡ true
    pub text_is : text ≡ trim_right is_line_end l.text

  -- Such a line whose text is a data field, with what the field carries.
  pub record IsData (l : Line) (data_text : String) : Type 0 where
    pub text : String
    pub line : IsRead l text
    pub field : starts_with "data:" text ≡ true
    pub carries : data_text ≡ trim_space (behind "data:" text)

  -- A read that fails while the client is there.
  pub record IsBroken (l : Line) : Type 0 where
    pub open_before : is_nil l.ctx_before ≡ true
    pub fails : is_nil l.error ≡ false

  -- The events that come of the lines, and the error that ends them. What is read together with an
  -- error, `io.EOF` included, brings none.
  pub data IsDelivery : List Line → List StreamEvent × Error → Type 0 where
    no_lines : IsDelivery [] ([], eof)
    canceled :
        (l : Line) (ls : List Line)
        → is_nil l.ctx_before ≡ false
        → IsDelivery (l ∷ ls) ([], l.ctx_before)
    at_end :
        (l : Line) (ls : List Line) → IsBroken l → l.error ≡ eof → IsDelivery (l ∷ ls) ([], eof)
    gone :
        (l : Line) (ls : List Line)
        → IsBroken l
        → l.error ≢ eof
        → is_nil l.ctx_after ≡ false
        → IsDelivery (l ∷ ls) ([], l.ctx_after)
    broken :
        (l : Line) (ls : List Line)
        → IsBroken l
        → l.error ≢ eof
        → is_nil l.ctx_after ≡ true
        → IsDelivery (l ∷ ls) ([], failure_of l.error)
    passed_over :
        (l : Line) (ls : List Line) (t : List StreamEvent × Error) (text : String)
        → IsRead l text
        → IsOther text
        → IsDelivery ls t
        → IsDelivery (l ∷ ls) t
    done : (l : Line) (ls : List Line) → IsData l "[DONE]" → IsDelivery (l ∷ ls) ([], eof)
    malformed :
        (l : Line) (ls : List Line) (d : String) (e : Error)
        → IsData l d
        → d ≢ "[DONE]"
        → decode d ≡ failed e
        → IsDelivery (l ∷ ls) ([], failure_of e)
    no_choice :
        (l : Line) (ls : List Line) (t : List StreamEvent × Error) (d : String) (chunk : SseChunk)
        → IsData l d
        → d ≢ "[DONE]"
        → decode d ≡ returned chunk
        → chunk.choices ≡ []
        → IsDelivery ls t
        → IsDelivery (l ∷ ls) t
    silent :
        (l : Line) (ls : List Line) (t : List StreamEvent × Error) (d : String) (chunk : SseChunk)
        (c : SseChoice) (cs : List SseChoice)
        → IsData l d
        → d ≢ "[DONE]"
        → decode d ≡ returned chunk
        → chunk.choices ≡ c ∷ cs
        → IsSilent c
        → IsDelivery ls t
        → IsDelivery (l ∷ ls) t
    event :
        (l : Line) (ls : List Line) (t : List StreamEvent × Error) (d : String) (chunk : SseChunk)
        (c : SseChoice) (cs : List SseChoice)
        → IsData l d
        → d ≢ "[DONE]"
        → decode d ≡ returned chunk
        → chunk.choices ≡ c ∷ cs
        → ¬ IsSilent c
        → IsDelivery ls t
        → IsDelivery (l ∷ ls) (
          record {
            delta_text = c.content;
            choice_index = c.index;
            tool_calls = c.tool_calls;
            reasoning_content = c.reasoning_content;
            finish_reason = c.finish_reason;
            usage = chunk.usage;
          }
              ∷ t.0,
          t.1,
        )

  abbrev after : List StreamEvent × Error → Meaning → List StreamEvent × Error
  after t m = continue_with trim_space decode t m

  choice_meaning-IsDelivery :
      (l : Line) (ls : List Line) (t : List StreamEvent × Error) (d : String) (chunk : SseChunk)
      (cs : List SseChoice)
      → IsData l d
      → d ≢ "[DONE]"
      → decode d ≡ returned chunk
      → chunk.choices ≡ cs
      → IsDelivery ls t
      → IsDelivery (l ∷ ls) (after t (choice_meaning cs chunk.usage))
  choice_meaning-IsDelivery l ls t d chunk [] field_of more e k rest =
      no_choice l ls t d chunk field_of more e k rest
  choice_meaning-IsDelivery l ls t d chunk (c ∷ cs) field_of more e k rest =
      elim (Bool-cases (semantic (event_of c chunk.usage))) [
        | inl s ↦ rw s (
            event l ls t d chunk c cs field_of more e k (semantic-not-IsSilent c chunk.usage s)
              rest)
        | inr s ↦
            rw s (
              silent l ls t d chunk c cs field_of more e k (semantic-IsSilent c chunk.usage s) rest)
      ]

  chunk_meaning-IsDelivery :
      (l : Line) (ls : List Line) (t : List StreamEvent × Error) (d : String) (o : Outcome SseChunk)
      → IsData l d
      → d ≢ "[DONE]"
      → decode d ≡ o
      → IsDelivery ls t
      → IsDelivery (l ∷ ls) (after t (chunk_meaning o))
  chunk_meaning-IsDelivery l ls t d (failed x) field_of more e rest =
      malformed l ls d x field_of more e
  chunk_meaning-IsDelivery l ls t d (returned chunk) field_of more e rest =
      choice_meaning-IsDelivery l ls t d chunk chunk.choices field_of more e refl rest

  data_meaning-IsDelivery :
      (l : Line) (ls : List Line) (t : List StreamEvent × Error) (d : String)
      → IsData l d
      → IsDelivery ls t
      → IsDelivery (l ∷ ls) (after t (data_meaning trim_space decode d))
  data_meaning-IsDelivery l ls t d field_of rest = elim (Bool-cases (str_eq d "[DONE]")) [
    | inl e ↦ rw e (done l ls (subst (IsData l) (str_eq→eq d "[DONE]" e) field_of))
    | inr e ↦
        rw e
          (chunk_meaning-IsDelivery l ls t d (decode d) field_of (not-str d "[DONE]" e) refl rest)
  ]

  line_meaning-IsDelivery :
      (l : Line) (ls : List Line) (t : List StreamEvent × Error) (text : String)
      → IsRead l text
      → IsDelivery ls t
      → IsDelivery (l ∷ ls) (after t (line_meaning trim_space decode text))
  unfolding line_meaning
  line_meaning-IsDelivery l ls t text read rest =
      elim (Bool-cases (str_eq text "" || starts_with ":" text)) [
        | inl a ↦ rw a (
            passed_over l ls t text read
              (elim (other_cases text a) [ inl x ↦ inl x | inr x ↦ inr (inl x) ]) rest)
        | inr a ↦ elim (Bool-cases (starts_with "data:" text)) [
          | inr b ↦ rw (a, b) (passed_over l ls t text read (inr (inr b)) rest)
          | inl b ↦
              rw (a, b)
                (data_meaning-IsDelivery l ls t (trim_space (behind "data:" text))
                  (record { text = text; line = read; field = b; carries = refl }) rest)
        ]
      ]

  transcript-IsDelivery : (ls : List Line) → IsDelivery ls (transcript trim_space decode ls)
  unfolding transcript
  transcript-IsDelivery [] = no_lines
  transcript-IsDelivery (l ∷ ls) =
      let rest = transcript-IsDelivery ls in
      elim (Bool-cases (is_nil l.ctx_before)) [
        | inr a ↦ rw a (canceled l ls a)
        | inl a ↦ elim (Bool-cases (is_nil l.error)) [
          | inl b ↦
              rw (a, b)
                (line_meaning-IsDelivery l ls _ (trim_right is_line_end l.text)
                  (record { open_before = a; fine = b; text_is = refl }) rest)
          | inr b ↦
              let failing : IsBroken l = record { open_before = a; fails = b } in
              elim (Bool-cases (is_exactly_eof l.error)) [
                | inl c ↦ rw (a, b, c) (at_end l ls failing (exactly_eof l.error c))
                | inr c ↦ elim (Bool-cases (is_nil l.ctx_after)) [
                  | inl d ↦ rw (a, b, c, d) (broken l ls failing (not-eof l.error c) d)
                  | inr d ↦ rw (a, b, c, d) (gone l ls failing (not-eof l.error c) d)
                ]
              ]
        ]
      ]

  -- A client that calls `Next` of opencode or nvidia until it fails, and that may call more often than there
  -- are lines, gets what the lines deliver, in their order, and then the error of the first line that ends the
  -- stream. Of the lines that are read without an error, each data field whose chunk decodes and whose first
  -- choice brings a text, a tool call, a reasoning or an end gives one event with this choice's fields, and
  -- any other field, a comment, an empty line and a chunk without such a choice give none. The stream ends
  -- with the error of the client's context; with `io.EOF`, at the end marker of the protocol and at the end of
  -- the input, where a text that comes together with `io.EOF` brings no event; or with a failure of the route.
  pub drive-IsDelivery :
      (ls : List Line) (n : ℕ)
      → length ls < n
      → IsDelivery ls (drive (next trim_space decode) n (record { done = false; lines = ls }))
  drive-IsDelivery ls n enough =
      subst (IsDelivery ls) (sym (drive-transcript trim_space decode ls n enough))
        (transcript-IsDelivery ls)
