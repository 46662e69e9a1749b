-- ===== src/Providers/Opencode/Isolated.antt =====
-- What the client of OpenCode sends: to which address, with which credential, and with which request.
use free_model_router.Model.Route.{ProviderRoute}
use free_model_router.Model.Failure.{Failure}
use free_model_router.Gateway.Errors.{is_nil}
use free_model_router.Prelude.Text.{str_eq, str_discrete}
use free_model_router.Prelude.{
  String, ◌≡◌, refl, sym, ap, ◌⊎◌, inl, inr, Bool, true, false, not, ◌&&◌, Option, none, some, List,
  [], ◌∷◌, arith, Bool-cases, All,
}
use free_model_router.Providers.Wire.{
  Outcome, returned, failed, NormalizedRequest, ChatRequest, ToolSpec, Reasons, reasons_of,
  build_payload, payload_of, marshalled, chat_request, function_tool, function_tools, push_tool,
  status_failure,
}
use free_model_router.Providers.Http.{Exchange, HttpRequest}
use free_model_router.Providers.Opencode.{
  OpencodeProvider, auth_base_url, is_verified_anonymous_free, is_auth_route, chat_base_url, under,
  exchange, on_status, receive, bearer_of, with_bearer, with_payload, opencode_chat,
}
use mathlib.Core.List.{map}
use mathlib.Core.Path.{subst}

receive-sent :
    {P : Type 0} (stream : Bool) (x : Exchange) (h : HttpRequest P)
    → (receive stream x h).sent ≡ some h
unfolding receive
receive-sent stream x h = ground arith

on_status-sent :
    {P : Type 0} (f : Option Failure) (stream : Bool) (x : Exchange) (h : HttpRequest P)
    → (on_status f stream x h).sent ≡ some h
on_status-sent (some f) stream x h = refl
on_status-sent none stream x h = receive-sent stream x h

exchange-sent :
    {P : Type 0} (stream : Bool) (x : Exchange) (h : HttpRequest P)
    → (exchange stream x h).sent ≡ some h
unfolding exchange
exchange-sent stream x h = elim (Bool-cases (not (is_nil x.do_error))) [
  | inl e ↦ rw (e) refl
  | inr e ↦ rw (e) (on_status-sent (status_failure x.status) stream x h)
]

-- A tool that the wire can carry.
abbrev pub IsFunction : ToolSpec → Type 0
IsFunction t = (t.kind ≡ "") ⊎ (t.kind ≡ "function")

-- The tools of a request that is sent.
IsTools : List ToolSpec → Outcome (List ToolSpec) → Type 0
IsTools ts (failed e) = Unit
IsTools ts (returned us) = All IsFunction ts × (us ≡ map function_tool ts)

push_tool-IsTools :
    (t : ToolSpec) (ts : List ToolSpec) (o : Outcome (List ToolSpec))
    → IsFunction t
    → IsTools ts o
    → IsTools (t ∷ ts) (push_tool t o)
unfolding IsTools
push_tool-IsTools t ts (failed e) f h = tt
push_tool-IsTools t ts (returned us) f h = ((f, h.0), ap (λ x. function_tool t ∷ x) h.1)

kind_cases :
    (k : String)
    → (not (str_eq k "") && not (str_eq k "function")) ≡ false
    → (k ≡ "") ⊎ (k ≡ "function")
kind_cases k h = ground (arith, h)

function_tools-IsTools :
    (reason : String) (ts : List ToolSpec) → IsTools ts (function_tools reason ts)
unfolding IsTools function_tools
function_tools-IsTools reason [] = (tt, refl)
function_tools-IsTools reason (t ∷ ts) =
    elim (Bool-cases (not (str_eq t.kind "") && not (str_eq t.kind "function"))) [
      | inl e ↦ rw (e) tt
      | inr e ↦ rw (e) (
          push_tool-IsTools t ts (function_tools reason ts) (kind_cases t.kind e)
            (function_tools-IsTools reason ts))
    ]

module _ {M F P : Type 0} (trim_space : String → String) (marshal : ChatRequest M F → Outcome P)
    (p : OpencodeProvider) (r : ProviderRoute) (req : NormalizedRequest M F) where
  -- The request as it goes out, field by field: nothing that the caller asked for is dropped, and each
  -- tool is written as a function.
  pub record IsWhole (sent : ChatRequest M F) : Type 0 where
    pub model : sent.model ≡ r.upstream_model_id
    pub messages : sent.messages ≡ req.messages
    pub stream : sent.stream ≡ req.stream
    pub max_tokens : sent.max_tokens ≡ req.max_tokens
    pub temperature : sent.temperature ≡ req.temperature
    pub tools :
        sent.tools
        ≡ map
            (λ t. record {
              kind = "function";
              name = t.name;
              description = t.description;
              schema = t.schema;
            })
            req.tools
    pub tool_choice : sent.tool_choice ≡ req.tool_choice
    pub response_format : sent.response_format ≡ req.response_format
    pub reasoning : sent.reasoning ≡ req.reasoning

  pub record IsComplete (payload : P) : Type 0 where
    pub all_functions : All IsFunction req.tools
    pub no_extension : req.extensions ≡ []
    pub request : ChatRequest M F
    pub whole : IsWhole request
    pub marshals : marshal request ≡ returned payload

  -- An authenticated route sends the credential, any other route sends none.
  abbrev pub IsCredited : Option String → Type 0
  IsCredited bearer =
      ((is_auth_route r ≡ true)
        × ((key : String) × (p.credential ≡ returned key)
            × (str_eq (trim_space key) "" ≡ false)
            × (bearer ≡ some key)))
      ⊎ ((is_auth_route r ≡ false) × (bearer ≡ none))

  pub record IsIsolated (h : HttpRequest P) : Type 0 where
    pub verified : p.native_free_only ≡ true → is_verified_anonymous_free r.upstream_model_id ≡ true
    pub public_url : is_auth_route r ≡ false → h.url ≡ under p.base_url "/chat/completions"
    pub auth_url :
        is_auth_route r ≡ true
        → p.auth_base_override ≡ ""
        → h.url ≡ under auth_base_url "/chat/completions"
    pub credited : IsCredited h.bearer
    pub complete : IsComplete h.payload

  -- What is sent, where anything is.
  unfoldable pub AllSent : Option (HttpRequest P) → Type 0
  AllSent none = Unit
  AllSent (some h) = IsIsolated h

  IsBearer : Outcome (Option String) → Type 0
  IsBearer (failed e) = Unit
  IsBearer (returned bearer) = IsCredited bearer

  bearer_of-IsBearer :
      (c : Outcome String) → p.credential ≡ c → IsBearer (bearer_of trim_space marshal r c)
  unfolding IsBearer
  bearer_of-IsBearer (failed e) h = elim (Bool-cases (is_auth_route r)) [
    | inl a ↦ rw (a) tt
    | inr a ↦ rw (a) (inr (a, refl))
  ]
  bearer_of-IsBearer (returned key) h = elim (Bool-cases (is_auth_route r)) [
    | inr a ↦ rw (a) (inr (a, refl))
    | inl a ↦ elim (Bool-cases (str_eq (trim_space key) "")) [
      | inl b ↦ rw (a, b) tt
      | inr b ↦ rw (a, b) (inl (a, (key, h, b, refl)))
    ]
  ]

  IsPayload : Outcome P → Type 0
  IsPayload (failed e) = Unit
  IsPayload (returned payload) = IsComplete payload

  marshalled-IsPayload :
      (us : List ToolSpec) (o : Outcome P)
      → marshal (chat_request marshal r.upstream_model_id req us) ≡ o
      → IsTools req.tools (returned us)
      → req.extensions ≡ []
      → IsPayload (marshalled marshal o)
  unfolding IsPayload IsTools
  marshalled-IsPayload us (failed e) m h n = tt
  marshalled-IsPayload us (returned payload) m h n = record {
    all_functions = h.0;
    no_extension = n;
    request = chat_request marshal r.upstream_model_id req us;
    whole = record {
      model = refl;
      messages = refl;
      stream = refl;
      max_tokens = refl;
      temperature = refl;
      tools = h.1;
      tool_choice = refl;
      response_format = refl;
      reasoning = refl;
    };
    marshals = m;
  }

  payload_of-IsPayload :
      (reasons : Reasons) (ts : Outcome (List ToolSpec)) (xs : List String)
      → IsTools req.tools ts
      → req.extensions ≡ xs
      → IsPayload (payload_of marshal reasons r.upstream_model_id req ts xs)
  unfolding IsPayload
  payload_of-IsPayload reasons (failed e) xs h n = tt
  payload_of-IsPayload reasons (returned us) (x ∷ xs) h n = tt
  payload_of-IsPayload reasons (returned us) [] h n = marshalled-IsPayload us _ refl h n

  sent_right :
      (x : Exchange) (payload : P) (o : Outcome (Option String))
      → (p.native_free_only ≡ true → is_verified_anonymous_free r.upstream_model_id ≡ true)
      → IsComplete payload
      → IsBearer o
      → AllSent (with_bearer trim_space marshal p r req.stream x payload o).sent
  unfolding AllSent IsBearer chat_base_url str_discrete
  sent_right x payload (failed e) v c b = tt
  sent_right x payload (returned bearer) v c b =
      subst AllSent
        (sym (
          exchange-sent req.stream x (record {
            url = under (chat_base_url p r) "/chat/completions";
            payload = payload;
            bearer = bearer;
          })))
        (record {
          verified = v;
          public_url = λ a. rw (a) refl;
          auth_url = λ a o. rw (a, o) refl;
          credited = b;
          complete = c;
        })

  with_payload-AllSent :
      (x : Exchange) (o : Outcome P)
      → (p.native_free_only ≡ true → is_verified_anonymous_free r.upstream_model_id ≡ true)
      → IsPayload o
      → AllSent (with_payload trim_space marshal p r req.stream x o).sent
  unfolding AllSent IsPayload
  with_payload-AllSent x (failed e) v h = tt
  with_payload-AllSent x (returned payload) v h = elim (Bool-cases (not (is_nil x.build_error))) [
    | inl e ↦ rw (e) tt
    | inr e ↦ rw (e) (
        sent_right x payload (bearer_of trim_space marshal r p.credential) v h
          (bearer_of-IsBearer p.credential refl))
  ]

  free_if_native :
      (p.native_free_only && not (is_verified_anonymous_free r.upstream_model_id)) ≡ false
      → p.native_free_only ≡ true
      → is_verified_anonymous_free r.upstream_model_id ≡ true
  free_if_native h n = ground (arith, h, n)

  -- Whatever the network does: if the client of OpenCode sends a request, then the model is on the list of free ones
  -- where the client is bound to it; a route that is not authenticated goes to the base address, without a credential;
  -- an authenticated one goes to the Zen address, unless that is overridden, with the credential, which is not blank;
  -- and the payload is the encoding of a request with the route's upstream model id and the messages, the options
  -- and the tools of the caller's, whose tools are all functions and which has no extension.
  pub opencode_chat-AllSent :
      (x : Exchange) → AllSent (opencode_chat trim_space marshal p r req x).sent
  unfolding opencode_chat build_payload AllSent
  opencode_chat-AllSent x =
      elim (Bool-cases
        (p.native_free_only && not (is_verified_anonymous_free r.upstream_model_id))) [
          | inl e ↦ rw (e) tt
          | inr e ↦ rw (e) (
              with_payload-AllSent x _ (free_if_native e) (
                payload_of-IsPayload (reasons_of "opencode public route") _ req.extensions
                  (function_tools-IsTools _ req.tools) refl))
        ]
