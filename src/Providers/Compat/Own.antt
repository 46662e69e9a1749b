-- ===== src/Providers/Compat/Own.antt =====
-- A configured endpoint is sent its own requests, with its own credential.
use Prim.Native.String.append
use Prim.Native.String.{◌++◌ as append}
use Prim.Native.Char.{Char, code}
use text.Mathlib.TextEquality.{Char-path}
use free_model_router.Model.Identity.{matches_rest, matches_provider, is_rest}
use free_model_router.Model.Identity.RoundTrip.{matches_provider-matches_rest}
use free_model_router.Prelude.Affix.{starts_with}
use free_model_router.Prelude.{
  ◌⊎◌, Result, ok, err, Option, none, some, List, [], ◌∷◌, ℕ, String, ◌≡◌, ◌≢◌, refl, sym, ap, ◌∙◌,
  inl, inr, Bool, true, false, not, ◌&&◌, arith, ◌==◌, Bool-cases,
}
use free_model_router.Config.{ProviderConfig}
use free_model_router.Model.Identity.Keys.{new_route_id}
use free_model_router.Model.Route.{ProviderModel, ProviderRoute}
use free_model_router.Prelude.Text.{str_eq}
use free_model_router.Prelude.Affix.{trim_right}
use free_model_router.Providers.Wire.{Outcome, returned, failed, NormalizedRequest, ChatRequest}
use free_model_router.Providers.Http.{Exchange, HttpRequest}
use free_model_router.Providers.Opencode.{is_slash, is_auth_route, under}
use free_model_router.Providers.Opencode.Isolated.{
  IsCredited, AllSent, IsIsolated, opencode_chat-AllSent,
}
use free_model_router.Providers.Compat.{
  CompatProvider, backend, round_trip, compat_chat, generic_route, generic_routes,
}
use mathlib.Core.Path.{subst, ap₂}
use mathlib.Core.Bool.{false≢true}

abbrev colon : Char
colon = ":"

abbrev behind_colon : String → String
behind_colon m = String.◌∷◌ colon (String.◌∷◌ colon m)

-- A character of a provider id is no colon.
rest_ne_colon : (n : ℕ) → is_rest n ≡ true → (b':' == n) ≡ true → ⊥
rest_ne_colon n h e = ground (arith, h, e)

eq_swap : (a b : ℕ) → (a == b) ≡ true → (b == a) ≡ true
eq_swap a b e = ground (arith, e)

code_eq : (a b : ℕ) → (a == b) ≡ true → a ≡ b
code_eq a b e = ground (arith, e)

both : (a b : Bool) → (a && b) ≡ true → (a ≡ true) × (b ≡ true)
both a b h = ground (arith, h)

prefix_cons :
    (c d : Char) (s t : String)
    → starts_with (String.◌∷◌ c s) (String.◌∷◌ d t) ≡ true
    → ((code c == code d) ≡ true) × (starts_with s t ≡ true)
unfolding starts_with
prefix_cons c d s t h = both (code c == code d) (starts_with s t) h

rest_cons :
    (c : Char) (s : String)
    → matches_rest (String.◌∷◌ c s) ≡ true
    → (is_rest (code c) ≡ true) × (matches_rest s ≡ true)
unfolding matches_rest
rest_cons c s h = both (is_rest (code c)) (matches_rest s) h

-- A text that starts with a provider id and two colons starts with no other provider id and two colons.
prefix_own :
    (a b m : String)
    → matches_rest a ≡ true
    → matches_rest b ≡ true
    → starts_with (append a (behind_colon "")) (append b (behind_colon m)) ≡ true
    → b ≡ a
prefix_own String.[] String.[] m ha hb h = refl
prefix_own String.[] (String.◌∷◌ d t) m ha hb h = absurd (
    rest_ne_colon (code d) (rest_cons d t hb).0
      (prefix_cons colon d (String.◌∷◌ colon "") (append t (behind_colon m))
        (rw (append.nil (behind_colon ""), append.cons d t (behind_colon m)) at h)).0)
prefix_own (String.◌∷◌ c s) String.[] m ha hb h = absurd (
    rest_ne_colon (code c) (rest_cons c s ha).0 (
      eq_swap (code c) (code colon)
        (prefix_cons c colon (append s (behind_colon "")) (String.◌∷◌ colon m)
          (rw (append.nil (behind_colon m), append.cons c s (behind_colon "")) at h)).0))
prefix_own (String.◌∷◌ c s) (String.◌∷◌ d t) m ha hb h =
    let k =
      prefix_cons c d (append s (behind_colon "")) (append t (behind_colon m))
        (rw (append.cons c s (behind_colon ""), append.cons d t (behind_colon m)) at h) in
    ap₂ String.◌∷◌ (Char-path d c (sym (code_eq (code c) (code d) k.0)))
      (prefix_own s t m (rest_cons c s ha).1 (rest_cons d t hb).1 k.1)

first_id : Result (List ProviderRoute) → String
first_id (ok (r ∷ rs)) = r.id
first_id (ok []) = ""
first_id (err e) = ""

new_route_id-ok :
    (name mdl id : String)
    → new_route_id name mdl ≡ ok id
    → (matches_provider name ≡ true) × (id ≡ append name (append "::" mdl))
unfolding new_route_id
new_route_id-ok name mdl id h = ground (arith, h)

generic_route-ok :
    (c : ProviderConfig) (pm : ProviderModel) (r : ProviderRoute) (o : Result String)
    → new_route_id c.id pm.upstream_id ≡ o
    → generic_route c pm o ≡ ok (r ∷ [])
    → (matches_provider c.id ≡ true) × (r.id ≡ append c.id (append "::" pm.upstream_id))
unfolding first_id
generic_route-ok c pm r (err e) n h = cc
generic_route-ok c pm r (ok id) n h =
    let k = new_route_id-ok c.id pm.upstream_id id n in (k.0, sym (ap first_id h) ∙ k.1)

append_colons : (m : String) → append "::" m ≡ behind_colon m
append_colons m =
    append.cons colon (String.◌∷◌ colon "") m
    ∙ ap (String.◌∷◌ colon) (append.cons colon "" m ∙ ap (String.◌∷◌ colon) (append.nil m))

auth_route_id :
    (c : ProviderConfig) (pm : ProviderModel) (r : ProviderRoute)
    → generic_routes c pm ≡ ok (r ∷ [])
    → is_auth_route r ≡ true
    → c.id ≡ "opencode-zen"
unfolding generic_routes is_auth_route matches_rest
auth_route_id c pm r g a =
    let k = generic_route-ok c pm r (new_route_id c.id pm.upstream_id) refl g in
    prefix_own "opencode-zen" c.id pm.upstream_id refl (matches_provider-matches_rest c.id k.0) (
      subst (λ x. starts_with "opencode-zen::" x ≡ true)
        (k.1 ∙ ap (append c.id) (append_colons pm.upstream_id)) a)

returned_inj : {A : Type 0} (a b : A) → returned a ≡ returned b → a ≡ b
returned_inj a b e = cc

module _ {M F P : Type 0} (trim_space : String → String)
    (marshal : ChatRequest M F → Outcome P) where
  -- A request to the configured address, which leaves with the endpoint's own credential or none.
  pub record IsOwn (p : CompatProvider) (h : HttpRequest P) : Type 0 where
    pub url : h.url ≡ under (trim_right is_slash p.base_url) "/chat/completions"
    pub transported :
        (out : HttpRequest P)
        → round_trip trim_space p.resolve h ≡ returned out
        → (out.url ≡ h.url)
          × ((out.bearer ≡ none)
              ⊎ ((key : String) × (p.resolve ≡ returned key) × (out.bearer ≡ some key)))

  pub AllOwn : CompatProvider → Option (HttpRequest P) → Type 0
  AllOwn p none = Unit
  AllOwn p (some h) = IsOwn p h

  transport-IsOwn :
      (resolve o : Outcome String) (h out : HttpRequest P)
      → resolve ≡ o
      → h.bearer ≡ none
      → round_trip trim_space o h ≡ returned out
      → (out.url ≡ h.url)
        × ((out.bearer ≡ none)
            ⊎ ((key : String) × (resolve ≡ returned key) × (out.bearer ≡ some key)))
  unfolding round_trip
  transport-IsOwn resolve (failed e) h out r b t = cc
  transport-IsOwn resolve (returned key) h out r b t =
      elim (Bool-cases (str_eq (trim_space key) "")) [
        | inl blank ↦
            let q = returned_inj _ _ (rw (blank) at t) in
            (ap (λ x. x.url) (sym q), inl (ap (λ x. x.bearer) (sym q) ∙ b))
        | inr given ↦
            let q = returned_inj _ _ (rw (given) at t) in
            (ap (λ x. x.url) (sym q), inr (key, r, ap (λ x. x.bearer) (sym q)))
      ]

  no_bearer :
      (p : CompatProvider) (key : String) (r : ProviderRoute) (req : NormalizedRequest M F)
      (bearer : Option String)
      → is_auth_route r ≡ false
      → IsCredited trim_space marshal (backend p key) r req bearer
      → bearer ≡ none
  no_bearer p key r req bearer n (inl a) = absurd (false≢true (sym n ∙ a.0))
  no_bearer p key r req bearer n (inr a) = a.1

  isolated-IsOwn :
      (p : CompatProvider) (key : String) (r : ProviderRoute) (req : NormalizedRequest M F)
      (h : HttpRequest P)
      → is_auth_route r ≡ false
      → IsIsolated trim_space marshal (backend p key) r req h
      → IsOwn p h
  isolated-IsOwn p key r req h n v = record {
    url = v.public_url n;
    transported = λ out t.
        transport-IsOwn p.resolve p.resolve h out refl (no_bearer p key r req h.bearer n v.credited)
          t;
  }

  sent-AllOwn :
      (p : CompatProvider) (key : String) (r : ProviderRoute) (req : NormalizedRequest M F)
      (o : Option (HttpRequest P))
      → is_auth_route r ≡ false
      → AllSent trim_space marshal (backend p key) r req o
      → AllOwn p o
  unfolding AllSent AllOwn
  sent-AllOwn p key r req none n v = tt
  sent-AllOwn p key r req (some h) n v = isolated-IsOwn p key r req h n v

  not_auth :
      (c : ProviderConfig) (pm : ProviderModel) (r : ProviderRoute)
      → generic_routes c pm ≡ ok (r ∷ [])
      → c.id ≢ "opencode-zen"
      → is_auth_route r ≡ false
  not_auth c pm r g n = elim (Bool-cases (is_auth_route r)) [
    | inl a ↦ absurd (n (auth_route_id c pm r g a))
    | inr a ↦ a
  ]

  -- A route that was built for a configured endpoint whose id is not "opencode-zen": if the adapter of that endpoint, or of
  -- another one, sends a request for it, the request goes to the address of the adapter's endpoint, and the transport adds
  -- no credential but the one that is configured for it, and never one of OpenCode.
  pub compat_chat-AllOwn :
      (c : ProviderConfig) (pm : ProviderModel) (r : ProviderRoute) (p : CompatProvider)
      (key : String) (req : NormalizedRequest M F) (x : Exchange)
      → generic_routes c pm ≡ ok (r ∷ [])
      → c.id ≢ "opencode-zen"
      → AllOwn p (compat_chat trim_space marshal p key r req x).sent
  unfolding compat_chat AllOwn
  compat_chat-AllOwn c pm r p key req x g n = elim (Bool-cases (not (str_eq r.provider p.id))) [
    | inl e ↦ rw (e) tt
    | inr e ↦ rw (e) (
        sent-AllOwn p key r req _ (not_auth c pm r g n)
          (opencode_chat-AllSent trim_space marshal (backend p key) r req x))
  ]
