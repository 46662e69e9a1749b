-- ===== src/Security/Guarded.antt =====
-- What the guard of the inference server lets through.
use free_model_router.Security.{
  Net, unauthorized, served, Handler, bind_host, is_loopback_bind, is_bearer, valid_bearer,
  require_bearer, guard_bind, require_inference_auth,
}
use free_model_router.Prelude.{
  String, ◌≡◌, refl, sym, ap, ◌∙◌, ◌≢◌, ◌⊎◌, inl, inr, Bool, true, false, some, List, [], ◌∷◌,
  arith, Bool-cases, Result, ok, err,
}
use free_model_router.Prelude.Text.{str_eq→eq, str_eq_refl, str_eq}
use mathlib.Core.Bool.{false≢true}
use mathlib.Core.Path.{subst}

module _ (net : Net) {R : Type 0} (next : String → R) where
  abbrev Serving : Handler R
  Serving header = served (next header)

  -- A header of two fields, the scheme `Bearer` in any case and the token.
  pub record CarriesToken (header token : String) : Type 0 where
    pub scheme : String
    pub fields : net.fields header ≡ scheme ∷ token ∷ []
    pub bearer : net.equal_fold scheme "Bearer" ≡ true

  -- A handler that serves every request where only the machine itself can connect, and elsewhere
  -- serves exactly the requests that carry a token that is not empty.
  abbrev pub IsGuarded : String → String → Result (Handler R) → Type 0
  IsGuarded bind token (err e) =
      ((m : String) × (bind_host net bind ≡ err m))
      ⊎ ((is_loopback_bind net bind ≡ false) × (net.trim_space token ≡ ""))
  IsGuarded bind token (ok h) =
      ((is_loopback_bind net bind ≡ true) × ((header : String) → h header ≡ served (next header)))
      ⊎ ((is_loopback_bind net bind ≡ false)
          × (net.trim_space token ≢ "")
          × ((header : String)
              → (h header ≡ unauthorized)
                ⊎ ((h header ≡ served (next header)) × CarriesToken header (net.trim_space token)))
          × ((header : String)
              → CarriesToken header (net.trim_space token)
              → h header ≡ served (next header)))

  is_bearer-CarriesToken :
      (header token : String) (fs : List String)
      → net.fields header ≡ fs
      → is_bearer net fs token ≡ true
      → CarriesToken header token
  is_bearer-CarriesToken header token [] e h = cc
  is_bearer-CarriesToken header token (a ∷ []) e h = cc
  is_bearer-CarriesToken header token (a ∷ b ∷ []) e h = record {
    scheme = a;
    fields = e ∙ ap (λ x. a ∷ x ∷ []) (str_eq→eq b token (ground (arith, h)));
    bearer = ground (arith, h);
  }
  is_bearer-CarriesToken header token (a ∷ b ∷ c ∷ fs) e h = cc

  CarriesToken-valid_bearer :
      (header token : String) → CarriesToken header token → valid_bearer net header token ≡ true
  unfolding valid_bearer
  CarriesToken-valid_bearer header token c = rw (c.fields, c.bearer) (str_eq_refl token)

  ne_of_str_eq : (s t : String) → str_eq s t ≡ false → s ≢ t
  ne_of_str_eq s t h e = false≢true (sym h ∙ subst (λ x. str_eq s x ≡ true) e (str_eq_refl s))

  require_bearer-cases :
      (token header : String) (b : Bool)
      → valid_bearer net header (net.trim_space token) ≡ b
      → (require_bearer net (some Serving) token header ≡ unauthorized)
        ⊎ ((require_bearer net (some Serving) token header ≡ served (next header))
            × CarriesToken header (net.trim_space token))
  unfolding require_bearer valid_bearer
  require_bearer-cases token header false e = inl (rw (e, require_bearer, valid_bearer) refl)
  require_bearer-cases token header true e = inr (
    rw (e, require_bearer, valid_bearer) refl,
    is_bearer-CarriesToken header (net.trim_space token) (net.fields header) refl e,
  )

  require_bearer-served :
      (token header : String)
      → CarriesToken header (net.trim_space token)
      → require_bearer net (some Serving) token header ≡ served (next header)
  unfolding require_bearer
  require_bearer-served token header c =
      rw (CarriesToken-valid_bearer header (net.trim_space token) c) refl

  guard_bind-IsGuarded :
      (bind token : String) (o : Result String)
      → bind_host net bind ≡ o
      → IsGuarded bind token (guard_bind net Serving bind token o)
  guard_bind-IsGuarded bind token (err e) k = inl (e, k)
  guard_bind-IsGuarded bind token (ok host) k = elim (Bool-cases (is_loopback_bind net bind)) [
    | inl local ↦ rw local (inl (local, λ header. refl))
    | inr remote ↦ elim (Bool-cases (str_eq (net.trim_space token) "")) [
      | inl blank ↦ rw (remote, blank) (inr (remote, str_eq→eq (net.trim_space token) "" blank))
      | inr given ↦
          rw (remote, given)
            (inr (
              remote,
              ne_of_str_eq (net.trim_space token) "" given,
              λ header.
                  require_bearer-cases token header (valid_bearer net header (net.trim_space token))
                    refl,
              λ header c. require_bearer-served token header c,
            ))
    ]
  ]

  -- For every address and token: an error means that the address is malformed, or that it is not a
  -- loopback address and the token is blank. Otherwise a loopback server serves every request, and
  -- any other has a token and serves exactly the requests whose header is `Bearer` and this token;
  -- all others it answers as unauthorized.
  pub require_inference_auth-IsGuarded :
      (bind token : String)
      → IsGuarded bind token (require_inference_auth net (some Serving) bind token)
  unfolding require_inference_auth
  require_inference_auth-IsGuarded bind token =
      guard_bind-IsGuarded bind token (bind_host net bind) refl
