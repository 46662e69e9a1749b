-- ===== src/Providers/Keyed/Released.antt =====
-- The clients with one key close every answer that they do not hand on as a stream.
use free_model_router.Model.Failure.{Failure}
use free_model_router.Prelude.{String, ◌≡◌, Option, none, some}
use free_model_router.Providers.Wire.{Outcome, returned, failed}
use free_model_router.Providers.Http.{
  HttpRequest, Body, not_received, unclosed, closed, ChatStream, sse_stream, one_shot, ChatCall,
}
use free_model_router.Providers.Opencode.{under}
use free_model_router.Providers.Keyed.{bearer_key}

-- An open body belongs to a stream that the caller has got.
pub IsHeld : Body → Outcome ChatStream → Type 0
IsHeld unclosed (returned (sse_stream ls)) = Unit
IsHeld unclosed (returned (one_shot ev)) = ⊥
IsHeld unclosed (failed e) = ⊥
IsHeld closed result = Unit
IsHeld not_received result = Unit

pub IsKeyed : {P : Type 0} → String → String → Option (HttpRequest P) → Type 0
IsKeyed base_url key none = Unit
IsKeyed base_url key (some h) =
    (h.url ≡ under base_url "/chat/completions") × (h.bearer ≡ bearer_key key)

pub record IsReleased {P : Type 0} (base_url key : String) (c : ChatCall P) : Type 0 where
  pub held : IsHeld c.body c.result
  pub keyed : IsKeyed base_url key c.sent
