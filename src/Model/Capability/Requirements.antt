-- ===== src/Model/Capability/Requirements.antt =====
-- `Supports` on an intersection: a route override narrows what the model offers, and nothing else.
use free_model_router.Prelude.{
  ◌≡◌, refl, Bool, true, false, not, ◌&&◌, ◌||◌, arith, if◌then◌else◌, List, ◌∷◌, length, [], ◌∙◌,
  ap, sym,
}
use free_model_router.Prelude.Int.{ℤ, pos, negsuc}
use free_model_router.Model.Capability.{
  Capability, streaming, tools, vision, structured_output, reasoning, CapabilityState, Capabilities,
  RequestRequirements, intersect, min_positive, is_supported, lacks, too_small, supports,
}
use free_model_router.Model.Capability.Meet.{meet, state-intersect}
use mathlib.Core.Path.{ap₂}

lacks-meet :
    (wanted : Bool) (s t : CapabilityState)
    → (wanted && not (is_supported (meet s t)))
      ≡ ((wanted && not (is_supported s)) || (wanted && not (is_supported t)))
lacks-meet wanted s t = ground arith

lacks-intersect :
    (c o : Capabilities) (wanted : Bool) (cap : Capability)
    → lacks (intersect c o) wanted cap ≡ (lacks c wanted cap || lacks o wanted cap)
lacks-intersect c o wanted cap = rw (state-intersect c o cap) (lacks-meet wanted _ _)

too_small-min_positive :
    (wanted a b : ℤ)
    → too_small wanted (min_positive a b) ≡ (too_small wanted a || too_small wanted b)
unfolding min_positive
too_small-min_positive (pos w) (pos a) (pos b) = ground arith
too_small-min_positive (pos w) (pos a) (negsuc b) = ground arith
too_small-min_positive (pos w) (negsuc a) b = ground arith
too_small-min_positive (negsuc w) a b = ground arith

-- the ladder of `Supports` over its tests, in order
abbrev ladder : List Bool → Bool
ladder [] = true
ladder (b ∷ bs) = if b then false else ladder bs

abbrev tests : Capabilities → RequestRequirements → List Bool
tests c r =
    lacks c r.streaming streaming
    ∷ lacks c r.tools tools
    ∷ lacks c r.vision vision
    ∷ lacks c r.structured_output structured_output
    ∷ lacks c r.reasoning reasoning
    ∷ too_small r.min_context_length c.context_length
    ∷ too_small r.max_output_tokens c.max_output
    ∷ []

abbrev either : List Bool → List Bool → List Bool
either (x ∷ xs) (y ∷ ys) = (x || y) ∷ either xs ys
either _ _ = []

supports-ladder : (c : Capabilities) (r : RequestRequirements) → supports c r ≡ ladder (tests c r)
unfolding supports
supports-ladder c r = refl

tests-intersect :
    (c o : Capabilities) (r : RequestRequirements)
    → tests (intersect c o) r ≡ either (tests c r) (tests o r)
unfolding intersect
tests-intersect c o r = simp (lacks-intersect, too_small-min_positive)

ladder-step :
    (x y r s : Bool)
    → (if x || y then false else (r && s)) ≡ ((if x then false else r) && (if y then false else s))
ladder-step x y r s = ground arith

ladder-either :
    (xs : List Bool) (ys : List Bool)
    → length xs ≡ length ys
    → ladder (either xs ys) ≡ (ladder xs && ladder ys)
ladder-either [] [] h = refl
ladder-either [] (y ∷ ys) h = absurd (omega arith)
ladder-either (x ∷ xs) [] h = absurd (omega arith)
ladder-either (x ∷ xs) (y ∷ ys) h =
    rw (ladder-either xs ys (omega arith)) (ladder-step x y (ladder xs) (ladder ys))

-- A route whose override is intersected with its model's capabilities satisfies a request exactly
-- when the model and the override each do: features, context length and output limit alike.
pub supports-intersect :
    (c o : Capabilities) (r : RequestRequirements)
    → supports (intersect c o) r ≡ (supports c r && supports o r)
supports-intersect c o r =
    supports-ladder (intersect c o) r
    ∙ ap ladder (tests-intersect c o r)
    ∙ ladder-either (tests c r) (tests o r) refl
    ∙ sym (ap₂ ◌&&◌ (supports-ladder c r) (supports-ladder o r))
