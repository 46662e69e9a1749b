-- ===== src/Model/Capability.antt =====
-- internal/model/types.go: feature capabilities with three states, numeric limits, and what a
-- request requires of them.
pub mod Meet
pub mod Requirements
use free_model_router.Prelude.{
  ℕ, ◌+◌, ◌/◌, ◌%◌, Bool, true, false, not, ◌&&◌, ◌||◌, String, ◌==◌, if◌then◌else◌,
}
use free_model_router.Prelude.Int.{ℤ, ltb_ℤ, is_positive}

pub data Capability : Type 0 where
  streaming tools vision structured_output reasoning : Capability
  other : String → Capability

pub data CapabilityState : Type 0 where
  unknown unsupported supported : CapabilityState

-- `CapabilitySet` is a `uint16`; the constants are its five lowest bits.
abbrev pub CapabilitySet : Type 0
CapabilitySet = ℕ

abbrev pub capability_bit : Capability → CapabilitySet
capability_bit streaming = 1
capability_bit tools = 2
capability_bit vision = 4
capability_bit structured_output = 8
capability_bit reasoning = 16
capability_bit (other s) = 0

-- `s & b != 0` for a single bit or 0: division by 0 gives 0.
abbrev pub has_bit : CapabilitySet → CapabilitySet → Bool
has_bit s b = s / b % 2 == 1

-- `s | b` for a single bit or 0.
abbrev pub or_bit : CapabilitySet → CapabilitySet → CapabilitySet
or_bit s b = if has_bit s b then s else s + b

pub record Capabilities : Type 0 where
  pub streaming : Bool
  pub tools : Bool
  pub vision : Bool
  pub structured_output : Bool
  pub reasoning : Bool
  pub unknown : CapabilitySet
  pub context_length : ℤ
  pub max_output : ℤ

-- the boolean field that the `switch` of `State` reads
abbrev pub feature : Capabilities → Capability → Bool
feature c streaming = c.streaming
feature c tools = c.tools
feature c vision = c.vision
feature c structured_output = c.structured_output
feature c reasoning = c.reasoning
feature c (other s) = false

abbrev pub is_other : Capability → Bool
is_other (other s) = true
is_other _ = false

unfoldable pub is_unknown : Capabilities → Capability → Bool
is_unknown c cap = has_bit c.unknown (capability_bit cap)

-- `(*Capabilities).MarkUnknown`
unfoldable pub mark_unknown : Capabilities → Capability → Capabilities
mark_unknown c cap = record c { unknown = or_bit c.unknown (capability_bit cap) }

-- `Capabilities.State`; the `default` of its `switch` returns Unknown.
unfoldable pub state : Capabilities → Capability → CapabilityState
unfolding is_unknown
state c cap =
    if is_unknown c cap
    then unknown
    else if feature c cap
    then supported
    else if is_other cap
    then unknown
    else unsupported

-- `intersectFeature`
unfoldable pub intersect_feature : Bool → Bool → Bool → Bool → Bool × Bool
intersect_feature a a_unknown b b_unknown =
    if (not a_unknown && not a) || (not b_unknown && not b)
    then (false, false)
    else if a_unknown || b_unknown
    then (a && b, true)
    else (a && b, false)

unfoldable pub min_positive : ℤ → ℤ → ℤ
min_positive a b =
    if not (is_positive a) then b else if not (is_positive b) then a else if ltb_ℤ a b then a else b

-- `if unknown { set |= bit }`
abbrev pub or_if : Bool → CapabilitySet → CapabilitySet → CapabilitySet
or_if u s b = if u then or_bit s b else s

unfoldable pub intersect_one : Capabilities → Capabilities → Capability → Bool × Bool
unfolding is_unknown intersect_feature
intersect_one c o cap =
    intersect_feature (feature c cap) (is_unknown c cap) (feature o cap) (is_unknown o cap)

-- the five `if … { unknown |= … }` lines
unfoldable pub unknown_bits : Bool → Bool → Bool → Bool → Bool → CapabilitySet
unknown_bits s t v o r = or_if r (or_if o (or_if v (or_if t (or_if s 0 1) 2) 4) 8) 16

-- `Capabilities.Intersect`
unfoldable pub intersect : Capabilities → Capabilities → Capabilities
unfolding intersect_one unknown_bits min_positive
intersect c o =
    let (s, s_unknown) = intersect_one c o streaming in
    let (t, t_unknown) = intersect_one c o tools in
    let (v, v_unknown) = intersect_one c o vision in
    let (x, x_unknown) = intersect_one c o structured_output in
    let (r, r_unknown) = intersect_one c o reasoning in
    record {
      streaming = s;
      tools = t;
      vision = v;
      structured_output = x;
      reasoning = r;
      unknown = unknown_bits s_unknown t_unknown v_unknown x_unknown r_unknown;
      context_length = min_positive c.context_length o.context_length;
      max_output = min_positive c.max_output o.max_output;
    }

pub record RequestRequirements : Type 0 where
  pub streaming : Bool
  pub tools : Bool
  pub vision : Bool
  pub structured_output : Bool
  pub reasoning : Bool
  pub min_context_length : ℤ
  pub max_output_tokens : ℤ

abbrev pub is_supported : CapabilityState → Bool
is_supported supported = true
is_supported _ = false

-- `req.F && c.State(F) != CapabilitySupported`
abbrev pub lacks : Capabilities → Bool → Capability → Bool
lacks c wanted cap = wanted && not (is_supported (state c cap))

-- `wanted > 0 && limit > 0 && limit < wanted`
abbrev pub too_small : ℤ → ℤ → Bool
too_small wanted limit = is_positive wanted && is_positive limit && ltb_ℤ limit wanted

-- `Capabilities.Supports`
unfoldable pub supports : Capabilities → RequestRequirements → Bool
supports c req =
    if lacks c req.streaming streaming
    then false
    else if lacks c req.tools tools
    then false
    else if lacks c req.vision vision
    then false
    else if lacks c req.structured_output structured_output
    then false
    else if lacks c req.reasoning reasoning
    then false
    else if too_small req.min_context_length c.context_length
    then false
    else if too_small req.max_output_tokens c.max_output
    then false
    else true
