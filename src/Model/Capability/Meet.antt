-- ===== src/Model/Capability/Meet.antt =====
-- `Intersect` against the meet of the three states.
use free_model_router.Prelude.{◌≡◌, Bool, true, false, arith, refl, String}
use free_model_router.Model.Capability.{
  Capability, CapabilityState, unknown, unsupported, supported, Capabilities, feature, is_unknown,
  state, intersect_feature, unknown_bits, has_bit, is_other, intersect, intersect_one, other,
  streaming, tools, vision, structured_output, reasoning, CapabilitySet,
}

-- A definite "unsupported" wins over unknown, and unknown over "supported".
abbrev pub meet : CapabilityState → CapabilityState → CapabilityState
meet unsupported t = unsupported
meet unknown unsupported = unsupported
meet unknown t = unknown
meet supported t = t

-- The state that a value and its unknown flag stand for.
abbrev pub state_of : Bool → Bool → CapabilityState
state_of value true = unknown
state_of true false = supported
state_of false false = unsupported

state_of-intersect_feature :
    (a a_unknown b b_unknown : Bool)
    → state_of
        (intersect_feature a a_unknown b b_unknown).0
        (intersect_feature a a_unknown b b_unknown).1
      ≡ meet (state_of a a_unknown) (state_of b b_unknown)
unfolding intersect_feature
state_of-intersect_feature a a_unknown b b_unknown = ground arith

has_bit-unknown_bits :
    (s t v o r : Bool)
    → (has_bit (unknown_bits s t v o r) 1 ≡ s)
      × (has_bit (unknown_bits s t v o r) 2 ≡ t)
      × (has_bit (unknown_bits s t v o r) 4 ≡ v)
      × (has_bit (unknown_bits s t v o r) 8 ≡ o)
      × (has_bit (unknown_bits s t v o r) 16 ≡ r)
unfolding unknown_bits
has_bit-unknown_bits s t v o r = ground arith

state-eq-state_of :
    (c : Capabilities) (cap : Capability)
    → is_other cap ≡ false
    → state c cap ≡ state_of (feature c cap) (is_unknown c cap)
unfolding state
state-eq-state_of c cap h = ground arith

-- the five bits that `intersect` sets
abbrev bits : Capabilities → Capabilities → CapabilitySet
bits c o =
    unknown_bits (intersect_one c o streaming).1 (intersect_one c o tools).1
      (intersect_one c o vision).1 (intersect_one c o structured_output).1
      (intersect_one c o reasoning).1

has_bit-bits :
    (c o : Capabilities)
    → (has_bit (bits c o) 1 ≡ (intersect_one c o streaming).1)
      × (has_bit (bits c o) 2 ≡ (intersect_one c o tools).1)
      × (has_bit (bits c o) 4 ≡ (intersect_one c o vision).1)
      × (has_bit (bits c o) 8 ≡ (intersect_one c o structured_output).1)
      × (has_bit (bits c o) 16 ≡ (intersect_one c o reasoning).1)
has_bit-bits c o =
    has_bit-unknown_bits (intersect_one c o streaming).1 (intersect_one c o tools).1
      (intersect_one c o vision).1 (intersect_one c o structured_output).1
      (intersect_one c o reasoning).1

-- The value and the unknown flag of each feature of an intersection are those of `intersect_one`.
feature-intersect :
    (c o : Capabilities) (cap : Capability)
    → is_other cap ≡ false
    → (feature (intersect c o) cap ≡ (intersect_one c o cap).0)
      × (is_unknown (intersect c o) cap ≡ (intersect_one c o cap).1)
unfolding intersect is_unknown
feature-intersect c o streaming h = (refl, (has_bit-bits c o).0)
feature-intersect c o tools h = (refl, (has_bit-bits c o).1)
feature-intersect c o vision h = (refl, (has_bit-bits c o).2)
feature-intersect c o structured_output h = (refl, (has_bit-bits c o).3)
feature-intersect c o reasoning h = (refl, (has_bit-bits c o).4)
feature-intersect c o (other s) h = cc

known-state-intersect :
    (c o : Capabilities) (cap : Capability)
    → is_other cap ≡ false
    → state (intersect c o) cap ≡ meet (state c cap) (state o cap)
unfolding intersect_one
known-state-intersect c o cap h =
    rw
      (
        state-eq-state_of (intersect c o) cap h,
        (feature-intersect c o cap h).0,
        (feature-intersect c o cap h).1,
        state-eq-state_of c cap h,
        state-eq-state_of o cap h,
      )
      (state_of-intersect_feature _ _ _ _)

state-other : (c : Capabilities) (s : String) → state c (other s) ≡ unknown
unfolding state
state-other c s = ground arith

-- The state of every capability in an intersection is the meet of its states on the two sides: a
-- side that is known not to support it wins, then a side where it is unknown; it is supported
-- exactly where both sides support it.
pub state-intersect :
    (c o : Capabilities) (cap : Capability)
    → state (intersect c o) cap ≡ meet (state c cap) (state o cap)
state-intersect c o (other s) = simp state-other
state-intersect c o streaming = known-state-intersect c o streaming refl
state-intersect c o tools = known-state-intersect c o tools refl
state-intersect c o vision = known-state-intersect c o vision refl
state-intersect c o structured_output = known-state-intersect c o structured_output refl
state-intersect c o reasoning = known-state-intersect c o reasoning refl
