-- ===== src/Model/Access.antt =====
-- internal/model/types.go: the access class of a route.
use free_model_router.Prelude.{Bool, true, false, String}

-- `AccessClass` is a string in Go: `omitted` is "", `other` any value that is none of the constants.
pub data AccessClass : Type 0 where
  unknown free free_tier paid : AccessClass
  omitted : AccessClass
  other : String → AccessClass

-- `AccessClass.AutoRoutable`
abbrev pub auto_routable : AccessClass → Bool
auto_routable free = true
auto_routable free_tier = true
auto_routable _ = false

-- `AccessClass.Probeable`
abbrev pub probeable : AccessClass → Bool
probeable a = auto_routable a

abbrev pub is_paid : AccessClass → Bool
is_paid paid = true
is_paid _ = false

abbrev pub is_unknown : AccessClass → Bool
is_unknown unknown = true
is_unknown _ = false

abbrev pub is_valid : AccessClass → Bool
is_valid omitted = false
is_valid (other s) = false
is_valid _ = true
