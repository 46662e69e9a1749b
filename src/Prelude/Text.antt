-- ===== src/Prelude/Text.antt =====
-- Go strings: equality as a decision, and the order of `<`, which is by the bytes of the text
-- (for UTF-8 the order of the characters' numbers).
use Prim.Native.Nat.{compare as compare_ℕ}
use Prim.Native.Nat.{Ordering}
use Prim.Native.Char.{code}
use Prim.Native.String.{String}
use text.Mathlib.Text.{◌==◌}
use text.Mathlib.TextEquality.{eq_iff, Char-path}
use mathlib.Core.Path.{◌≡◌, refl, sym, ap₂, ◌∙◌}
use mathlib.Core.Bool.{Bool, true, false, false≢true}
use native.Mathlib.Omega.{arith}

decide_eq : (s t : String) (b : Bool) → (s == t) ≡ b → Dec (s ≡ t)
decide_eq s t true e = yes ((eq_iff s t).0 e)
decide_eq s t false e = no (λ p. false≢true (sym e ∙ (eq_iff s t).1 p))

-- Decided equality of texts, which the tactics split on and which computes at literals.
unfoldable pub str_discrete : Discrete String
unfolding decide_eq
str_discrete s t = decide_eq s t (s == t) refl

abbrev pub str_eq : String → String → Bool
str_eq s t = elim (str_discrete s t) [ yes _ ↦ true | no _ ↦ false ]

pub str_eq→eq : (s t : String) → str_eq s t ≡ true → s ≡ t
str_eq→eq s t h = ground arith

pub str_eq_refl : (s : String) → str_eq s s ≡ true
str_eq_refl s = ground arith

-- `s < t`
unfoldable pub str_lt : String → String → Bool
str_lt String.[] String.[] = false
str_lt String.[] (String.◌∷◌ d t) = true
str_lt (String.◌∷◌ c s) String.[] = false
str_lt (String.◌∷◌ c s) (String.◌∷◌ d t) =
    let rest = str_lt s t in
    elim (compare_ℕ (code c) (code d)) [
      | Ordering.lt ↦ true
      | Ordering.eq ↦ rest
      | Ordering.gt ↦ false
    ]

pub str_lt_irrefl : (s : String) → str_lt s s ≡ false
unfolding str_lt
str_lt_irrefl String.[] = refl
str_lt_irrefl (String.◌∷◌ c s) = ground (arith, str_lt_irrefl s)

pub str_lt_asymm : (s t : String) → str_lt s t ≡ true → str_lt t s ≡ false
unfolding str_lt
str_lt_asymm String.[] String.[] h = refl
str_lt_asymm String.[] (String.◌∷◌ d t) h = refl
str_lt_asymm (String.◌∷◌ c s) String.[] h = cc
str_lt_asymm (String.◌∷◌ c s) (String.◌∷◌ d t) h = ground (arith, str_lt_asymm s t)

pub str_lt_trans : (s t u : String) → str_lt s t ≡ true → str_lt t u ≡ true → str_lt s u ≡ true
unfolding str_lt
str_lt_trans s String.[] String.[] h k = cc
str_lt_trans s (String.◌∷◌ d t) String.[] h k = cc
str_lt_trans String.[] t (String.◌∷◌ e u) h k = refl
str_lt_trans (String.◌∷◌ c s) String.[] (String.◌∷◌ e u) h k = cc
str_lt_trans (String.◌∷◌ c s) (String.◌∷◌ d t) (String.◌∷◌ e u) h k =
    ground (arith, str_lt_trans s t u)

-- Two texts of which neither is below the other are equal.
pub eq_of_not-str_lt : (s t : String) → str_lt s t ≡ false → str_lt t s ≡ false → s ≡ t
unfolding str_lt
eq_of_not-str_lt String.[] String.[] h k = refl
eq_of_not-str_lt String.[] (String.◌∷◌ d t) h k = cc
eq_of_not-str_lt (String.◌∷◌ c s) String.[] h k = cc
eq_of_not-str_lt (String.◌∷◌ c s) (String.◌∷◌ d t) h k =
    ap₂ String.◌∷◌ (Char-path c d (ground arith))
      (eq_of_not-str_lt s t (ground arith) (ground arith))
