-- ===== src/Matcher/Family.antt =====
-- The loop of `familyKey` comes to its end.
use Prim.Native.String.{len}
use free_model_router.Matcher.{TextOps, normalize, strip_suffixes, family_key}
use free_model_router.Prelude.Text.{str_eq, str_eq→eq, str_eq_refl}
use free_model_router.Prelude.{
  ℕ, zero, suc, ◌≤◌, ◌<◌, String, ◌≡◌, sym, ◌∙◌, ◌⊎◌, inl, inr, true, false, arith, Bool-cases,
}
use mathlib.Core.Path.{subst}
use mathlib.Core.Bool.{false≢true}

module _ (t : TextOps) where
  abbrev pub trim_once : String → String
  trim_once s = t.drop_deployment (t.drop_date s)

  -- A replacement that changes a text shortens it.
  abbrev pub Shortens : Type 0
  Shortens = (s : String) → (trim_once s ≡ s) ⊎ (len (trim_once s) < len s)

  changed : {a b : String} → a ≡ b → str_eq a b ≡ false → ⊥
  changed {a} {b} e h = false≢true (sym h ∙ subst (λ x. str_eq a x ≡ true) e (str_eq_refl a))

  strip_suffixes-trim_once :
      Shortens
      → (n : ℕ) (s : String) → len s ≤ n
      → trim_once (strip_suffixes t n s) ≡ strip_suffixes t n s
  unfolding strip_suffixes
  strip_suffixes-trim_once shortens zero s h = elim (shortens s) [
    | inl e ↦ e
    | inr l ↦ absurd (omega (arith, l, h))
  ]
  strip_suffixes-trim_once shortens (suc n) s h = elim (Bool-cases (str_eq (trim_once s) s)) [
    | inl e ↦ rw (e) (str_eq→eq _ _ e)
    | inr e ↦ rw (e) (
        strip_suffixes-trim_once shortens n (trim_once s)
          (elim (shortens s) [ inl same ↦ absurd (changed same e) | inr l ↦ omega (arith, l, h) ]))
  ]

  -- If a replacement that changes a text shortens it, `familyKey` ends at a text that the replacements leave as it is.
  trim_once-family_key : Shortens → (s : String) → trim_once (family_key t s) ≡ family_key t s
  unfolding family_key
  trim_once-family_key shortens s =
      strip_suffixes-trim_once shortens (len (normalize t s)) (normalize t s) (omega arith)
