-- ===== src/Matcher/Seen.antt =====
-- The loop of `MatchUnique`: what it knows of the records that it has seen.
use free_model_router.Matcher.{TextOps, Matcher, BenchmarkBinding}
use free_model_router.Matcher.Choice.{
  Best, match_rank, binding_of, consider, consider_all, no_binding,
}
use free_model_router.Scoring.{BenchmarkModel}
use free_model_router.Model.Route.{ProviderModel}
use free_model_router.Prelude.Text.{str_eq, str_eq→eq, str_eq_refl}
use free_model_router.Prelude.{
  ℕ, ◌≤◌, ◌<◌, String, ◌≡◌, refl, sym, ap, ◌∙◌, ◌≢◌, ◌⊎◌, inl, inr, Bool, true, false, not, ◌||◌,
  List, [], ◌∷◌, ◌++◌, arith, ltb, ◌==◌, Bool-cases, In, In-append_left, In-append_right,
  In-append_cases,
}
use mathlib.Core.Path.{subst}
use mathlib.Core.Bool.{false≢true}

pub absurd_lt : (a b : ℕ) → a < b → b ≤ a → ⊥
absurd_lt a b h k = omega arith

lt_cases : (a b : ℕ) → (a < b) ⊎ (b < a) ⊎ (a ≡ b)
lt_cases a b = ground arith

pub pass_cases : (r s : ℕ) → ((r == 0) || ltb r s) ≡ true → (r ≡ 0) ⊎ (r < s)
pass_cases r s h = ground (arith, h)

pub tie_of : (r s : ℕ) → ((r == 0) || ltb r s) ≡ false → ltb s r ≡ false → (s ≡ r) × (0 < r)
tie_of r s h k = ground (arith, h, k)

higher_of : (r s : ℕ) → ltb s r ≡ true → s < r
higher_of r s h = ground (arith, h)

differ_of : (a b : String) → not (str_eq a b) ≡ true → a ≢ b
differ_of a b h e = false≢true (sym (ap not (subst (λ x. str_eq a x ≡ true) e (str_eq_refl a))) ∙ h)

pub same_of : (a b : String) → not (str_eq a b) ≡ false → a ≡ b
same_of a b h = str_eq→eq a b (ground (arith, h))

module _ {F : Type 0} (t : TextOps) (zero_f one_f : F) (less : F → F → Bool) (m : Matcher F)
    (pm : ProviderModel) where
  abbrev pub rank_in : BenchmarkModel → ℕ
  rank_in b = match_rank t zero_f one_f less pm b

  abbrev pub bound_to : BenchmarkModel → BenchmarkBinding F
  bound_to b = binding_of t zero_f one_f less m pm b

  abbrev pub State : Type 0
  State = Best t zero_f one_f less

  -- What the loop knows of the records that it has seen.
  pub record Inv (seen : List BenchmarkModel) (s : State) : Type 0 where
    pub upper : (b : BenchmarkModel) → In b seen → rank_in b ≤ s.rank
    pub found :
        (s.rank ≡ 0)
        ⊎ ((b : BenchmarkModel) × In b seen × (rank_in b ≡ s.rank) × (s.binding ≡ bound_to b))
    pub unique :
        s.ambiguous ≡ false
        → (b : BenchmarkModel) → In b seen
        → rank_in b ≡ s.rank
        → 0 < s.rank
        → b.source_model_id ≡ s.binding.source_model_id
    pub clash :
        s.ambiguous ≡ true
        → (0 < s.rank)
          × ((b : BenchmarkModel) × In b seen
              × (rank_in b ≡ s.rank)
              × (b.source_model_id ≢ s.binding.source_model_id))

  -- A record that the loop passes over.
  skip-Inv :
      (seen : List BenchmarkModel) (s : State) (b : BenchmarkModel)
      → (rank_in b ≡ 0) ⊎ (rank_in b < s.rank)
      → Inv seen s
      → Inv (b ∷ seen) s
  skip-Inv seen s b low v = record {
    upper = λ c i. elim i [
      | inl e ↦
          subst (λ x. rank_in x ≤ s.rank) (sym e)
            (elim low [ inl z ↦ omega (arith, z) | inr l ↦ omega (arith, l) ])
      | inr j ↦ v.upper c j
    ];
    found = elim v.found [ inl z ↦ inl z | inr (c, i, e, f) ↦ inr (c, inr i, e, f) ];
    unique = λ a c i e p. elim i [
      | inl k ↦ absurd (elim low [
        | inl z ↦ absurd_lt 0 s.rank p (omega (arith, e, z, ap rank_in k))
        | inr l ↦ absurd_lt (rank_in b) s.rank l (omega (arith, e, ap rank_in k))
      ])
      | inr j ↦ v.unique a c j e p
    ];
    clash = λ a. let k = v.clash a in (k.0, (k.1.0, inr k.1.1, k.1.2, k.1.3));
  }

  -- A record of a higher rank.
  replace-Inv :
      (seen : List BenchmarkModel) (s : State) (b : BenchmarkModel)
      → s.rank < rank_in b
      → Inv seen s
      → Inv (b ∷ seen) (record { binding = bound_to b; rank = rank_in b; ambiguous = false })
  unfolding binding_of
  replace-Inv seen s b higher v = record {
    upper = λ c i. elim i [
      | inl e ↦ subst (λ x. rank_in x ≤ rank_in b) (sym e) (omega arith)
      | inr j ↦ let k = v.upper c j in omega (arith, k, higher)
    ];
    found = inr (b, inl refl, refl, refl);
    unique = λ a c i e p. elim i [
      | inl k ↦ ap (λ x. x.source_model_id) k
      | inr j ↦
          let k = v.upper c j in absurd (absurd_lt s.rank (rank_in b) higher (omega (arith, k, e)))
    ];
    clash = λ a. absurd (false≢true a);
  }

  -- A record of the same rank and another id.
  differ-Inv :
      (seen : List BenchmarkModel) (s : State) (b : BenchmarkModel)
      → s.rank ≡ rank_in b
      → 0 < rank_in b
      → b.source_model_id ≢ s.binding.source_model_id
      → Inv seen s
      → Inv (b ∷ seen) (record s { ambiguous = true })
  differ-Inv seen s b same p other v = record {
    upper = λ c i. elim i [
      | inl e ↦ subst (λ x. rank_in x ≤ s.rank) (sym e) (omega (arith, same))
      | inr j ↦ v.upper c j
    ];
    found = elim v.found [ inl z ↦ inl z | inr (c, i, e, f) ↦ inr (c, inr i, e, f) ];
    unique = λ a. absurd (false≢true (sym a));
    clash = λ a. (omega (arith, same, p), (b, inl refl, sym same, other));
  }

  -- A record of the same rank and the same id.
  repeat-Inv :
      (seen : List BenchmarkModel) (s : State) (b : BenchmarkModel)
      → s.rank ≡ rank_in b
      → b.source_model_id ≡ s.binding.source_model_id
      → Inv seen s
      → Inv (b ∷ seen) s
  repeat-Inv seen s b same id v = record {
    upper = λ c i. elim i [
      | inl e ↦ subst (λ x. rank_in x ≤ s.rank) (sym e) (omega (arith, same))
      | inr j ↦ v.upper c j
    ];
    found = elim v.found [ inl z ↦ inl z | inr (c, i, e, f) ↦ inr (c, inr i, e, f) ];
    unique = λ a c i e p. elim i [
      | inl k ↦ ap (λ x. x.source_model_id) k ∙ id
      | inr j ↦ v.unique a c j e p
    ];
    clash = λ a. let k = v.clash a in (k.0, (k.1.0, inr k.1.1, k.1.2, k.1.3));
  }

  pub consider-Inv :
      (seen : List BenchmarkModel) (s : State) (b : BenchmarkModel)
      → Inv seen s
      → Inv (b ∷ seen) (consider t zero_f one_f less m pm s b)
  unfolding consider
  consider-Inv seen s b v = elim (Bool-cases ((rank_in b == 0) || ltb (rank_in b) s.rank)) [
    | inl passed ↦ rw (passed) (skip-Inv seen s b (pass_cases (rank_in b) s.rank passed) v)
    | inr counted ↦ elim (Bool-cases (ltb s.rank (rank_in b))) [
      | inl higher ↦
          rw (counted, higher) (replace-Inv seen s b (higher_of (rank_in b) s.rank higher) v)
      | inr tied ↦
          let k = tie_of (rank_in b) s.rank counted tied in
          elim (Bool-cases (not (str_eq b.source_model_id s.binding.source_model_id))) [
            | inl other ↦
                rw (counted, tied, other)
                  (differ-Inv seen s b k.0 k.1
                    (differ_of b.source_model_id s.binding.source_model_id other) v)
            | inr same ↦
                rw (counted, tied, same)
                  (repeat-Inv seen s b k.0
                    (same_of b.source_model_id s.binding.source_model_id same) v)
          ]
    ]
  ]

  Inv-same :
      (xs ys : List BenchmarkModel) (s : State)
      → ((b : BenchmarkModel) → In b xs → In b ys)
      → ((b : BenchmarkModel) → In b ys → In b xs)
      → Inv xs s
      → Inv ys s
  Inv-same xs ys s there back v = record {
    upper = λ b i. v.upper b (back b i);
    found = elim v.found [ inl z ↦ inl z | inr (c, i, e, f) ↦ inr (c, there c i, e, f) ];
    unique = λ a c i. v.unique a c (back c i);
    clash = λ a. let k = v.clash a in (k.0, (k.1.0, there k.1.0 k.1.1, k.1.2, k.1.3));
  }

  move_front :
      (b : BenchmarkModel) (bs seen : List BenchmarkModel) (c : BenchmarkModel)
      → In c (bs ++ b ∷ seen)
      → In c (b ∷ bs ++ seen)
  move_front b bs seen c i = elim (In-append_cases c bs (b ∷ seen) i) [
    | inl j ↦ inr (In-append_left c bs seen j)
    | inr (inl e) ↦ inl e
    | inr (inr j) ↦ inr (In-append_right c bs seen j)
  ]

  move_back :
      (b : BenchmarkModel) (bs seen : List BenchmarkModel) (c : BenchmarkModel)
      → In c (b ∷ bs ++ seen)
      → In c (bs ++ b ∷ seen)
  move_back b bs seen c (inl e) = In-append_right c bs (b ∷ seen) (inl e)
  move_back b bs seen c (inr i) = elim (In-append_cases c bs seen i) [
    | inl j ↦ In-append_left c bs (b ∷ seen) j
    | inr j ↦ In-append_right c bs (b ∷ seen) (inr j)
  ]

  consider_all-Inv :
      (bs seen : List BenchmarkModel) (s : State)
      → Inv seen s
      → Inv (bs ++ seen) (consider_all t zero_f one_f less m pm s bs)
  unfolding consider_all
  consider_all-Inv [] seen s v = v
  consider_all-Inv (b ∷ bs) seen s v =
      Inv-same (bs ++ b ∷ seen) (b ∷ bs ++ seen) _ (move_front b bs seen) (move_back b bs seen) (
        consider_all-Inv bs (b ∷ seen) (consider t zero_f one_f less m pm s b)
          (consider-Inv seen s b v))

  abbrev pub start : State
  start = record { binding = no_binding t zero_f one_f less; rank = 0; ambiguous = false }

  pub start-Inv : Inv [] start
  start-Inv = record {
    upper = λ b i. absurd i;
    found = inl refl;
    unique = λ a b i. absurd i;
    clash = λ a. absurd (false≢true a);
  }

  append_nil_In : (bs : List BenchmarkModel) (b : BenchmarkModel) → In b (bs ++ []) → In b bs
  append_nil_In bs b i = elim (In-append_cases b bs [] i) [ inl j ↦ j | inr j ↦ absurd j ]

  pub loop-Inv :
      (bs : List BenchmarkModel) → Inv bs (consider_all t zero_f one_f less m pm start bs)
  loop-Inv bs =
      Inv-same (bs ++ []) bs _ (append_nil_In bs) (λ b. In-append_left b bs [])
        (consider_all-Inv bs [] start start-Inv)
