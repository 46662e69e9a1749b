-- ===== src/Matcher/Agree.antt =====
-- `Match` and `MatchUnique` on the same records.
use free_model_router.Matcher.Pick.{is_match_none, better_tie, Top, weigh, weigh_all, match_best}
use free_model_router.Matcher.{
  TextOps, Matcher, MatchMethod, match_none, match_exact, match_family, match_variant,
  BenchmarkBinding, rank_of, match_method,
}
use free_model_router.Matcher.Choice.{
  Best, match_rank, binding_of, consider, consider_all, match_unique, confidence_of,
}
use free_model_router.Matcher.Seen.{absurd_lt, tie_of, same_of, start, Inv, consider-Inv, start-Inv}
use free_model_router.Scoring.{BenchmarkModel}
use free_model_router.Model.Route.{ProviderModel}
use free_model_router.Prelude.Text.{str_eq, str_lt_irrefl}
use free_model_router.Prelude.{
  ℕ, ◌<◌, ◌≡◌, refl, sym, ap, ◌∙◌, inl, inr, Bool, true, false, not, ◌&&◌, ◌||◌, List, [], ◌∷◌,
  arith, ltb, ◌==◌, if◌then◌else◌, Bool-cases,
}
use mathlib.Core.Path.{subst}
use mathlib.Core.Bool.{false≢true}

rank_of_inj : (x y : MatchMethod) → rank_of x ≡ rank_of y → x ≡ y
rank_of_inj match_none match_none e = refl
rank_of_inj match_none match_exact e = absurd (omega (arith, e))
rank_of_inj match_none match_family e = absurd (omega (arith, e))
rank_of_inj match_none match_variant e = absurd (omega (arith, e))
rank_of_inj match_exact match_none e = absurd (omega (arith, e))
rank_of_inj match_exact match_exact e = refl
rank_of_inj match_exact match_family e = absurd (omega (arith, e))
rank_of_inj match_exact match_variant e = absurd (omega (arith, e))
rank_of_inj match_family match_none e = absurd (omega (arith, e))
rank_of_inj match_family match_exact e = absurd (omega (arith, e))
rank_of_inj match_family match_family e = refl
rank_of_inj match_family match_variant e = absurd (omega (arith, e))
rank_of_inj match_variant match_none e = absurd (omega (arith, e))
rank_of_inj match_variant match_exact e = absurd (omega (arith, e))
rank_of_inj match_variant match_family e = absurd (omega (arith, e))
rank_of_inj match_variant match_variant e = refl

matching_rank : (x : MatchMethod) → 0 < rank_of x → is_match_none x ≡ false
matching_rank match_none h = absurd (omega (arith, h))
matching_rank match_exact h = refl
matching_rank match_family h = refl
matching_rank match_variant h = refl

module _ {F : Type 0} (t : TextOps) (zero_f one_f : F) (less differs : F → F → Bool)
    (less_irrefl : (x : F) → less x x ≡ false) (m : Matcher F) (pm : ProviderModel) where
  abbrev rank_in : BenchmarkModel → ℕ
  rank_in b = match_rank t zero_f one_f less pm b

  abbrev bound_to : BenchmarkModel → BenchmarkBinding F
  bound_to b = binding_of t zero_f one_f less m pm b

  abbrev State : Type 0
  State = Best t zero_f one_f less

  abbrev Picked : Type 0
  Picked = Top t zero_f one_f less differs

  abbrev better : BenchmarkBinding F → BenchmarkBinding F → Bool
  better = better_tie t zero_f one_f less differs

  equal_not_better :
      (x y : BenchmarkBinding F)
      → x.confidence ≡ y.confidence
      → x.source_model_id ≡ y.source_model_id
      → is_match_none y.match_method ≡ false
      → better x y ≡ false
  unfolding better_tie
  equal_not_better x y c id n =
      rw (n, c, id)
        (elim (Bool-cases (differs y.confidence y.confidence)) [
          | inl d ↦ rw (d) (less_irrefl y.confidence)
          | inr d ↦ rw (d) (str_lt_irrefl y.source_model_id)
        ])

  rank_method : (b : BenchmarkModel) → 0 < rank_in b → rank_in b ≡ rank_of (match_method t pm b)
  unfolding match_rank
  rank_method b h = elim (Bool-cases (str_eq (t.trim_space b.source_model_id) "")) [
    | inl e ↦
        absurd
          (omega (arith, subst (λ x. 0 < (if x then 0 else rank_of (match_method t pm b))) e h))
    | inr e ↦ rw (e) refl
  ]

  same_method :
      (b c : BenchmarkModel)
      → 0 < rank_in b
      → rank_in b ≡ rank_in c
      → match_method t pm b ≡ match_method t pm c
  same_method b c p e =
      rank_of_inj _ _ (sym (rank_method b p) ∙ e ∙ rank_method c (omega (arith, p, e)))

  tie_not_better :
      (b c : BenchmarkModel)
      → 0 < rank_in b
      → rank_in b ≡ rank_in c
      → b.source_model_id ≡ c.source_model_id
      → better (bound_to b) (bound_to c) ≡ false
  unfolding binding_of
  tie_not_better b c p e id =
      equal_not_better (bound_to b) (bound_to c)
        (ap (confidence_of t zero_f one_f less m) (same_method b c p e)) id
        (matching_rank _ (subst (λ x. 0 < x) (e ∙ rank_method c (omega (arith, p, e))) p))

  -- Until `MatchUnique` meets a clash, both hold the same binding.
  record Agrees (s : State) (u : Picked) : Type 0 where
    same_rank : s.rank ≡ u.rank
    same_binding : s.ambiguous ≡ false → s.binding ≡ u.binding

  kept_or_replaced :
      (s : State) (u : Picked) (x : BenchmarkBinding F) (r : ℕ) (test : Bool)
      → s.rank ≡ u.rank
      → s.rank ≡ r
      → s.ambiguous ≡ true
      → Agrees s (if test then record { binding = x; rank = r } else u)
  kept_or_replaced s u x r true e f a = record {
    same_rank = f;
    same_binding = λ k. absurd (false≢true (sym k ∙ a));
  }
  kept_or_replaced s u x r false e f a = record {
    same_rank = e;
    same_binding = λ k. absurd (false≢true (sym k ∙ a));
  }

  bound_id :
      (c : BenchmarkModel) (x : BenchmarkBinding F)
      → x ≡ bound_to c
      → x.source_model_id ≡ c.source_model_id
  unfolding binding_of
  bound_id c x g = ap (λ y. y.source_model_id) g

  -- Where the record has the rank and the id of the binding, `Match` keeps its binding.
  repeat_not_better :
      (seen : List BenchmarkModel) (s : State) (u : Picked) (b : BenchmarkModel)
      → Inv t zero_f one_f less m pm seen s
      → Agrees s u
      → s.ambiguous ≡ false
      → s.rank ≡ rank_in b
      → 0 < rank_in b
      → b.source_model_id ≡ s.binding.source_model_id
      → better (bound_to b) u.binding ≡ false
  repeat_not_better seen s u b v a k e p id = elim v.found [
    | inl z ↦ absurd (absurd_lt 0 (rank_in b) p (omega (arith, z, e)))
    | inr (c, i, f, g) ↦
        subst (λ x. better (bound_to b) x ≡ false) (sym g ∙ a.same_binding k)
          (tie_not_better b c p (omega (arith, e, f)) (id ∙ bound_id c s.binding g))
  ]

  moved_pass :
      (s : State) (u : Picked) (b : BenchmarkModel) (v : Bool)
      → Agrees s u
      → ((rank_in b == 0) || ltb (rank_in b) s.rank) ≡ v
      → ((rank_in b == 0) || ltb (rank_in b) u.rank) ≡ v
  moved_pass s u b v a h = subst (λ x. ((rank_in b == 0) || ltb (rank_in b) x) ≡ v) a.same_rank h

  moved_less :
      (s : State) (u : Picked) (b : BenchmarkModel) (v : Bool)
      → Agrees s u
      → ltb s.rank (rank_in b) ≡ v
      → ltb u.rank (rank_in b) ≡ v
  moved_less s u b v a h = subst (λ x. ltb x (rank_in b) ≡ v) a.same_rank h

  consider-Agrees :
      (seen : List BenchmarkModel) (s : State) (u : Picked) (b : BenchmarkModel)
      → Inv t zero_f one_f less m pm seen s
      → Agrees s u
      → Agrees (consider t zero_f one_f less m pm s b) (weigh t zero_f one_f less differs m pm u b)
  unfolding consider weigh
  consider-Agrees seen s u b v a = elim (Bool-cases ((rank_in b == 0) || ltb (rank_in b) s.rank)) [
    | inl passed ↦ rw (passed, moved_pass s u b true a passed) a
    | inr counted ↦ elim (Bool-cases (ltb s.rank (rank_in b))) [
      | inl higher ↦
          rw (counted, moved_pass s u b false a counted, higher, moved_less s u b true a higher)
            (record { same_rank = refl; same_binding = λ k. refl })
      | inr tied ↦
          let k = tie_of (rank_in b) s.rank counted tied in
          elim (Bool-cases (not (str_eq b.source_model_id s.binding.source_model_id))) [
            | inl other ↦
                rw
                  (
                    counted,
                    moved_pass s u b false a counted,
                    tied,
                    moved_less s u b false a tied,
                    other,
                  )
                  (kept_or_replaced (record s { ambiguous = true }) u (bound_to b) (rank_in b)
                    (better (bound_to b) u.binding) a.same_rank k.0 refl)
            | inr same ↦ elim (Bool-cases s.ambiguous) [
              | inl clashed ↦
                  rw
                    (
                      counted,
                      moved_pass s u b false a counted,
                      tied,
                      moved_less s u b false a tied,
                      same,
                    )
                    (kept_or_replaced s u (bound_to b) (rank_in b) (better (bound_to b) u.binding)
                      a.same_rank k.0 clashed)
              | inr clear ↦
                  rw
                    (
                      counted,
                      moved_pass s u b false a counted,
                      tied,
                      moved_less s u b false a tied,
                      same,
                      repeat_not_better seen s u b v a clear k.0 k.1
                          (same_of b.source_model_id s.binding.source_model_id same),
                    )
                    a
            ]
          ]
    ]
  ]

  consider_all-Agrees :
      (bs seen : List BenchmarkModel) (s : State) (u : Picked)
      → Inv t zero_f one_f less m pm seen s
      → Agrees s u
      → Agrees
          (consider_all t zero_f one_f less m pm s bs)
          (weigh_all t zero_f one_f less differs m pm u bs)
  unfolding consider_all weigh_all
  consider_all-Agrees [] seen s u v a = a
  consider_all-Agrees (b ∷ bs) seen s u v a =
      consider_all-Agrees bs (b ∷ seen) (consider t zero_f one_f less m pm s b)
        (weigh t zero_f one_f less differs m pm u b)
        (consider-Inv t zero_f one_f less m pm seen s b v) (consider-Agrees seen s u b v a)

  clear_of : (r : ℕ) (a : Bool) → (not (r == 0) && not a) ≡ true → a ≡ false
  clear_of r a h = ground (arith, h)

  -- Where no float is less than itself: if `MatchUnique` reports a unique match, `Match` gives the same binding.
  pub match_best-match_unique :
      (bs : List BenchmarkModel)
      → (match_unique t zero_f one_f less m pm bs).1 ≡ true
      → match_best t zero_f one_f less differs m pm bs
        ≡ (match_unique t zero_f one_f less m pm bs).0
  unfolding match_unique match_best
  match_best-match_unique bs h = sym (
      (consider_all-Agrees bs [] (start t zero_f one_f less m pm) _
          (start-Inv t zero_f one_f less m pm)
          (record { same_rank = refl; same_binding = λ k. refl })).same_binding
        (clear_of _ _ h))
