-- ===== src/Matcher/Unique.antt =====
-- `MatchUnique` against an independent description of a unique best match.
use free_model_router.Matcher.Seen.{rank_in, bound_to, Inv, loop-Inv, absurd_lt}
use free_model_router.Matcher.{TextOps, Matcher, BenchmarkBinding}
use free_model_router.Matcher.Choice.{Best, binding_of, match_unique}
use free_model_router.Scoring.{BenchmarkModel}
use free_model_router.Model.Route.{ProviderModel}
use free_model_router.Prelude.{
  ℕ, ◌≤◌, ◌<◌, ◌≡◌, refl, sym, ap, ◌∙◌, ◌≢◌, ◌⊎◌, inl, inr, Bool, true, false, not, ◌&&◌, List,
  arith, ◌==◌, In,
}

module _ {F : Type 0} (t : TextOps) (zero_f one_f : F) (less : F → F → Bool) (m : Matcher F)
    (pm : ProviderModel) where
  abbrev rank_at : BenchmarkModel → ℕ
  rank_at b = rank_in t zero_f one_f less m pm b

  abbrev bound : BenchmarkModel → BenchmarkBinding F
  bound b = bound_to t zero_f one_f less m pm b

  abbrev State : Type 0
  State = Best t zero_f one_f less

  abbrev Kept : List BenchmarkModel → State → Type 0
  Kept = Inv t zero_f one_f less m pm

  -- One id has the highest rank, which is not 0, and the binding is that of a record with this id and rank.
  abbrev pub IsUniqueBest : List BenchmarkModel → BenchmarkBinding F → Type 0
  IsUniqueBest bs binding =
      (b : BenchmarkModel) × In b bs
      × (0 < rank_at b)
      × (binding ≡ bound b)
      × ((c : BenchmarkModel)
          → In c bs
          → (rank_at c < rank_at b)
            ⊎ ((rank_at c ≡ rank_at b) × (c.source_model_id ≡ b.source_model_id)))

  -- No record has a rank but 0, or two of the highest rank have different ids.
  abbrev pub HasNoUniqueBest : List BenchmarkModel → Type 0
  HasNoUniqueBest bs =
      ((b : BenchmarkModel) → In b bs → rank_at b ≡ 0)
      ⊎ ((b : BenchmarkModel) × (c : BenchmarkModel) × In b bs
          × In c bs
          × (0 < rank_at b)
          × (rank_at c ≡ rank_at b)
          × (b.source_model_id ≢ c.source_model_id)
          × ((d : BenchmarkModel) → In d bs → rank_at d ≤ rank_at b))

  counted_of : (r : ℕ) (a : Bool) → (not (r == 0) && not a) ≡ true → (0 < r) × (a ≡ false)
  counted_of r a h = ground (arith, h)

  uncounted_of : (r : ℕ) (a : Bool) → (not (r == 0) && not a) ≡ false → (r ≡ 0) ⊎ (a ≡ true)
  uncounted_of r a h = ground (arith, h)

  lower_or_same : (a b : ℕ) → a ≤ b → (a < b) ⊎ (a ≡ b)
  lower_or_same a b h = ground (arith, h)

  id_bound :
      (b : BenchmarkModel) (binding : BenchmarkBinding F)
      → binding ≡ bound b
      → binding.source_model_id ≡ b.source_model_id
  unfolding binding_of
  id_bound b binding e = ap (λ x. x.source_model_id) e

  Inv-IsUniqueBest :
      (bs : List BenchmarkModel) (s : State)
      → Kept bs s
      → (not (s.rank == 0) && not s.ambiguous) ≡ true
      → IsUniqueBest bs s.binding
  Inv-IsUniqueBest bs s v h =
      let k = counted_of s.rank s.ambiguous h in
      elim v.found [
        | inl z ↦ absurd (absurd_lt 0 s.rank k.0 (omega (arith, z)))
        | inr (b, i, e, f) ↦ (
          b,
          i,
          omega (arith, k.0, e),
          f,
          λ c j. elim (lower_or_same (rank_at c) s.rank (v.upper c j)) [
            | inl lower ↦ inl (omega (arith, lower, e))
            | inr tied ↦
                inr (omega (arith, tied, e), v.unique k.1 c j tied k.0 ∙ id_bound b s.binding f)
          ],
        )
      ]

  Inv-HasNoUniqueBest :
      (bs : List BenchmarkModel) (s : State)
      → Kept bs s
      → (not (s.rank == 0) && not s.ambiguous) ≡ false
      → HasNoUniqueBest bs
  Inv-HasNoUniqueBest bs s v h = elim (uncounted_of s.rank s.ambiguous h) [
    | inl z ↦ inl (λ b i. let k = v.upper b i in omega (arith, k, z))
    | inr a ↦
        let k = v.clash a in
        elim v.found [
          | inl z ↦ absurd (absurd_lt 0 s.rank k.0 (omega (arith, z)))
          | inr (b, i, e, f) ↦ inr (
            b,
            k.1.0,
            i,
            k.1.1,
            omega (arith, k.0, e),
            omega (arith, e, k.1.2),
            (λ same. k.1.3 (sym same ∙ sym (id_bound b s.binding f))),
            (λ d j. let u = v.upper d j in omega (arith, u, e)),
          )
        ]
  ]

  -- What the result promises.
  pub IsDecided : List BenchmarkModel → BenchmarkBinding F → Bool → Type 0
  IsDecided bs binding true = IsUniqueBest bs binding
  IsDecided bs binding false = HasNoUniqueBest bs

  decided :
      (bs : List BenchmarkModel) (s : State)
      → Kept bs s
      → (flag : Bool) → (not (s.rank == 0) && not s.ambiguous) ≡ flag
      → IsDecided bs s.binding flag
  unfolding IsDecided
  decided bs s v true h = Inv-IsUniqueBest bs s v h
  decided bs s v false h = Inv-HasNoUniqueBest bs s v h

  -- `MatchUnique` reports true exactly where one id has the highest rank of the records and this rank is that
  -- of a match. With true the binding is that of such a record and each other record ranks lower or has the
  -- same id. With false no record with an id matches, or two records of the highest rank have different ids.
  pub match_unique-IsDecided :
      (bs : List BenchmarkModel)
      → IsDecided bs
          (match_unique t zero_f one_f less m pm bs).0
          (match_unique t zero_f one_f less m pm bs).1
  unfolding match_unique
  match_unique-IsDecided bs = decided bs _ (loop-Inv t zero_f one_f less m pm bs) _ refl
