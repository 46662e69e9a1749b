-- ===== src/Usage/Retention.antt =====
-- internal/usage/usage.go: which records are retained. The encoding of a record is a parameter.
use free_model_router.Usage.{RequestRecord}
use free_model_router.Files.{Bytes}
use free_model_router.Prelude.{
  ℕ, ◌+◌, ◌-◌, ◌≤◌, ◌<◌, ◌≡◌, refl, sym, ap, ◌∙◌, ◌⊎◌, inl, inr, Bool, false, not, ◌&&◌, ◌||◌,
  Option, none, some, List, [], ◌∷◌, ◌++◌, arith, ltb, ◌==◌, if◌then◌else◌, Bool-cases, length, All,
  length-append,
}
use mathlib.Core.Path.{subst}

-- `MaxAge`, 30 days, and `MaxBytes`
abbrev pub max_age : ℕ
max_age = 2_592_000_000_000_000

abbrev pub max_bytes : ℕ
max_bytes = 20_971_520

abbrev pub age_of : RequestRecord → ℕ
age_of r = if r.completed_at == 0 then r.started_at else r.completed_at

-- Older than the retention: a record without a time never is.
abbrev pub is_expired : ℕ → RequestRecord → Bool
is_expired now r = not (age_of r == 0) && ltb (age_of r + max_age) now

lt_or_le : (a b : ℕ) → (a < b) ⊎ (b ≤ a)
lt_or_le a b = ground arith

too_big : (a b : ℕ) → a < b → b ≤ a → ⊥
too_big a b h k = omega arith

add_sub : (a b : ℕ) → a + b - a ≡ b
add_sub a b = omega arith

tail_or_nil : List RequestRecord → List RequestRecord
tail_or_nil [] = []
tail_or_nil (r ∷ rs) = rs

-- the first loop of `pruneLocked`
unfoldable pub unexpired : ℕ → List RequestRecord → List RequestRecord
unexpired now [] = []
unexpired now (r ∷ rs) = let kept = unexpired now rs in if is_expired now r then kept else r ∷ kept

unexpired-All :
    (now : ℕ) (records : List RequestRecord)
    → All (λ r. is_expired now r ≡ false) (unexpired now records)
unfolding unexpired
unexpired-All now [] = tt
unexpired-All now (r ∷ rs) = elim (Bool-cases (is_expired now r)) [
  | inl h ↦ rw (h, unexpired) (unexpired-All now rs)
  | inr h ↦ rw (h, unexpired) (h, unexpired-All now rs)
]

unfoldable pub has_expired : ℕ → List RequestRecord → Bool
has_expired now [] = false
has_expired now (r ∷ rs) = is_expired now r || has_expired now rs

module _ (encode : RequestRecord → Option Bytes) where
  abbrev pub line_size : Option Bytes → ℕ
  line_size none = 0
  line_size (some b) = length b + 1

  -- the sum of `sizes`
  unfoldable pub total_size : List RequestRecord → ℕ
  total_size [] = 0
  total_size (r ∷ rs) = line_size (encode r) + total_size rs

  -- The last loop of `pruneLocked`: the oldest go while the rest is too large.
  unfoldable pub drop_oldest : ℕ → List RequestRecord → List RequestRecord
  drop_oldest total [] = []
  drop_oldest total (r ∷ rs) =
      let dropped = drop_oldest (total - line_size (encode r)) rs in
      if ltb max_bytes total then dropped else r ∷ rs

  -- `pruneLocked`: the records that stay
  unfoldable pub prune_records : ℕ → List RequestRecord → List RequestRecord
  unfolding unexpired total_size drop_oldest
  prune_records now records = let live = unexpired now records in drop_oldest (total_size live) live

  -- Its result, whether one of the loops dropped anything.
  unfoldable pub prune_changes : ℕ → List RequestRecord → Bool
  unfolding has_expired unexpired total_size
  prune_changes now records =
      has_expired now records || ltb max_bytes (total_size (unexpired now records))

  -- A list at the end of another.
  abbrev pub IsSuffix : List RequestRecord → List RequestRecord → Type 0
  IsSuffix k l = (front : List RequestRecord) × (l ≡ front ++ k)

  IsSuffix-length : (k l : List RequestRecord) → IsSuffix k l → length k ≤ length l
  IsSuffix-length k l s = rw s.1 (omega (arith, length-append s.0 k))

  pub record IsLongest (l kept : List RequestRecord) : Type 0 where
    pub suffix : IsSuffix kept l
    pub fits : total_size kept ≤ max_bytes
    pub longest :
        (k : List RequestRecord) → IsSuffix k l → total_size k ≤ max_bytes → length k ≤ length kept

  -- The two cases of the loop.
  drop_oldest-big :
      (r : RequestRecord) (rs : List RequestRecord)
      → max_bytes < total_size (r ∷ rs)
      → drop_oldest (total_size (r ∷ rs)) (r ∷ rs) ≡ drop_oldest (total_size rs) rs
  unfolding drop_oldest total_size
  drop_oldest-big r rs h =
      (ground arith) ∙ ap (λ n. drop_oldest n rs) (add_sub (line_size (encode r)) (total_size rs))

  drop_oldest-small :
      (r : RequestRecord) (rs : List RequestRecord)
      → total_size (r ∷ rs) ≤ max_bytes
      → drop_oldest (total_size (r ∷ rs)) (r ∷ rs) ≡ r ∷ rs
  unfolding drop_oldest
  drop_oldest-small r rs h = ground arith

  IsSuffix-cons :
      (k : List RequestRecord) (r : RequestRecord) (rs : List RequestRecord)
      → IsSuffix k (r ∷ rs)
      → (k ≡ r ∷ rs) ⊎ IsSuffix k rs
  unfolding tail_or_nil
  IsSuffix-cons k r rs ([], e) = inl (sym e)
  IsSuffix-cons k r rs (x ∷ front, e) = inr (front, ap tail_or_nil e)

  -- The loop over the oldest records keeps the longest end of the list that fits.
  drop_oldest-IsLongest : (l : List RequestRecord) → IsLongest l (drop_oldest (total_size l) l)
  unfolding drop_oldest total_size
  drop_oldest-IsLongest [] = record {
    suffix = ([], refl);
    fits = ground arith;
    longest = λ k s h. IsSuffix-length k [] s;
  }
  drop_oldest-IsLongest (r ∷ rs) = elim (lt_or_le max_bytes (total_size (r ∷ rs))) [
    | inl big ↦
        let rest = drop_oldest-IsLongest rs in
        subst (IsLongest (r ∷ rs)) (sym (drop_oldest-big r rs big)) (record {
          suffix = (r ∷ rest.suffix.0, ap (λ l. r ∷ l) rest.suffix.1);
          fits = rest.fits;
          longest = λ k s h. elim (IsSuffix-cons k r rs s) [
            | inl e ↦ absurd (
                too_big max_bytes (total_size (r ∷ rs)) big
                  (subst (λ l. total_size l ≤ max_bytes) e h))
            | inr shorter ↦ rest.longest k shorter h
          ];
        })
    | inr small ↦ subst (IsLongest (r ∷ rs)) (sym (drop_oldest-small r rs small)) (record {
      suffix = ([], refl);
      fits = small;
      longest = λ k s h. IsSuffix-length k (r ∷ rs) s;
    })
  ]

  IsSuffix-All :
      (P : RequestRecord → Type 0) (front k : List RequestRecord) → All P (front ++ k) → All P k
  IsSuffix-All P [] k h = h
  IsSuffix-All P (r ∷ front) k h = IsSuffix-All P front k h.1

  -- Retention keeps no record that is older than 30 days, and of the others, in their order, the
  -- longest end whose encoded lines fit into 20 MiB: so the oldest go, and no more of them than need be.
  pub prune_records-IsLongest :
      (now : ℕ) (records : List RequestRecord)
      → All (λ r. is_expired now r ≡ false) (prune_records now records)
        × IsLongest (unexpired now records) (prune_records now records)
  unfolding prune_records
  prune_records-IsLongest now records =
      let kept = drop_oldest-IsLongest (unexpired now records) in
      (
        IsSuffix-All _ kept.suffix.0 _
            (subst (All (λ r. is_expired now r ≡ false)) kept.suffix.1 (unexpired-All now records)),
        kept,
      )

  unexpired-same :
      (now : ℕ) (records : List RequestRecord)
      → has_expired now records ≡ false
      → unexpired now records ≡ records
  unfolding unexpired has_expired
  unexpired-same now [] h = refl
  unexpired-same now (r ∷ rs) h = ground (arith, unexpired-same now rs)

  drop_oldest-fits :
      (l : List RequestRecord) → total_size l ≤ max_bytes → drop_oldest (total_size l) l ≡ l
  unfolding drop_oldest
  drop_oldest-fits [] h = refl
  drop_oldest-fits (r ∷ rs) h = drop_oldest-small r rs h

  -- Where retention reports no change there is none.
  pub prune_records-same :
      (now : ℕ) (records : List RequestRecord)
      → prune_changes now records ≡ false
      → prune_records now records ≡ records
  unfolding prune_records prune_changes
  prune_records-same now records h =
      let same = unexpired-same now records (ground (arith, h)) in
      ap (λ l. drop_oldest (total_size l) l) same
      ∙ drop_oldest-fits records (subst (λ l. total_size l ≤ max_bytes) same (ground (arith, h)))
