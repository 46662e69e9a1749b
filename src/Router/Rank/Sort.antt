-- ===== src/Router/Rank/Sort.antt =====
-- `sort.SliceStable`: the stable order by a comparison, as an insertion sort, and what holds of it
-- for any comparison that is a strict weak order. (A stable sort by such a comparison has one result,
-- so the algorithm does not matter.)
use mathlib.Core.List.Permᴰ
use mathlib.Core.List.{Permᴰ}
use free_model_router.Prelude.{
  ◌≡◌, refl, ◌⊎◌, inl, inr, Bool, true, false, List, [], ◌∷◌, if◌then◌else◌, Bool-cases, All, arith,
  ◌∙◌,
}
use mathlib.Core.Path.{subst, ap₂}

module _ {A : Type 0} (less : A → A → Bool) where
  -- Behind all that is less: before what is equal, which stood behind it.
  unfoldable pub insert : A → List A → List A
  insert x [] = x ∷ []
  insert x (y ∷ ys) = let rest = insert x ys in if less y x then y ∷ rest else x ∷ y ∷ ys

  unfoldable pub sort_stable : List A → List A
  unfolding insert
  sort_stable [] = []
  sort_stable (x ∷ xs) = insert x (sort_stable xs)

  pub record IsStrictWeak : Type 0 where
    pub asymm : (x y : A) → less x y ≡ true → less y x ≡ false
    pub weak : (x y z : A) → less x z ≡ true → (less x y ≡ true) ⊎ (less y z ≡ true)

  -- No element is less than one that stands before it.
  abbrev pub IsSorted : List A → Type 0
  IsSorted [] = Unit
  IsSorted (x ∷ xs) = All (λ y. less y x ≡ false) xs × IsSorted xs

  insert-perm : (x : A) (xs : List A) → Permᴰ (insert x xs) (x ∷ xs)
  unfolding insert
  insert-perm x [] = Permᴰ.refl (x ∷ [])
  insert-perm x (y ∷ ys) = elim (Bool-cases (less y x)) [
    | inl h ↦
        rw (h, insert) (Permᴰ.trans (Permᴰ.cons refl (insert-perm x ys)) (Permᴰ.swap refl refl))
    | inr h ↦ rw (h, insert) (Permᴰ.refl (x ∷ y ∷ ys))
  ]

  pub sort_stable-perm : (xs : List A) → Permᴰ (sort_stable xs) xs
  unfolding sort_stable
  sort_stable-perm [] = Permᴰ.nil
  sort_stable-perm (x ∷ xs) =
      Permᴰ.trans (insert-perm x (sort_stable xs)) (Permᴰ.cons refl (sort_stable-perm xs))

  All-insert : (P : A → Type 0) (x : A) (ys : List A) → P x → All P ys → All P (insert x ys)
  unfolding insert
  All-insert P x [] p h = (p, tt)
  All-insert P x (y ∷ ys) p h = ground (arith, All-insert P x ys p h.1)

  -- What is not less than `y` and not below it is not less than what `y` is not less than.
  not-less_trans :
      IsStrictWeak → (x y z : A) → less y x ≡ false → less z y ≡ false → less z x ≡ false
  not-less_trans w x y z h k = ground (arith, w.weak z y x)

  All-not-less :
      IsStrictWeak
      → (x y : A) (ys : List A) → less y x ≡ false
      → All (λ z. less z y ≡ false) ys
      → All (λ z. less z x ≡ false) ys
  All-not-less w x y [] h hs = tt
  All-not-less w x y (z ∷ zs) h hs = (not-less_trans w x y z h hs.0, All-not-less w x y zs h hs.1)

  insert-IsSorted : IsStrictWeak → (x : A) (xs : List A) → IsSorted xs → IsSorted (insert x xs)
  unfolding insert
  insert-IsSorted w x [] s = (tt, tt)
  insert-IsSorted w x (y ∷ ys) s = elim (Bool-cases (less y x)) [
    | inl h ↦
        rw (h, insert)
          (All-insert (λ z. less z y ≡ false) x ys (w.asymm y x h) s.0, insert-IsSorted w x ys s.1)
    | inr h ↦ rw (h, insert) ((h, All-not-less w x y ys h s.0), s)
  ]

  pub sort_stable-IsSorted : IsStrictWeak → (xs : List A) → IsSorted (sort_stable xs)
  unfolding sort_stable
  sort_stable-IsSorted w [] = tt
  sort_stable-IsSorted w (x ∷ xs) = insert-IsSorted w x (sort_stable xs) (sort_stable-IsSorted w xs)

  -- Two elements of which neither is less are one.
  abbrev pub IsTotalOn : (A → Type 0) → Type 0
  IsTotalOn P = (x y : A) → P x → P y → less x y ≡ false → less y x ≡ false → x ≡ y

  insert-insert :
      IsStrictWeak
      → (P : A → Type 0) → IsTotalOn P
      → (x y : A) (l : List A) → P x
      → P y
      → insert x (insert y l) ≡ insert y (insert x l)
  unfolding insert
  insert-insert w P total x y [] px py = ground (arith, w.asymm x y, w.asymm y x, total x y px py)
  insert-insert w P total x y (z ∷ zs) px py = ground (
    arith,
    insert-insert w P total x y zs px py,
    w.asymm x y,
    w.asymm y x,
    w.weak z y x,
    w.weak z x y,
    total x y px py,
  )

  All-perm : (P : A → Type 0) {xs ys : List A} → Permᴰ xs ys → All P xs → All P ys
  All-perm P Permᴰ.nil h = h
  All-perm P (Permᴰ.cons e d) h = (subst P e h.0, All-perm P d h.1)
  All-perm P (Permᴰ.swap e f) h = (subst P f h.1.0, (subst P e h.0, h.1.1))
  All-perm P (Permᴰ.trans d d') h = All-perm P d' (All-perm P d h)

  -- The result does not depend on the order of the input.
  pub sort_stable_unique :
      IsStrictWeak
      → (P : A → Type 0) → IsTotalOn P
      → {xs ys : List A} → Permᴰ xs ys
      → All P xs
      → sort_stable xs ≡ sort_stable ys
  unfolding sort_stable
  sort_stable_unique w P total Permᴰ.nil h = refl
  sort_stable_unique w P total (Permᴰ.cons e d) h =
      ap₂ insert e (sort_stable_unique w P total d h.1)
  sort_stable_unique w P total (Permᴰ.swap {a = a} {b = b} {l = l} e f) h =
      insert-insert w P total a b (sort_stable l) h.0 h.1.0
      ∙ ap₂ (λ u v. insert u (insert v (sort_stable l))) f e
  sort_stable_unique w P total (Permᴰ.trans d d') h =
      sort_stable_unique w P total d h ∙ sort_stable_unique w P total d' (All-perm P d h)
