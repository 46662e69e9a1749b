-- ===== src/Router/Rank/Order.antt =====
-- The ranking is a strict weak order, total on candidates that differ in an identity.
use free_model_router.Prelude.Int.{pos, negsuc, eq_ℤ}
use free_model_router.Router.Filter.{Candidate}
use free_model_router.Router.Rank.{
  TtftLookup, ScoreLookup, by_key, by_identity, rank_by_ttft, rank_less,
}
use free_model_router.Router.Rank.Sort.{IsStrictWeak}
use free_model_router.Prelude.{
  String, ◌≡◌, refl, ◌⊎◌, inl, inr, Bool, true, false, Option, none, some, arith,
}
use free_model_router.Prelude.Int.{ℤ, ltb_ℤ}
use free_model_router.Prelude.Text.{
  str_lt_asymm, str_lt, str_lt_irrefl, eq_of_not-str_lt, str_lt_trans,
}

ltb_ℤ_asymm : (a b : ℤ) → ltb_ℤ a b ≡ true → ltb_ℤ b a ≡ false
ltb_ℤ_asymm a b h = ground arith

ltb_ℤ_weak : (a b c : ℤ) → ltb_ℤ a c ≡ true → (ltb_ℤ a b ≡ true) ⊎ (ltb_ℤ b c ≡ true)
ltb_ℤ_weak (pos a) (pos b) (pos c) h = ground arith
ltb_ℤ_weak (pos a) (negsuc b) (pos c) h = ground arith
ltb_ℤ_weak (negsuc a) (pos b) c h = ground arith
ltb_ℤ_weak (negsuc a) (negsuc b) (pos c) h = ground arith
ltb_ℤ_weak (negsuc a) (negsuc b) (negsuc c) h = ground arith
ltb_ℤ_weak (pos a) b (negsuc c) h = cc

eq_of_eq_ℤ : (a b : ℤ) → eq_ℤ a b ≡ true → a ≡ b
eq_of_eq_ℤ a b h = ground arith

lt_of_ne_ℤ : (a b : ℤ) → eq_ℤ a b ≡ false → (ltb_ℤ a b ≡ true) ⊎ (ltb_ℤ b a ≡ true)
lt_of_ne_ℤ a b h = ground arith

-- A comparison of numbers that separates different ones.
pub record IsOrder (before : ℤ → ℤ → Bool) : Type 0 where
  asymm : (a b : ℤ) → before a b ≡ true → before b a ≡ false
  weak : (a b c : ℤ) → before a c ≡ true → (before a b ≡ true) ⊎ (before b c ≡ true)
  total : (a b : ℤ) → eq_ℤ a b ≡ false → (before a b ≡ true) ⊎ (before b a ≡ true)

pub ltb_ℤ-IsOrder : IsOrder ltb_ℤ
ltb_ℤ-IsOrder = record { asymm = ltb_ℤ_asymm; weak = ltb_ℤ_weak; total = lt_of_ne_ℤ }

pub flip-IsOrder : IsOrder (λ a b. ltb_ℤ b a)
flip-IsOrder = record {
  asymm = λ a b h. ltb_ℤ_asymm b a h;
  weak = λ a b c h. ground (arith, ltb_ℤ_weak c b a h);
  total = λ a b h. ground (arith, lt_of_ne_ℤ a b h);
}

eq_ℤ_comm : (a b : ℤ) → eq_ℤ a b ≡ eq_ℤ b a
eq_ℤ_comm a b = ground arith

module _ (before : ℤ → ℤ → Bool) (o : IsOrder before) where
  by_key_asymm :
      (x y : Option ℤ) (xy yx : Bool)
      → (xy ≡ true → yx ≡ false)
      → by_key before x y xy ≡ true
      → by_key before y x yx ≡ false
  unfolding by_key
  by_key_asymm (some l) (some r) xy yx h e = ground (arith, o.asymm l r, eq_ℤ_comm l r)
  by_key_asymm (some l) none xy yx h e = refl
  by_key_asymm none (some r) xy yx h e = cc
  by_key_asymm none none xy yx h e = h e

  by_key_weak :
      (x y z : Option ℤ) (xz xy yz : Bool)
      → (xz ≡ true → (xy ≡ true) ⊎ (yz ≡ true))
      → by_key before x z xz ≡ true
      → (by_key before x y xy ≡ true) ⊎ (by_key before y z yz ≡ true)
  unfolding by_key
  by_key_weak (some a) (some b) (some c) xz xy yz h e = ground (
    arith,
    o.weak a b c,
    o.asymm a b,
    o.asymm b c,
    o.total a b,
    o.total b c,
    eq_of_eq_ℤ a b,
    eq_of_eq_ℤ b c,
    eq_of_eq_ℤ a c,
  )
  by_key_weak (some a) (some b) none xz xy yz h e = inr refl
  by_key_weak (some a) none (some c) xz xy yz h e = inl refl
  by_key_weak (some a) none none xz xy yz h e = inl refl
  by_key_weak none (some b) (some c) xz xy yz h e = cc
  by_key_weak none (some b) none xz xy yz h e = inr refl
  by_key_weak none none (some c) xz xy yz h e = cc
  by_key_weak none none none xz xy yz h e = h e

  -- Where neither way is less, the rest of the comparison was asked, both ways.
  by_key_rest :
      (x y : Option ℤ) (xy yx : Bool)
      → by_key before x y xy ≡ false
      → by_key before y x yx ≡ false
      → (xy ≡ false) × (yx ≡ false)
  unfolding by_key
  by_key_rest (some l) (some r) xy yx h k = ground (arith, o.total l r, eq_ℤ_comm l r)
  by_key_rest (some l) none xy yx h k = cc
  by_key_rest none (some r) xy yx h k = cc
  by_key_rest none none xy yx h k = (h, k)

by_identity_asymm : (l r : Candidate) → by_identity l r ≡ true → by_identity r l ≡ false
unfolding by_identity
by_identity_asymm l r h =
    ground (arith, str_lt_asymm l.model.id r.model.id, str_lt_asymm l.route.id r.route.id)

pub str_lt_weak : (s t u : String) → str_lt s u ≡ true → (str_lt s t ≡ true) ⊎ (str_lt t u ≡ true)
str_lt_weak s t u h = ground (arith, str_lt_trans t s u, eq_of_not-str_lt s t)

by_identity_weak :
    (x y z : Candidate)
    → by_identity x z ≡ true
    → (by_identity x y ≡ true) ⊎ (by_identity y z ≡ true)
unfolding by_identity
by_identity_weak x y z h = ground (
  arith,
  str_lt_weak x.model.id y.model.id z.model.id,
  str_lt_weak x.route.id y.route.id z.route.id,
  str_lt_irrefl x.model.id,
  eq_of_not-str_lt x.model.id y.model.id,
  eq_of_not-str_lt y.model.id z.model.id,
  str_lt_trans x.model.id z.model.id y.model.id,
)

-- Two candidates of which neither is first by identity have the same two ids.
by_identity_total :
    (l r : Candidate)
    → by_identity l r ≡ false
    → by_identity r l ≡ false
    → (l.model.id ≡ r.model.id) × (l.route.id ≡ r.route.id)
unfolding by_identity
by_identity_total l r h k =
    ground (arith, eq_of_not-str_lt l.model.id r.model.id, eq_of_not-str_lt l.route.id r.route.id)

rank_by_ttft-IsStrictWeak : (ttft : Option TtftLookup) → IsStrictWeak (rank_by_ttft ttft)
unfolding rank_by_ttft
rank_by_ttft-IsStrictWeak ttft = record {
  asymm = λ l r. by_key_asymm ltb_ℤ ltb_ℤ-IsOrder _ _ _ _ (by_identity_asymm l r);
  weak = λ x y z. by_key_weak ltb_ℤ ltb_ℤ-IsOrder _ _ _ _ _ _ (by_identity_weak x y z);
}

pub rank_less-IsStrictWeak :
    (ttft : Option TtftLookup) (score : Option ScoreLookup) → IsStrictWeak (rank_less ttft score)
unfolding rank_less
rank_less-IsStrictWeak ttft none = record {
  asymm = (rank_by_ttft-IsStrictWeak ttft).asymm;
  weak = (rank_by_ttft-IsStrictWeak ttft).weak;
}
rank_less-IsStrictWeak ttft (some score) = record {
  asymm = λ l r.
      by_key_asymm (λ a b. ltb_ℤ b a) flip-IsOrder _ _ _ _
        ((rank_by_ttft-IsStrictWeak ttft).asymm l r);
  weak = λ x y z.
      by_key_weak (λ a b. ltb_ℤ b a) flip-IsOrder _ _ _ _ _ _
        ((rank_by_ttft-IsStrictWeak ttft).weak x y z);
}

pub rank_less_total :
    (ttft : Option TtftLookup) (score : Option ScoreLookup) (l r : Candidate)
    → rank_less ttft score l r ≡ false
    → rank_less ttft score r l ≡ false
    → (l.model.id ≡ r.model.id) × (l.route.id ≡ r.route.id)
unfolding rank_less rank_by_ttft
rank_less_total ttft none l r h k =
    let rest = by_key_rest ltb_ℤ ltb_ℤ-IsOrder _ _ _ _ h k in by_identity_total l r rest.0 rest.1
rank_less_total ttft (some score) l r h k =
    let outer = by_key_rest (λ a b. ltb_ℤ b a) flip-IsOrder _ _ _ _ h k in
    let rest = by_key_rest ltb_ℤ ltb_ℤ-IsOrder _ _ _ _ outer.0 outer.1 in
    by_identity_total l r rest.0 rest.1
