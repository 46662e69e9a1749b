-- ===== src/Health/Slots/Counts.antt =====
-- How each operation of the manager changes the slots that it counts and the channels that it keeps.
use free_model_router.Health.Slots.{count, is_closed, IsBlocked}
use free_model_router.Health.{
  notify, has_room, change_channel, acquire_round, flying, release_slot, Manager, set_provider_cap,
  provider_cap, acquired, waits,
}
-- how each operation changes what the invariant reads
use free_model_router.Prelude.{
  String, ◌≡◌, ℕ, false, List, arith, some, ◌++◌, ◌≤◌, length, true, if◌then◌else◌, suc, ◌+◌, ◌∷◌,
  ◌∙◌, ◌<◌, refl, [],
}
use free_model_router.Prelude.Dict.{lookup, assign, lookup-assign}
use free_model_router.Prelude.Int.{ℤ, pos, suc_int64, pred_int64, max_int64}
use free_model_router.Prelude.Text.{str_eq, str_eq_refl}

pub flying-notify : (m : Manager) (p q : String) → flying (notify m p) q ≡ flying m q
unfolding notify flying
flying-notify m p q = ground arith

pub has_room-notify : (m : Manager) (p q : String) → has_room (notify m p) q ≡ has_room m q
unfolding notify has_room flying provider_cap
has_room-notify m p q = ground arith

pub has_room-change_channel :
    (m : Manager) (p q : String) → has_room (change_channel m p).0 q ≡ has_room m q
unfolding has_room flying provider_cap change_channel
has_room-change_channel m p q = ground arith

-- Notifying a provider leaves no caller of it on an open channel, and moves no other provider.
pub notify-IsBlocked :
    (m : Manager) (p : String) (w : String × ℕ)
    → (is_closed m.closed w.1 ≡ false → lookup w.0 m.changed ≡ some w.1)
    → is_closed (notify m p).closed w.1 ≡ false
    → (str_eq p w.0 ≡ false) × (lookup w.0 (notify m p).changed ≡ some w.1)
unfolding notify change_channel
notify-IsBlocked m p (q, ch) h open_still = ground (
  arith,
  lookup-assign p q (m.fresh + 1) (assign p m.fresh m.changed),
  lookup-assign p q m.fresh m.changed,
)

pub closed-notify :
    (m : Manager) (p : String) (ch : ℕ)
    → is_closed (notify m p).closed ch ≡ false
    → is_closed m.closed ch ≡ false
unfolding notify change_channel
closed-notify m p ch h = ground arith

pub change_channel-IsBlocked :
    (m : Manager) (p : String) (w : String × ℕ) → IsBlocked m w → IsBlocked (change_channel m p).0 w
unfolding change_channel
change_channel-IsBlocked m p (q, ch) h open_still =
    ground (arith, lookup-assign p q m.fresh m.changed, has_room-change_channel m p q)

pub lookup-change_channel :
    (m : Manager) (p : String)
    → lookup p (change_channel m p).0.changed ≡ some (change_channel m p).1
unfolding change_channel
lookup-change_channel m p = ground (arith, lookup-assign p p m.fresh m.changed)

-- what one round under the lock says of the two ways to go on
pub taken_lem :
    (m m' : Manager) (p : String)
    → acquire_round m false p ≡ acquired m'
    → (has_room m p ≡ true)
      × (m' ≡ record m { in_flight = assign p (suc_int64 (flying m p)) m.in_flight })
unfolding acquire_round
taken_lem m m' p e = ground arith

pub waits_lem :
    (m m' : Manager) (p : String) (ch : ℕ)
    → acquire_round m false p ≡ waits m' ch
    → (has_room m p ≡ false) × (m' ≡ (change_channel m p).0) × (ch ≡ (change_channel m p).1)
unfolding acquire_round
waits_lem m m' p ch e = ground arith

pub flying-assign :
    (m : Manager) (p : String) (n : ℤ) (q : String)
    → flying (record m { in_flight = assign p n m.in_flight }) q
      ≡ (if str_eq p q then n else flying m q)
unfolding flying
flying-assign m p n q = ground (arith, lookup-assign p q n m.in_flight)

pub flying-change_channel :
    (m : Manager) (p q : String) → flying (change_channel m p).0 q ≡ flying m q
unfolding flying change_channel
flying-change_channel m p q = ground arith

pub flying-release_slot :
    (m : Manager) (p q : String) (n : ℕ)
    → flying m p ≡ pos (suc n)
    → flying (release_slot m p) q ≡ (if str_eq p q then pos n else flying m q)
unfolding release_slot
flying-release_slot m p q n e = ground (
  arith,
  flying-notify (record m { in_flight = assign p (pred_int64 (flying m p)) m.in_flight }) p q,
  flying-assign m p (pred_int64 (flying m p)) q,
)

pub count-append : (p : String) (xs ys : List String) → count p (xs ++ ys) ≡ count p xs + count p ys
count-append p [] ys = omega arith
count-append p (x ∷ xs) ys = ground (arith, count-append p xs ys)

pub count-le-length : (p : String) (xs : List String) → count p xs ≤ length xs
count-le-length p [] = omega arith
count-le-length p (x ∷ xs) = ground (arith, count-le-length p xs)

-- A release gives back a slot that the manager counts.
pub held-flying :
    (m : Manager) (p : String) (before after : List String)
    → flying m p ≡ pos (count p (before ++ p ∷ after))
    → flying m p ≡ pos (suc (count p (before ++ after)))
held-flying m p before after e =
    ground (arith, str_eq_refl p, count-append p before (p ∷ after), count-append p before after)

pub set_cap-counted :
    (m : Manager) (p : String) (n : ℤ) (q : String) → flying (set_provider_cap m p n) q ≡ flying m q
unfolding set_provider_cap
set_cap-counted m p n q =
    flying-notify (record m { prov_cap = assign p n m.prov_cap }) p q ∙ (unfold flying in refl)

pub acquire-counted :
    (m m' : Manager) (p q : String) (held : List String)
    → length held < max_int64
    → acquire_round m false p ≡ acquired m'
    → ((r : String) → flying m r ≡ pos (count r held))
    → flying m' q ≡ pos (count q (p ∷ held))
acquire-counted m m' p q held bound taken h = ground (
  arith,
  taken_lem m m' p taken,
  flying-assign m p (suc_int64 (flying m p)) q,
  h p,
  h q,
  count-le-length p held,
)

pub release-counted :
    (m : Manager) (p q : String) (before after : List String)
    → ((r : String) → flying m r ≡ pos (count r (before ++ p ∷ after)))
    → flying (release_slot m p) q ≡ pos (count q (before ++ after))
release-counted m p q before after h = ground (
  arith,
  flying-release_slot m p q (count p (before ++ after)) (held-flying m p before after (h p)),
  h q,
  count-append q before (p ∷ after),
  count-append q before after,
)
