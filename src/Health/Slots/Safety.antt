-- ===== src/Health/Slots/Safety.antt =====
-- The invariant of the slots over every reachable state.
use free_model_router.Prelude.{
  ℕ, suc, ◌≡◌, refl, false, String, arith, List, In, ◌++◌, ◌∷◌, In-append_cases, if◌then◌else◌, inl,
  In-append_left, sym, ltb, inr, In-append_right, ◌∙◌, ap,
}
use free_model_router.Prelude.Int.{ℤ, pos, pred_int64, suc_int64}
use free_model_router.Prelude.Dict.{assign, lookup-assign, lookup}
use free_model_router.Health.{
  Manager, provider_cap, flying, has_room, notify, set_provider_cap, acquired, acquire_round,
  release_slot, waits, change_channel,
}
use free_model_router.Health.Slots.{
  IsBlocked, System, Step, Inv, Reach, start, set_cap, next, here, count, acquire, wait, release,
  leave,
}
use free_model_router.Health.Slots.Counts.{
  has_room-notify, notify-IsBlocked, taken_lem, flying-assign, closed-notify, waits_lem,
  set_cap-counted, lookup-change_channel, has_room-change_channel, change_channel-IsBlocked,
  acquire-counted, flying-change_channel, release-counted, held-flying,
}
-- Notifying a provider after its entry changed wakes its callers, and leaves the others as they were.
use free_model_router.Prelude.Text.{str_eq}
use mathlib.Core.Path.{subst}

notified :
    (m m1 : Manager) (p : String) (w : String × ℕ)
    → m1.closed ≡ m.closed
    → m1.changed ≡ m.changed
    → (str_eq p w.0 ≡ false → has_room m1 w.0 ≡ has_room m w.0)
    → IsBlocked m w
    → IsBlocked (notify m1 p) w
notified m m1 p (q, ch) closed_same changed_same room_same h open_still = ground (
  arith,
  closed-notify m1 p ch,
  notify-IsBlocked m1 p (q, ch),
  has_room-notify m1 p q,
  room_same,
  h,
)

set_cap-IsBlocked :
    (m : Manager) (p : String) (n : ℤ) (w : String × ℕ)
    → IsBlocked m w
    → IsBlocked (set_provider_cap m p n) w
unfolding set_provider_cap has_room provider_cap flying
set_cap-IsBlocked m p n w h =
    notified m (record m { prov_cap = assign p n m.prov_cap }) p w refl refl
      (λ other. ground (arith, lookup-assign p w.0 n m.prov_cap)) h

acquire-IsBlocked :
    (m m' : Manager) (p : String) (w : String × ℕ)
    → acquire_round m false p ≡ acquired m'
    → IsBlocked m w
    → IsBlocked m' w
unfolding has_room provider_cap
acquire-IsBlocked m m' p (q, ch) taken h open_still =
    ground (arith, taken_lem m m' p taken, flying-assign m p (suc_int64 (flying m p)) q, h)

release-IsBlocked :
    (m : Manager) (p : String) (w : String × ℕ) (n : ℕ)
    → flying m p ≡ pos (suc n)
    → IsBlocked m w
    → IsBlocked (release_slot m p) w
unfolding release_slot has_room provider_cap
release-IsBlocked m p (q, ch) n e h open_still = ground (
  arith,
  notified m (record m { in_flight = assign p (pred_int64 (flying m p)) m.in_flight }) p (q, ch)
      refl refl,
  flying-assign m p (pred_int64 (flying m p)) q,
)

In-remove :
    (w x : String × ℕ) (before after : List (String × ℕ))
    → In w (before ++ after)
    → In w (before ++ x ∷ after)
In-remove w x before after h = elim (In-append_cases w before after h) [
  | inl l ↦ In-append_left w before (x ∷ after) l
  | inr r ↦ In-append_right w before (x ∷ after) (inr r)
]

wait-IsBlocked :
    (m m' : Manager) (p : String) (ch : ℕ) (waiting : List (String × ℕ)) (w : String × ℕ)
    → acquire_round m false p ≡ waits m' ch
    → ((x : String × ℕ) → In x waiting → IsBlocked m x)
    → In w ((p, ch) ∷ waiting)
    → IsBlocked m' w
wait-IsBlocked m m' p ch waiting w full h (inl e) = subst (IsBlocked m') (sym e) (λ _.
    ground
      (arith, waits_lem m m' p ch full, lookup-change_channel m p, has_room-change_channel m p p))
wait-IsBlocked m m' p ch waiting w full h (inr i) =
    subst (λ k. IsBlocked k w) (sym (waits_lem m m' p ch full).1)
      (change_channel-IsBlocked m p w (h w i))

Step-Inv : (s t : System) → Step s t → Inv s → Inv t
Step-Inv s t (set_cap p n e) v = subst Inv (sym e) (record {
  counted = λ q. set_cap-counted s.manager p n q ∙ v.counted q;
  blocked = λ w i. set_cap-IsBlocked s.manager p n w (v.blocked w i);
})
Step-Inv s t (acquire p m bound taken e) v = subst Inv (sym e) (record {
  counted = λ q. acquire-counted s.manager m p q s.held bound taken v.counted;
  blocked = λ w i. acquire-IsBlocked s.manager m p w taken (v.blocked w i);
})
Step-Inv s t (wait p m ch full e) v = subst Inv (sym e) (record {
  counted = λ q.
      ground
        (arith, waits_lem s.manager m p ch full, flying-change_channel s.manager p q, v.counted q);
  blocked = λ w i. wait-IsBlocked s.manager m p ch s.waiting w full v.blocked i;
})
Step-Inv s t (release p before after held e) v = subst Inv (sym e) (record {
  counted = λ q. release-counted s.manager p q before after counts;
  blocked = λ w i.
      release-IsBlocked s.manager p w (count p (before ++ after))
        (held-flying s.manager p before after (counts p)) (v.blocked w i);
})
  where
    counts : (r : String) → flying s.manager r ≡ pos (count r (before ++ p ∷ after))
    counts r = v.counted r ∙ ap (λ l. pos (count r l)) held
Step-Inv s t (leave w before after waiting e) v = subst Inv (sym e) (record {
  counted = v.counted;
  blocked = λ x i. v.blocked x (subst (In x) (sym waiting) (In-remove x w before after i));
})

start-Inv : Inv start
unfolding flying lookup
start-Inv = record { counted = λ p. refl; blocked = λ w i. absurd i }

-- Under every interleaving of cap changes, acquisitions, waits, releases and departures: the number
-- of slots that the manager counts for a provider is the number that is held, and no wake-up is
-- lost, for a caller whose channel is still open waits on its provider's current channel, and that
-- provider has a positive cap and no slot below it.
pub Reach-Inv : (s : System) → Reach start s → Inv s
Reach-Inv s here = start-Inv
Reach-Inv s (next {t = t} r st) = Step-Inv t s st (Reach-Inv t r)

-- In every reachable state, a request that asks for a slot of a provider with a positive cap gets one
-- only if fewer slots than the cap are held, and waits only if the cap or more of them are.
pub acquire_round-held :
    (s : System) (p : String) (cap : ℕ)
    → Reach start s
    → provider_cap s.manager p ≡ pos (suc cap)
    → acquire_round s.manager false p ≡ (
        if ltb (count p s.held) (suc cap)
        then acquired (record s.manager {
          in_flight = assign p (suc_int64 (pos (count p s.held))) s.manager.in_flight;
        })
        else waits (change_channel s.manager p).0 (change_channel s.manager p).1)
unfolding acquire_round has_room
acquire_round-held s p cap r e = ground (arith, (Reach-Inv s r).counted p)
