-- ===== src/Health/Cooldown.antt =====
-- When a route may be used again after failures, successes and quota marks.
use free_model_router.Prelude.{
  ℕ, ◌+◌, ◌≡◌, refl, ◌<◌, Bool, true, false, not, ◌&&◌, ◌||◌, String, List, [], ◌∷◌, arith,
  if◌then◌else◌, ltb, ◌==◌, ◌∙◌, ap,
}
use free_model_router.Prelude.Int.{ℤ, pos, suc_int64}
use free_model_router.Prelude.Text.{str_eq, str_eq_refl}
use free_model_router.Prelude.Dict.{lookup-assign}
use free_model_router.Health.{
  Manager, state_of, route_failure, route_success, mark_quota_exhausted, reset_quota, available,
  effective_cooldown, RouteSnapshot, put_state,
}

-- What happens to routes.
pub data Event : Type 0 where
  fails : String → ℤ → ℕ → Event
  succeeds exhausts resets : String → Event

unfoldable pub handle : Manager → Event → Manager
handle m (fails r cooldown now) = route_failure m r cooldown now
handle m (succeeds r) = route_success m r
handle m (exhausts r) = mark_quota_exhausted m r
handle m (resets r) = reset_quota m r

unfoldable pub handle_all : Manager → List Event → Manager
unfolding handle
handle_all m [] = m
handle_all m (e ∷ es) = handle_all (handle m e) es

-- The reference: the events of one route, read one by one.
pub record View : Type 0 where
  pub until : ℕ
  pub quota : Bool

abbrev pub observe : String → View → Event → View
observe r v (fails q cooldown now) =
    if str_eq q r then record v { until = now + effective_cooldown cooldown } else v
observe r v (succeeds q) = if str_eq q r then record v { until = 0 } else v
observe r v (exhausts q) = if str_eq q r then record v { quota = true } else v
observe r v (resets q) = if str_eq q r then record v { quota = false } else v

abbrev pub observe_all : String → View → List Event → View
observe_all r v [] = v
observe_all r v (e ∷ es) = observe_all r (observe r v e) es

abbrev view : Manager → String → View
view m r = record { until = (state_of m r).cooling_until; quota = (state_of m r).quota_exhausted }

state_of-put_state :
    (m : Manager) (q : String) (s : RouteSnapshot) (r : String)
    → state_of (put_state m q s) r ≡ (if str_eq q r then s else state_of m r)
unfolding state_of
state_of-put_state m q s r = ground (arith, lookup-assign q r s m.routes)

view-handle : (m : Manager) (r : String) (e : Event) → view (handle m e) r ≡ observe r (view m r) e
unfolding handle
view-handle m r (fails q cooldown now) =
    unfold route_failure in
    ground (
      arith,
      state_of-put_state m q
          (record (state_of m q) {
            consecutive_failures = suc_int64 (state_of m q).consecutive_failures;
            cooling_until = now + effective_cooldown cooldown;
          })
          r,
    )
view-handle m r (succeeds q) =
    unfold route_success in
    ground (
      arith,
      state_of-put_state m q
          (record (state_of m q) { consecutive_failures = pos 0; cooling_until = 0 }) r,
    )
view-handle m r (exhausts q) =
    unfold mark_quota_exhausted in
    ground (arith, state_of-put_state m q (record (state_of m q) { quota_exhausted = true }) r)
view-handle m r (resets q) =
    unfold reset_quota in
    ground (arith, state_of-put_state m q (record (state_of m q) { quota_exhausted = false }) r)

view-handle_all :
    (m : Manager) (r : String) (es : List Event)
    → view (handle_all m es) r ≡ observe_all r (view m r) es
unfolding handle_all
view-handle_all m r [] = refl
view-handle_all m r (e ∷ es) =
    view-handle_all (handle m e) r es ∙ ap (λ v. observe_all r v es) (view-handle m r e)

available-view :
    (m : Manager) (r : String) (now : ℕ)
    → available m r now
      ≡ (if (view m r).quota then false else ((view m r).until == 0) || ltb (view m r).until now)
unfolding available state_of
available-view m r now = ground arith

-- After any events, of this and of other routes, a route is available at a time exactly when the
-- route's own events say so: its quota is not marked exhausted, and it has no cooldown, or the
-- cooldown that its last failure started (of 30 seconds where none was given) lies strictly in the
-- past. A success ends the cooldown and not the quota mark.
pub available-handle_all :
    (m : Manager) (r : String) (es : List Event) (now : ℕ)
    → let v = observe_all r (view m r) es in
      available (handle_all m es) r now
      ≡ (if v.quota then false else (v.until == 0) || ltb v.until now)
available-handle_all m r es now =
    available-view (handle_all m es) r now
    ∙ ap (λ (v : View). if v.quota then false else (v.until == 0) || ltb v.until now)
        (view-handle_all m r es)

-- A failure at a time later than Go's zero time keeps the route out for the whole cooldown, up to its
-- last instant, and lets it back after that unless its quota is exhausted; a success lets it back at
-- once under the same condition. Every other route is as available as it was before.
pub available-route_failure :
    (m : Manager) (r q : String) (cooldown : ℤ) (now later : ℕ)
    → 0 < now
    → str_eq r q ≡ false
    → (available (route_failure m r cooldown now) r later
        ≡ (not (state_of m r).quota_exhausted && ltb (now + effective_cooldown cooldown) later))
      × (available (route_success m r) r later ≡ not (state_of m r).quota_exhausted)
      × (available (route_failure m r cooldown now) q later ≡ available m q later)
      × (available (route_success m r) q later ≡ available m q later)
unfolding handle
available-route_failure m r q cooldown now later h other = ground (
  arith,
  str_eq_refl r,
  available-view (route_failure m r cooldown now) r later,
  view-handle m r (fails r cooldown now),
  available-view (route_success m r) r later,
  view-handle m r (succeeds r),
  available-view (route_failure m r cooldown now) q later,
  view-handle m q (fails r cooldown now),
  available-view (route_success m r) q later,
  view-handle m q (succeeds r),
  available-view m q later,
)
