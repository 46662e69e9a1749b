-- ===== src/Probe/Reach.antt =====
-- Probes that run at the same time, as the steps of their workers in any order.
use free_model_router.Probe.{
  Scheduler, ProbeBackoff, new_scheduler, claim_probe, finish_probe, fail_probe, record_success,
  backoff_of, is_in_flight, begin, enter_slot, leave_slot, base_probe_backoff, max_probe_backoff,
  backoff_or_zero, next_delay,
}
use free_model_router.Prelude.Dict.{Dict, lookup, lookup-assign, lookup-delete, assign, delete}
use free_model_router.Catalog.Pool.{contains, remove_ids}
use free_model_router.Catalog.Pool.Selection.{
  IsDistinct, remove_ids-IsDistinct, contains-remove_ids,
}
use free_model_router.Health.{Manager}
use free_model_router.Latency.{Registry}
use free_model_router.Catalog.Reconcile.{flag_or_false}
use free_model_router.Prelude.{
  ℕ, ◌≤◌, String, ◌≡◌, refl, sym, inl, inr, Bool, true, ◌||◌, Option, none, some, List, [], ◌∷◌,
  arith, ltb, Bool-cases,
}
use mathlib.Core.Path.{subst}
use mathlib.Core.Bool.{false≢true}
use free_model_router.Prelude.Text.{str_eq, str_discrete}
use mathlib.Core.Logic.{ite}

abbrev pub InRange : ℕ → Type 0
InRange delay = (base_probe_backoff ≤ delay) × (delay ≤ max_probe_backoff)

-- No backoff, or one within its bounds.
abbrev pub IsBounded : Option ProbeBackoff → Type 0
IsBounded none = Unit
IsBounded (some b) = InRange b.delay

IsBounded-assign :
    (k j : String) (b : ProbeBackoff) (m : Dict ProbeBackoff)
    → InRange b.delay
    → IsBounded (lookup j m)
    → IsBounded (lookup j (assign k b m))
IsBounded-assign k j b m h r =
    subst IsBounded (sym (lookup-assign k j b m))
      (elim (str_discrete k j) as (λ d. IsBounded (ite d (some b) (lookup j m))) [
        | yes e ↦ h
        | no n ↦ r
      ])

IsBounded-delete :
    (k j : String) (m : Dict ProbeBackoff)
    → IsBounded (lookup j m)
    → IsBounded (lookup j (delete k m))
IsBounded-delete k j m r =
    subst IsBounded (sym (lookup-delete k j m))
      (elim (str_discrete k j) as (λ d. IsBounded (ite d none (lookup j m))) [
        | yes e ↦ tt
        | no n ↦ r
      ])

module _ {F : Type 0} (zero_ms : F) (mix : F → F → F) (is_known : F → Bool) (to_ms : ℕ → F) where
  next_delay-bounds :
      (o : Option ProbeBackoff)
      → IsBounded o
      → InRange (next_delay zero_ms mix is_known to_ms (backoff_or_zero o).delay)
  next_delay-bounds none h = (omega arith, omega arith)
  next_delay-bounds (some b) h = ground (arith, h.0, h.1)

module _ {F : Type 0} (zero_ms : F) (mix : F → F → F) (is_known : F → Bool) (to_ms : ℕ → F) where
  -- The states that workers reach, with the routes that are being probed: a worker claims a route,
  -- takes a slot, begins, then fails or measures, frees the slot, and finishes.
  pub data Reach (reg : Registry F) (h : Manager) : Scheduler F → List String → Type 0 where
    fresh : Reach reg h (new_scheduler zero_ms mix is_known to_ms reg h) []
    claims :
        (s : Scheduler F) (active : List String) (id : String) (now : ℕ)
        → Reach reg h s active
        → (claim_probe zero_ms mix is_known to_ms s id now).1 ≡ true
        → Reach reg h (claim_probe zero_ms mix is_known to_ms s id now).0 (id ∷ active)
    begins :
        (s : Scheduler F) (active : List String) (id : String) (now : ℕ)
        → Reach reg h s active
        → contains active id ≡ true
        → Reach reg h (begin zero_ms mix is_known to_ms s id now) active
    takes :
        (s : Scheduler F) (active : List String) (id provider : String)
        → Reach reg h s active
        → contains active id ≡ true
        → Reach reg h (enter_slot zero_ms mix is_known to_ms s provider) active
    frees :
        (s : Scheduler F) (active : List String) (id provider : String)
        → Reach reg h s active
        → contains active id ≡ true
        → Reach reg h (leave_slot zero_ms mix is_known to_ms s provider) active
    fails :
        (s : Scheduler F) (active : List String) (id outcome : String) (now : ℕ)
        → Reach reg h s active
        → contains active id ≡ true
        → Reach reg h (fail_probe zero_ms mix is_known to_ms s id outcome now) active
    measures :
        (s : Scheduler F) (active : List String) (id : String) (elapsed now : ℕ)
        → Reach reg h s active
        → contains active id ≡ true
        → Reach reg h (record_success zero_ms mix is_known to_ms s id elapsed now) active
    finishes :
        (s : Scheduler F) (active : List String) (id : String)
        → Reach reg h s active
        → contains active id ≡ true
        → Reach reg h (finish_probe zero_ms mix is_known to_ms s id) (remove_ids active (id ∷ []))

  pub record Inv (s : Scheduler F) (active : List String) : Type 0 where
    pub alone : IsDistinct active
    pub held : (id : String) → flag_or_false (lookup id s.in_flight) ≡ contains active id
    pub bounded : (id : String) → IsBounded (lookup id s.backoffs)

  claims-Inv :
      (s : Scheduler F) (active : List String) (id : String) (now : ℕ)
      → Inv s active
      → (claim_probe zero_ms mix is_known to_ms s id now).1 ≡ true
      → Inv (claim_probe zero_ms mix is_known to_ms s id now).0 (id ∷ active)
  unfolding claim_probe is_in_flight contains
  claims-Inv s active id now v e =
      elim (Bool-cases (
        is_in_flight zero_ms mix is_known to_ms s id
        || ltb now (backoff_of zero_ms mix is_known to_ms s id).next_at)) [
          | inl h ↦ absurd (false≢true (rw (h, claim_probe) at e))
          | inr h ↦
              rw (h, claim_probe)
                (record {
                  alone = (let k = v.held id in ground (arith, k), v.alone);
                  held = λ j.
                      let k = v.held j in ground (arith, k, lookup-assign id j true s.in_flight);
                  bounded = v.bounded;
                })
        ]

  fails-Inv :
      (s : Scheduler F) (active : List String) (id outcome : String) (now : ℕ)
      → Inv s active
      → Inv (fail_probe zero_ms mix is_known to_ms s id outcome now) active
  unfolding fail_probe backoff_of
  fails-Inv s active id outcome now v = elim (Bool-cases (str_eq outcome "canceled")) [
    | inl h ↦ rw (h, fail_probe) (record { alone = v.alone; held = v.held; bounded = v.bounded })
    | inr h ↦
        rw (h, fail_probe)
          (record {
            alone = v.alone;
            held = v.held;
            bounded = λ j.
                IsBounded-assign id j _ s.backoffs
                  (next_delay-bounds zero_ms mix is_known to_ms (lookup id s.backoffs)
                    (v.bounded id))
                  (v.bounded j);
          })
  ]

  finishes-Inv :
      (s : Scheduler F) (active : List String) (id : String)
      → Inv s active
      → Inv (finish_probe zero_ms mix is_known to_ms s id) (remove_ids active (id ∷ []))
  unfolding finish_probe contains
  finishes-Inv s active id v = record {
    alone = remove_ids-IsDistinct active (id ∷ []) v.alone;
    held = λ j.
        let k = v.held j in
        ground (arith, k, lookup-delete id j s.in_flight, contains-remove_ids active (id ∷ []) j);
    bounded = v.bounded;
  }

  measures-Inv :
      (s : Scheduler F) (active : List String) (id : String) (elapsed now : ℕ)
      → Inv s active
      → Inv (record_success zero_ms mix is_known to_ms s id elapsed now) active
  unfolding record_success
  measures-Inv s active id elapsed now v = record {
    alone = v.alone;
    held = v.held;
    bounded = λ j. IsBounded-delete id j s.backoffs (v.bounded j);
  }

  -- However the probes of a scheduler interleave: no route is probed by two workers at once, the
  -- map of the routes in flight says exactly which are being probed, and every backoff is between
  -- 30 seconds and 10 minutes.
  pub Reach-Inv :
      (reg : Registry F) (h : Manager) (s : Scheduler F) (active : List String)
      → Reach reg h s active
      → Inv s active
  unfolding contains lookup begin enter_slot leave_slot
  Reach-Inv reg h s active fresh = record { alone = tt; held = λ j. refl; bounded = λ j. tt }
  Reach-Inv reg h t active (claims s a id now r e) = claims-Inv s a id now (Reach-Inv reg h s a r) e
  Reach-Inv reg h t active (begins s a id now r e) =
      let v = Reach-Inv reg h s a r in
      record { alone = v.alone; held = v.held; bounded = v.bounded }
  Reach-Inv reg h t active (takes s a id p r e) =
      let v = Reach-Inv reg h s a r in
      record { alone = v.alone; held = v.held; bounded = v.bounded }
  Reach-Inv reg h t active (frees s a id p r e) =
      let v = Reach-Inv reg h s a r in
      record { alone = v.alone; held = v.held; bounded = v.bounded }
  Reach-Inv reg h t active (fails s a id outcome now r e) =
      fails-Inv s a id outcome now (Reach-Inv reg h s a r)
  Reach-Inv reg h t active (measures s a id elapsed now r e) =
      measures-Inv s a id elapsed now (Reach-Inv reg h s a r)
  Reach-Inv reg h t active (finishes s a id r e) = finishes-Inv s a id (Reach-Inv reg h s a r)
