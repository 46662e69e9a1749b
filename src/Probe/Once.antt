-- ===== src/Probe/Once.antt =====
-- One probe from its claim to its end, as steps of a worker.
use free_model_router.Probe.{
  Scheduler, ProbeRun, Answer, failed, measured, probe_once, probe_claimed, claim_probe, on_answer,
  answer_of, if_claimed, outcome_of, is_in_flight, backoff_of,
}
use free_model_router.Probe.Reach.{
  Reach, claims, begins, takes, frees, fails, measures, finishes, Reach-Inv, Inv,
}
use free_model_router.Router.Filter.Eligible.{contains-cons_self}
use free_model_router.Catalog.Pool.{contains, remove_ids}
use free_model_router.Health.{Manager}
use free_model_router.Latency.{Registry}
use free_model_router.Prelude.{
  ℕ, String, ◌≡◌, refl, sym, ap, ◌∙◌, inl, inr, Bool, true, false, not, ◌||◌, List, [], ◌∷◌, arith,
  ltb, Bool-cases,
}
use free_model_router.Gateway.Errors.{is_nil}
use free_model_router.Prelude.Text.{str_eq, str_eq→eq}
use free_model_router.Catalog.Pool.Selection.{contains-remove_ids}
use mathlib.Core.Path.{subst}
use mathlib.Core.Bool.{false≢true}

module _ {F : Type 0} (zero_ms : F) (mix : F → F → F) (is_known : F → Bool) (to_ms : ℕ → F)
    (reg : Registry F) (h : Manager) where
  on_answer-Reach :
      (s : Scheduler F) (active : List String) (id : String) (run : ProbeRun) (a : Answer)
      → Reach zero_ms mix is_known to_ms reg h s active
      → contains active id ≡ true
      → Reach zero_ms mix is_known to_ms reg h
          (on_answer zero_ms mix is_known to_ms s id run a)
          active
  on_answer-Reach s active id run (failed e) r k =
      fails s active id (outcome_of run e) run.failed_at r k
  on_answer-Reach s active id run measured r k =
      measures s active id run.elapsed run.measured_at r k

  probe_claimed-Reach :
      (s : Scheduler F) (active : List String) (id : String) (run : ProbeRun)
      → Reach zero_ms mix is_known to_ms reg h s active
      → contains active id ≡ true
      → Reach zero_ms mix is_known to_ms reg h
          (probe_claimed zero_ms mix is_known to_ms s id run)
          active
  unfolding probe_claimed
  probe_claimed-Reach s active id run r k =
      let slotted = takes s active id run.provider r k in
      elim (Bool-cases (not (is_nil run.slot_error))) [
        | inl e ↦ rw e r
        | inr e ↦ elim (Bool-cases run.canceled_in_slot) [
          | inl c ↦ rw (e, c) (frees _ active id run.provider slotted k)
          | inr c ↦
              rw (e, c)
                (frees _ active id run.provider
                  (on_answer-Reach _ active id run (answer_of run)
                    (begins _ active id run.begun_at slotted k) k)
                  k)
        ]
      ]

  -- The active routes after a claim, a probe and its end are those before.
  same_active :
      (active : List String) (id j : String)
      → contains active id ≡ false
      → contains (remove_ids (id ∷ active) (id ∷ [])) j ≡ contains active j
  unfolding contains
  same_active active id j free = elim (Bool-cases (str_eq id j)) [
    | inl e ↦ ground (
      arith,
      contains-remove_ids (id ∷ active) (id ∷ []) j,
      ap (contains active) (str_eq→eq id j e),
    )
    | inr e ↦ ground (arith, contains-remove_ids (id ∷ active) (id ∷ []) j)
  ]

  -- A state of the workers in which exactly the given routes are being probed.
  pub record IsProbing (s : Scheduler F) (active : List String) : Type 0 where
    pub active_now : List String
    pub reached : Reach zero_ms mix is_known to_ms reg h s active_now
    pub sound : Inv zero_ms mix is_known to_ms s active_now
    pub same : (j : String) → contains active_now j ≡ contains active j

  unchanged :
      (s : Scheduler F) (active : List String)
      → Reach zero_ms mix is_known to_ms reg h s active
      → IsProbing s active
  unchanged s active r = record {
    active_now = active;
    reached = r;
    sound = Reach-Inv zero_ms mix is_known to_ms reg h s active r;
    same = λ j. refl;
  }

  claim_probe-false :
      (s : Scheduler F) (id : String) (now : ℕ)
      → (claim_probe zero_ms mix is_known to_ms s id now).1 ≡ false
      → (claim_probe zero_ms mix is_known to_ms s id now).0 ≡ s
  unfolding claim_probe is_in_flight backoff_of
  claim_probe-false s id now e =
      elim (Bool-cases (
        is_in_flight zero_ms mix is_known to_ms s id
        || ltb now (backoff_of zero_ms mix is_known to_ms s id).next_at)) [
          | inl k ↦ rw (k, claim_probe) refl
          | inr k ↦ absurd (false≢true (sym (rw (k, claim_probe) at e)))
        ]

  if_claimed-IsProbing :
      (s : Scheduler F) (active : List String) (id : String) (run : ProbeRun)
      (o : Scheduler F × Bool)
      → o ≡ claim_probe zero_ms mix is_known to_ms s id run.claimed_at
      → Reach zero_ms mix is_known to_ms reg h s active
      → IsProbing (if_claimed zero_ms mix is_known to_ms s id run o) active
  unfolding contains
  if_claimed-IsProbing s active id run (t, true) e r =
      let claimed =
        subst (λ x. Reach zero_ms mix is_known to_ms reg h x (id ∷ active)) (sym (ap (λ x. x.0) e))
          (claims s active id run.claimed_at r (sym (ap (λ x. x.1) e))) in
      let own = contains-cons_self id active in
      let v = Reach-Inv zero_ms mix is_known to_ms reg h t (id ∷ active) claimed in
      let after =
        finishes _ (id ∷ active) id (probe_claimed-Reach t (id ∷ active) id run claimed own) own in
      record {
        active_now = remove_ids (id ∷ active) (id ∷ []);
        reached = after;
        sound =
            Reach-Inv zero_ms mix is_known to_ms reg h _ (remove_ids (id ∷ active) (id ∷ [])) after;
        same = λ j. same_active active id j v.alone.0;
      }
  if_claimed-IsProbing s active id run (t, false) e r =
      subst (λ x. IsProbing x active)
        (sym (ap (λ x. x.0) e ∙ claim_probe-false s id run.claimed_at (sym (ap (λ x. x.1) e))))
        (unchanged s active r)

  -- Whatever happens to one probe, and whatever other probes are under way: the state it leaves is
  -- reached by the workers' steps, no route is probed by two workers at once, every backoff is between
  -- 30 seconds and 10 minutes, the map of the routes in flight says exactly which are being probed, and
  -- these are the routes that were being probed before. So no path leaves its route in flight, or
  -- frees one that another worker probes.
  pub probe_once-IsProbing :
      (s : Scheduler F) (active : List String) (id : String) (run : ProbeRun)
      → Reach zero_ms mix is_known to_ms reg h s active
      → IsProbing (probe_once zero_ms mix is_known to_ms s id run) active
  unfolding probe_once
  probe_once-IsProbing s active id run r = elim (Bool-cases run.canceled) [
    | inl k ↦ rw k (unchanged s active r)
    | inr k ↦ rw k (if_claimed-IsProbing s active id run _ refl r)
  ]
