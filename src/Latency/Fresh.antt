-- ===== src/Latency/Fresh.antt =====
-- The latency that routing sees, over any history of probes and requests.

-- What is recorded of routes.
use free_model_router.Prelude.{
  ℕ, String, ◌≡◌, refl, ap, ◌∙◌, inl, inr, Bool, true, false, ◌&&◌, Option, none, some, List, [],
  ◌∷◌, arith, ◌==◌, if◌then◌else◌, Bool-cases,
}
use free_model_router.Latency.{
  Registry, record_probe, is_fresh, stats_for, begin_probe, fresh_ttft, mark_probe_failure,
  record_request, Ewma, Stats, add, value, fresh_of, with_total, stats_or_new,
}
use free_model_router.Prelude.Text.{str_eq, str_eq→eq}
use free_model_router.Prelude.Int.{ℤ}
use free_model_router.Prelude.Dict.{assign, lookup-assign, lookup}

pub data Event (F : Type 0) : Type 0 where
  probed : String → F → ℕ → Event F
  begins : String → ℕ → Event F
  failed : String → String → Event F
  requested : String → F → F → ℕ → Event F

-- The reference: the average and the time of the last measurement of one route, by kind.
pub record View (F : Type 0) : Type 0 where
  pub probe : Option (F × ℕ)
  pub request : Option (F × ℕ)

module _ {F : Type 0} (zero_ms : F) (mix : F → F → F) (is_known : F → Bool) where
  unfoldable pub handle : Registry F → Event F → Registry F
  handle r (probed id ms now) = record_probe zero_ms mix is_known r id ms now
  handle r (begins id now) = begin_probe zero_ms mix is_known r id now
  handle r (failed id outcome) = mark_probe_failure zero_ms mix is_known r id outcome
  handle r (requested id ttft total now) = record_request zero_ms mix is_known r id ttft total now

  unfoldable pub handle_all : Registry F → List (Event F) → Registry F
  handle_all r [] = r
  handle_all r (e ∷ es) = handle_all (handle r e) es

  abbrev pub measure : Option (F × ℕ) → F → ℕ → Option (F × ℕ)
  measure none ms now = some (ms, now)
  measure (some v) ms now = some (mix ms v.0, now)

  abbrev pub observe : String → View F → Event F → View F
  observe id v (probed q ms now) =
      if str_eq q id && is_known ms then record v { probe = measure v.probe ms now } else v
  observe id v (begins q now) = v
  observe id v (failed q outcome) = v
  observe id v (requested q ttft total now) =
      if str_eq q id && is_known ttft then record v { request = measure v.request ttft now } else v

  abbrev pub observe_all : String → View F → List (Event F) → View F
  observe_all id v [] = v
  observe_all id v (e ∷ es) = observe_all id (observe id v e) es

  abbrev pub fresh_value : ℕ → ℤ → Option (F × ℕ) → Option F
  fresh_value now max_age none = none
  fresh_value now max_age (some v) = if is_fresh now max_age v.1 then some v.0 else none

  abbrev pub first_of : Option F → Option F → Option F
  first_of (some v) other = some v
  first_of none other = other

  -- What an average says, with the time of its last sample.
  abbrev measured : Ewma F → ℕ → Option (F × ℕ)
  measured e at = if e.n == 0 then none else some (e.val, at)

  abbrev view_of_stats : Stats F → View F
  view_of_stats s = record {
    probe = measured s.probe_ttft s.last_probe_at;
    request = measured s.request_ttft s.last_request_at;
  }

  abbrev view : Registry F → String → View F
  view r id = view_of_stats (stats_for zero_ms mix is_known r id)

  stats_for-assign :
      (r : Registry F) (q id : String) (s : Stats F)
      → stats_for zero_ms mix is_known (assign q s r) id
        ≡ (if str_eq q id then s else stats_for zero_ms mix is_known r id)
  unfolding stats_for
  stats_for-assign r q id s = ground (arith, lookup-assign q id s r)

  measured-add :
      (e : Ewma F) (ms : F) (before now : ℕ)
      → measured (add zero_ms mix is_known e ms) now ≡ measure (measured e before) ms now
  unfolding add
  measured-add e ms before now = elim (Bool-cases (e.n == 0)) [
    | inl first_one ↦ rw (first_one) (ground arith)
    | inr later ↦ rw (later) (ground arith)
  ]

  view-assign :
      (r : Registry F) (q id : String) (s : Stats F)
      → view (assign q s r) id ≡ (if str_eq q id then view_of_stats s else view r id)
  view-assign r q id s = ap view_of_stats (stats_for-assign r q id s) ∙ through (str_eq q id)
    where
      through :
          (b : Bool)
          → view_of_stats (if b then s else stats_for zero_ms mix is_known r id)
            ≡ (if b then view_of_stats s else view r id)
      through true = refl
      through false = refl

  -- A new entry for a route changes the views as `f` says, for that route only.
  view-update :
      (r : Registry F) (q id : String) (s : Stats F) (f : View F → View F)
      → view_of_stats s ≡ f (view r q)
      → view (assign q s r) id ≡ (if str_eq q id then f (view r id) else view r id)
  view-update r q id s f h = view-assign r q id s ∙ go (str_eq q id) refl
    where
      go :
          (b : Bool)
          → str_eq q id ≡ b
          → (if b then view_of_stats s else view r id) ≡ (if b then f (view r id) else view r id)
      go true same = h ∙ ap (λ x. f (view r x)) (str_eq→eq q id same)
      go false other = refl

  unchanged : (b : Bool) (v : View F) → (if b then v else v) ≡ v
  unchanged true v = refl
  unchanged false v = refl

  begin_lem :
      (r : Registry F) (id q : String) (now : ℕ)
      → view (begin_probe zero_ms mix is_known r q now) id ≡ view r id
  unfolding begin_probe
  begin_lem r id q now = view-update r q id _ (λ v. v) refl ∙ unchanged (str_eq q id) (view r id)

  fail_lem :
      (r : Registry F) (id q : String) (outcome : String)
      → view (mark_probe_failure zero_ms mix is_known r q outcome) id ≡ view r id
  unfolding mark_probe_failure
  fail_lem r id q outcome = view-update r q id _ (λ v. v) refl ∙ unchanged (str_eq q id) (view r id)

  probe_lem :
      (r : Registry F) (id q : String) (ms : F) (now : ℕ)
      → view (record_probe zero_ms mix is_known r q ms now) id
        ≡ observe id (view r id) (probed q ms now)
  unfolding record_probe
  probe_lem r id q ms now = elim (Bool-cases (is_known ms)) [
    | inr dropped ↦ ground (arith, dropped)
    | inl kept ↦
        let s = stats_for zero_ms mix is_known r q in
        ground (
          arith,
          kept,
          view-update r q id
              (record s {
                probe_ttft = add zero_ms mix is_known s.probe_ttft ms;
                last_probe_at = now;
                last_probe_outcome = "success";
              })
              (λ v. record v { probe = measure v.probe ms now })
              (ap (λ x. record { probe = x; request = measured s.request_ttft s.last_request_at })
                (measured-add s.probe_ttft ms s.last_probe_at now)),
        )
  ]

  total_lem :
      (s : Stats F) (ms : F)
      → view_of_stats (with_total zero_ms mix is_known s ms) ≡ view_of_stats s
  total_lem s ms = elim (Bool-cases (is_known ms)) [
    | inl kept ↦ rw (kept) refl
    | inr dropped ↦ rw (dropped) refl
  ]

  request_lem :
      (r : Registry F) (id q : String) (ttft total : F) (now : ℕ)
      → view (record_request zero_ms mix is_known r q ttft total now) id
        ≡ observe id (view r id) (requested q ttft total now)
  unfolding record_request
  request_lem r id q ttft total now = elim (Bool-cases (is_known ttft)) [
    | inr dropped ↦
        let s = stats_for zero_ms mix is_known r q in
        rw (dropped) (
          view-update r q id (with_total zero_ms mix is_known s total) (λ v. v) (total_lem s total)
          ∙ ground arith)
    | inl kept ↦
        let s = stats_for zero_ms mix is_known r q in
        let t : Stats F = record s {
          request_ttft = add zero_ms mix is_known s.request_ttft ttft;
          last_request_at = now;
        } in
        rw (kept) (
          view-update r q id (with_total zero_ms mix is_known t total)
            (λ v. record v { request = measure v.request ttft now })
            (total_lem t total
              ∙ ap (λ x. record { probe = measured s.probe_ttft s.last_probe_at; request = x })
                  (measured-add s.request_ttft ttft s.last_request_at now))
          ∙ ground arith)
  ]

  view-handle :
      (r : Registry F) (id : String) (e : Event F) → view (handle r e) id ≡ observe id (view r id) e
  unfolding handle
  view-handle r id (probed q ms now) = probe_lem r id q ms now
  view-handle r id (begins q now) = begin_lem r id q now
  view-handle r id (failed q outcome) = fail_lem r id q outcome
  view-handle r id (requested q ttft total now) = request_lem r id q ttft total now

  view-handle_all :
      (es : List (Event F)) (r : Registry F) (id : String)
      → view (handle_all r es) id ≡ observe_all id (view r id) es
  unfolding handle_all
  view-handle_all [] r id = refl
  view-handle_all (e ∷ es) r id =
      view-handle_all es (handle r e) id ∙ ap (λ v. observe_all id v es) (view-handle r id e)

  nothing_yet : (id : String) → view [] id ≡ record { probe = none; request = none }
  unfolding stats_for lookup
  nothing_yet id = refl

  fresh_ttft-view :
      (r : Registry F) (id : String) (now : ℕ) (max_age : ℤ)
      → fresh_ttft zero_ms mix is_known r id now max_age
        ≡ first_of
            (fresh_value now max_age (view r id).probe)
            (fresh_value now max_age (view r id).request)
  unfolding fresh_ttft stats_for value
  fresh_ttft-view r id now max_age = go (lookup id r)
    where
      go :
          (o : Option (Stats F))
          → fresh_of zero_ms mix is_known now max_age o
            ≡ first_of
                (fresh_value now max_age
                  (view_of_stats (stats_or_new zero_ms mix is_known o)).probe)
                (fresh_value now max_age
                  (view_of_stats (stats_or_new zero_ms mix is_known o)).request)
      go none = refl
      go (some s) = ground arith

  -- After any history of probes and requests, of this and of other routes, the latency that routing
  -- sees of a route is the average of its own measured probes if the last of them is fresh, else that
  -- of its own measured requests if the last of them is fresh, and else none; probes that begin or
  -- fail, unknown samples and other routes make no difference.
  pub fresh_ttft-handle_all :
      (es : List (Event F)) (id : String) (now : ℕ) (max_age : ℤ)
      → let v = observe_all id (record { probe = none; request = none }) es in
        fresh_ttft zero_ms mix is_known (handle_all [] es) id now max_age
        ≡ first_of (fresh_value now max_age v.probe) (fresh_value now max_age v.request)
  fresh_ttft-handle_all es id now max_age =
      fresh_ttft-view (handle_all [] es) id now max_age
      ∙ ap (λ v. first_of (fresh_value now max_age v.probe) (fresh_value now max_age v.request))
          (view-handle_all es [] id ∙ ap (λ v. observe_all id v es) (nothing_yet id))
