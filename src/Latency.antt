-- ===== src/Latency.antt =====
-- internal/latency/latency.go: the averages of each route. Every method is one step on the registry,
-- with the clock as an argument, in nanoseconds and with Go's zero time as 0. The arithmetic of floats
-- is a parameter: `mix` is the weighted sum of `Add`, `is_known` the test `> UnknownMs`.
pub mod Fresh
pub mod Display
use free_model_router.Prelude.{
  ℕ, ◌+◌, String, Bool, true, false, not, ◌&&◌, ◌||◌, Option, none, some, ltb, leb, ◌==◌,
  if◌then◌else◌,
}
use free_model_router.Prelude.Dict.{Dict, lookup, assign}
use free_model_router.Prelude.Int.{ℤ, is_positive, to_ℕ}

pub record Ewma (F : Type 0) : Type 0 where
  pub val : F
  pub n : ℕ

pub record Stats (F : Type 0) : Type 0 where
  pub probe_ttft : Ewma F
  pub request_ttft : Ewma F
  pub request_total : Ewma F
  pub last_probe_at : ℕ
  pub last_request_at : ℕ
  pub last_probe_outcome : String
  pub last_probe_attempt_at : ℕ

abbrev pub Registry : Type 0 → Type 0
Registry F = Dict (Stats F)

-- `0 < maxAge && !at.IsZero() && now.Sub(at) <= maxAge`
abbrev pub is_fresh : ℕ → ℤ → ℕ → Bool
is_fresh now max_age at = is_positive max_age && not (at == 0) && leb now (at + to_ℕ max_age)

-- `SampleView`; the value is `none` where nothing was ever measured.
pub record SampleView (F : Type 0) : Type 0 where
  pub known : Bool
  pub fresh : Bool
  pub value : Option F
  pub source : String
  pub measured_at : ℕ
  pub probe_outcome : String
  pub probe_attempt_at : ℕ

module _ {F : Type 0} (zero_ms : F) (mix : F → F → F) (is_known : F → Bool) where
  -- `New`
  abbrev pub new_ewma : Ewma F
  new_ewma = record { val = zero_ms; n = 0 }

  -- `(*EWMA).Add`
  unfoldable pub add : Ewma F → F → Ewma F
  add e sample = record { val = if e.n == 0 then sample else mix sample e.val; n = e.n + 1 }

  -- `(*EWMA).Value`
  unfoldable pub value : Ewma F → Option F
  value e = if e.n == 0 then none else some e.val

  -- `NewStats`
  abbrev pub new_stats : Stats F
  new_stats = record {
    probe_ttft = new_ewma;
    request_ttft = new_ewma;
    request_total = new_ewma;
    last_probe_at = 0;
    last_request_at = 0;
    last_probe_outcome = "";
    last_probe_attempt_at = 0;
  }

  abbrev pub stats_or_new : Option (Stats F) → Stats F
  stats_or_new none = new_stats
  stats_or_new (some s) = s

  -- `For`
  unfoldable pub stats_for : Registry F → String → Stats F
  stats_for r id = stats_or_new (lookup id r)

  -- `RecordProbe`
  unfoldable pub record_probe : Registry F → String → F → ℕ → Registry F
  record_probe r id ms now =
      let s = stats_for r id in
      if is_known ms
      then assign id
          (record s {
            probe_ttft = add s.probe_ttft ms;
            last_probe_at = now;
            last_probe_outcome = "success";
          })
          r
      else r

  -- `BeginProbe`
  unfoldable pub begin_probe : Registry F → String → ℕ → Registry F
  begin_probe r id now =
      let s = stats_for r id in
      assign id (record s { last_probe_attempt_at = now; last_probe_outcome = "probing" }) r

  -- `MarkProbeFailure`
  unfoldable pub mark_probe_failure : Registry F → String → String → Registry F
  mark_probe_failure r id outcome =
      let s = stats_for r id in assign id (record s { last_probe_outcome = outcome }) r

  abbrev pub with_ttft : Stats F → F → ℕ → Stats F
  with_ttft s ms now =
      if is_known ms
      then record s { request_ttft = add s.request_ttft ms; last_request_at = now }
      else s

  abbrev pub with_total : Stats F → F → Stats F
  with_total s ms = if is_known ms then record s { request_total = add s.request_total ms } else s

  -- `RecordRequest`
  unfoldable pub record_request : Registry F → String → F → F → ℕ → Registry F
  record_request r id ttft total now =
      assign id (with_total (with_ttft (stats_for r id) ttft now) total) r

  abbrev pub fresh_of : ℕ → ℤ → Option (Stats F) → Option F
  fresh_of now max_age none = none
  fresh_of now max_age (some s) =
      elim (if is_fresh now max_age s.last_probe_at then value s.probe_ttft else none) [
        | some v ↦ some v
        | none ↦ if is_fresh now max_age s.last_request_at then value s.request_ttft else none
      ]

  -- `FreshTTFT`
  unfoldable pub fresh_ttft : Registry F → String → ℕ → ℤ → Option F
  fresh_ttft r id now max_age = fresh_of now max_age (lookup id r)

  abbrev pub effective_of : Option (Stats F) → Option F
  effective_of none = none
  effective_of (some s) = elim (value s.probe_ttft) [
    | some v ↦ some v
    | none ↦ value s.request_ttft
  ]

  -- `EffectiveTTFT`
  unfoldable pub effective_ttft : Registry F → String → Option F
  effective_ttft r id = effective_of (lookup id r)

  abbrev pub is_measured : Option F → Bool
  is_measured none = false
  is_measured (some v) = true

  abbrev pub seen_as : Stats F → Bool → Option F → String → ℕ → SampleView F
  seen_as s fresh v source at = record {
    known = true;
    fresh = fresh;
    value = v;
    source = source;
    measured_at = at;
    probe_outcome = s.last_probe_outcome;
    probe_attempt_at = s.last_probe_attempt_at;
  }

  abbrev pub view_of : ℕ → ℤ → Option (Stats F) → SampleView F
  view_of now max_age none = record {
    known = false;
    fresh = false;
    value = none;
    source = "";
    measured_at = 0;
    probe_outcome = "";
    probe_attempt_at = 0;
  }
  view_of now max_age (some s) =
      let probe_known = is_measured (value s.probe_ttft) in
      let request_known = is_measured (value s.request_ttft) in
      if probe_known && is_fresh now max_age s.last_probe_at
      then seen_as s true (value s.probe_ttft) "probe" s.last_probe_at
      else if request_known && is_fresh now max_age s.last_request_at
      then seen_as s true (value s.request_ttft) "request" s.last_request_at
      else if request_known && (not probe_known || ltb s.last_probe_at s.last_request_at)
      then seen_as s false (value s.request_ttft) "request" s.last_request_at
      else if probe_known
      then seen_as s false (value s.probe_ttft) "probe" s.last_probe_at
      else record {
        known = false;
        fresh = false;
        value = none;
        source = "";
        measured_at = 0;
        probe_outcome = s.last_probe_outcome;
        probe_attempt_at = s.last_probe_attempt_at;
      }

  -- `(*Registry).Snapshot`
  unfoldable pub snapshot : Registry F → String → ℕ → ℤ → SampleView F
  snapshot r id now max_age = view_of now max_age (lookup id r)
