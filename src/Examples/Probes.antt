-- ===== src/Examples/Probes.antt =====
-- Two probes that overlap.
use free_model_router.Prelude.Dict.{lookup}
use free_model_router.Probe.{Scheduler, ProbeRun, new_scheduler, probe_once, claim_probe}
use free_model_router.Probe.Reach.{Reach, fresh, claims}
use free_model_router.Probe.Once.{IsProbing, probe_once-IsProbing}
use free_model_router.Health.{new_manager}
use free_model_router.Gateway.Errors.{nil, deadline_exceeded}
use free_model_router.Prelude.{ℕ, ◌+◌, ◌*◌, ◌/◌, refl, Bool, true, false, [], ◌∷◌, ltb}

abbrev averaged : ℕ → ℕ → ℕ
averaged sample old = (sample + 3 * old) / 4

abbrev nonzero : ℕ → Bool
nonzero ms = ltb 0 ms

abbrev whole_ms : ℕ → ℕ
whole_ms n = n / 1_000_000

abbrev idle : Scheduler ℕ
idle = new_scheduler 0 averaged nonzero whole_ms [] new_manager

-- A worker probes the first route.
abbrev busy : Scheduler ℕ
busy = (claim_probe 0 averaged nonzero whole_ms idle "oc::pickle" 1).0

busy-Reach : Reach 0 averaged nonzero whole_ms [] new_manager busy ("oc::pickle" ∷ [])
unfolding claim_probe lookup
busy-Reach = claims idle [] "oc::pickle" 1 fresh refl

-- The probe of another route meets its deadline.
abbrev slow : ProbeRun
slow = record {
  provider = "xai";
  canceled = false;
  claimed_at = 2;
  slot_error = nil;
  canceled_in_slot = false;
  begun_at = 3;
  call_error = deadline_exceeded;
  reads = [];
  ctx_err = false;
  deadline = true;
  elapsed = 0;
  failed_at = 10_000_000_003;
  measured_at = 0;
}

probe_once-IsProbing_example :
    IsProbing 0 averaged nonzero whole_ms [] new_manager
      (probe_once 0 averaged nonzero whole_ms busy "xai::grok" slow)
      ("oc::pickle" ∷ [])
probe_once-IsProbing_example =
    probe_once-IsProbing 0 averaged nonzero whole_ms [] new_manager busy ("oc::pickle" ∷ [])
      "xai::grok" slow busy-Reach
