-- ===== src/Probe.antt =====
-- internal/probe/probe.go: what a probe leaves behind (Eligible: which routes are probed). The scheduler's
-- methods are steps on its state, with the clock and what the upstream answers as arguments; times
-- are nanoseconds, with Go's zero time as 0. The slot that a probe holds is that of the health manager.
pub mod Eligible
pub mod Targets
pub mod Reach
pub mod Once
use free_model_router.Prelude.Dict.{Dict, lookup, assign, delete}
use free_model_router.Gateway.Errors.{
  Error, nil, eof, deadline_exceeded, is_nil, is_deadline, is_eof,
}
use free_model_router.Gateway.Response.{StreamEvent, has_any}
use free_model_router.Health.{
  Manager, route_failure, route_success, available, take_slot, release_slot,
}
use free_model_router.Latency.{Registry, begin_probe, mark_probe_failure, record_probe}
use free_model_router.Catalog.Reconcile.{flag_or_false}
use free_model_router.Catalog.Pool.{RouteMap, contains}
use free_model_router.Router.Filter.{health_vetoes}
use free_model_router.Model.Route.{ProviderModelId, ProviderModel, ProviderRoute, allows_probe}
use free_model_router.Model.Snapshot.{CatalogSnapshot, entries}
use free_model_router.Prelude.{
  ℕ, zero, suc, ◌+◌, ◌-◌, ◌*◌, ◌/◌, ◌%◌, ◌^◌, ◌≤◌, ◌<◌, String, ◌≡◌, refl, sym, ap, ◌∙◌, ◌≢◌, ◌↔◌,
  ◌⊎◌, inl, inr, Bool, true, false, not, ◌&&◌, ◌||◌, Option, none, some, List, [], ◌∷◌, ◌++◌, arith,
  ltb, leb, ◌==◌, if◌then◌else◌, Bool-cases, Option-cases, &&_iff, bool_ext, Result, ok, err,
  Result-cases, length, All, length-append, All-append, In, In-append_left, In-append_right,
  In-append_cases, All-In,
}
use free_model_router.Prelude.Text.{str_eq}
use free_model_router.Prelude.Int.{pos}

-- `probeBackoff`
pub record ProbeBackoff : Type 0 where
  pub delay : ℕ
  pub next_at : ℕ

-- `baseProbeBackoff` and `maxProbeBackoff`, 30 seconds and 10 minutes
abbrev pub base_probe_backoff : ℕ
base_probe_backoff = 30_000_000_000

abbrev pub max_probe_backoff : ℕ
max_probe_backoff = 600_000_000_000

-- The part of `Scheduler` that probes read and write.
pub record Scheduler (F : Type 0) : Type 0 where
  pub reg : Registry F
  pub health : Manager
  pub backoffs : Dict ProbeBackoff
  pub in_flight : Dict Bool

abbrev pub backoff_or_zero : Option ProbeBackoff → ProbeBackoff
backoff_or_zero none = record { delay = 0; next_at = 0 }
backoff_or_zero (some b) = b

abbrev min : ℕ → ℕ → ℕ
min a b = if ltb b a then b else a

-- What happens to one probe of a route of `provider`. Behind its reads the stream ends with `io.EOF`;
-- `ctx_err` and `deadline` are what the contexts say when the probe fails.
pub record ProbeRun : Type 0 where
  pub provider : String
  pub canceled : Bool
  pub claimed_at : ℕ
  pub slot_error : Error
  pub canceled_in_slot : Bool
  pub begun_at : ℕ
  pub call_error : Error
  pub reads : List (StreamEvent × Error)
  pub ctx_err : Bool
  pub deadline : Bool
  pub elapsed : ℕ
  pub failed_at : ℕ
  pub measured_at : ℕ

-- How the loop over the stream ends.
pub data Answer : Type 0 where
  failed : Error → Answer
  measured : Answer

-- A delta of text, of reasoning or of a tool call.
abbrev pub is_token : StreamEvent → Bool
is_token ev =
    not (str_eq ev.delta_text "") || not (str_eq ev.reasoning_content "") || has_any ev.tool_calls

-- the loop of `probeOnce` over the stream
unfoldable pub read_stream : List (StreamEvent × Error) → Answer
read_stream [] = failed eof
read_stream ((ev, e) ∷ reads) =
    let rest = read_stream reads in
    if not (is_nil e)
    then failed e
    else if is_token ev
    then measured
    else if not (str_eq ev.finish_reason "")
    then failed eof
    else rest

unfoldable pub answer_of : ProbeRun → Answer
unfolding read_stream
answer_of run = if not (is_nil run.call_error) then failed run.call_error else read_stream run.reads

-- the outcome that the closure `failed` of `probeOnce` reports
unfoldable pub outcome_of : ProbeRun → Error → String
outcome_of run e =
    if run.ctx_err
    then "canceled"
    else if run.deadline || is_deadline e
    then "timeout"
    else if is_eof e
    then "no_semantic"
    else "error"

module _ {F : Type 0} (zero_ms : F) (mix : F → F → F) (is_known : F → Bool) (to_ms : ℕ → F) where
  -- `New`
  abbrev pub new_scheduler : Registry F → Manager → Scheduler F
  new_scheduler reg h = record { reg = reg; health = h; backoffs = []; in_flight = [] }

  unfoldable pub backoff_of : Scheduler F → String → ProbeBackoff
  backoff_of s id = backoff_or_zero (lookup id s.backoffs)

  unfoldable pub is_in_flight : Scheduler F → String → Bool
  is_in_flight s id = flag_or_false (lookup id s.in_flight)

  -- `claimProbe`
  unfoldable pub claim_probe : Scheduler F → String → ℕ → Scheduler F × Bool
  unfolding is_in_flight backoff_of
  claim_probe s id now =
      if is_in_flight s id || ltb now (backoff_of s id).next_at
      then (s, false)
      else (record s { in_flight = assign id true s.in_flight }, true)

  -- `finishProbe`
  unfoldable pub finish_probe : Scheduler F → String → Scheduler F
  finish_probe s id = record s { in_flight = delete id s.in_flight }

  abbrev pub next_delay : ℕ → ℕ
  next_delay d = if d == 0 then base_probe_backoff else min (d * 2) max_probe_backoff

  -- `failProbe`, with the time at which it reads the clock
  unfoldable pub fail_probe : Scheduler F → String → String → ℕ → Scheduler F
  unfolding backoff_of
  fail_probe s id outcome now =
      let marked = mark_probe_failure zero_ms mix is_known s.reg id outcome in
      let delay = next_delay (backoff_of s id).delay in
      if str_eq outcome "canceled" then record s { reg = marked } else record s {
        reg = marked;
        backoffs = assign id (record { delay = delay; next_at = now + delay }) s.backoffs;
        health = route_failure s.health id (pos 0) now;
      }

  abbrev pub at_least_one : ℕ → ℕ
  at_least_one d = if d == 0 then 1 else d

  -- The branch of `probeOnce` for a measured delta: one of no duration counts as a nanosecond.
  unfoldable pub record_success : Scheduler F → String → ℕ → ℕ → Scheduler F
  record_success s id elapsed now = record s {
    reg = record_probe zero_ms mix is_known s.reg id (to_ms (at_least_one elapsed)) now;
    backoffs = delete id s.backoffs;
    health = route_success s.health id;
  }

  abbrev pub on_answer : Scheduler F → String → ProbeRun → Answer → Scheduler F
  on_answer s id run (failed e) = fail_probe s id (outcome_of run e) run.failed_at
  on_answer s id run measured = record_success s id run.elapsed run.measured_at

  -- The slot of the provider, taken and freed. A wait for it leaves a channel at most, which is left out.
  unfoldable pub enter_slot : Scheduler F → String → Scheduler F
  enter_slot s p = record s { health = take_slot s.health p }

  unfoldable pub leave_slot : Scheduler F → String → Scheduler F
  leave_slot s p = record s { health = release_slot s.health p }

  unfoldable pub begin : Scheduler F → String → ℕ → Scheduler F
  begin s id now = record s { reg = begin_probe zero_ms mix is_known s.reg id now }

  -- The part of `probeOnce` between the claim and the deferred `finishProbe`, the deferred `release` included.
  unfoldable pub probe_claimed : Scheduler F → String → ProbeRun → Scheduler F
  unfolding answer_of fail_probe record_success outcome_of enter_slot leave_slot begin
  probe_claimed s id run =
      let slotted = enter_slot s run.provider in
      let answered = on_answer (begin slotted id run.begun_at) id run (answer_of run) in
      if not (is_nil run.slot_error)
      then s
      else leave_slot (if run.canceled_in_slot then slotted else answered) run.provider

  abbrev pub if_claimed : Scheduler F → String → ProbeRun → Scheduler F × Bool → Scheduler F
  if_claimed s id run (t, true) = finish_probe (probe_claimed t id run) id
  if_claimed s id run (t, false) = t

  -- `probeOnce`
  unfoldable pub probe_once : Scheduler F → String → ProbeRun → Scheduler F
  unfolding claim_probe finish_probe probe_claimed
  probe_once s id run =
      if run.canceled then s else if_claimed s id run (claim_probe s id run.claimed_at)
