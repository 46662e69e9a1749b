-- ===== src/Health.antt =====
-- internal/health/health.go: cooldown and quota of each route, and the concurrency slots of each
-- provider. Every method runs under the manager's lock and is one step on its state; the clock is an
-- argument, in nanoseconds, with Go's zero time as 0.
pub mod Cooldown
pub mod Slots
use free_model_router.Prelude.{
  ℕ, ◌+◌, Bool, true, false, not, ◌||◌, String, Option, none, some, List, [], ◌∷◌, if◌then◌else◌,
  ltb, ◌==◌,
}
use free_model_router.Prelude.Int.{ℤ, pos, suc_int64, pred_int64, ltb_ℤ, is_positive, to_ℕ}
use free_model_router.Prelude.Dict.{Dict, lookup, assign}

pub record RouteSnapshot : Type 0 where
  pub cooling_until : ℕ
  pub quota_exhausted : Bool
  pub consecutive_failures : ℤ

abbrev pub zero_snapshot : RouteSnapshot
zero_snapshot = record { cooling_until = 0; quota_exhausted = false; consecutive_failures = pos 0 }

-- A channel is a number. `changed` holds the current channel of a provider, `closed` the channels
-- that have been closed, and `fresh` the number that the next `make` takes.
pub record Manager : Type 0 where
  pub routes : Dict RouteSnapshot
  pub prov_cap : Dict ℤ
  pub in_flight : Dict ℤ
  pub changed : Dict ℕ
  pub closed : List ℕ
  pub fresh : ℕ

-- `New`
abbrev pub new_manager : Manager
new_manager = record {
  routes = [];
  prov_cap = [];
  in_flight = [];
  changed = [];
  closed = [];
  fresh = 0;
}

-- `m[k]` of a `map[string]int`: a missing key reads as 0.
abbrev pub int_or_zero : Option ℤ → ℤ
int_or_zero none = pos 0
int_or_zero (some n) = n

-- `ProviderCap`
unfoldable pub provider_cap : Manager → String → ℤ
provider_cap m p = int_or_zero (lookup p m.prov_cap)

unfoldable pub flying : Manager → String → ℤ
flying m p = int_or_zero (lookup p m.in_flight)

-- `changeChannelLocked`: the manager afterwards, and the channel.
abbrev pub or_make : Manager → String → Option ℕ → Manager × ℕ
or_make m p (some ch) = (m, ch)
or_make m p none = (record m { changed = assign p m.fresh m.changed; fresh = m.fresh + 1 }, m.fresh)

unfoldable pub change_channel : Manager → String → Manager × ℕ
change_channel m p = or_make m p (lookup p m.changed)

-- `notifyLocked`: the current channel is closed and replaced by a new one.
unfoldable pub notify : Manager → String → Manager
unfolding change_channel
notify m p =
    let (m', ch) = change_channel m p in
    record m' {
      closed = ch ∷ m'.closed;
      changed = assign p m'.fresh m'.changed;
      fresh = m'.fresh + 1;
    }

-- `SetProviderCap`
unfoldable pub set_provider_cap : Manager → String → ℤ → Manager
unfolding notify
set_provider_cap m p n = notify (record m { prov_cap = assign p n m.prov_cap }) p

-- `cap <= 0 || m.inFlight[provider] < cap`
unfoldable pub has_room : Manager → String → Bool
unfolding provider_cap flying
has_room m p = not (is_positive (provider_cap m p)) || ltb_ℤ (flying m p) (provider_cap m p)

-- One round of the loop of `AcquireSlot`, under the lock: the request was canceled, a slot is taken,
-- or the caller goes to wait on a channel.
pub data Acquire : Type 0 where
  canceled : Acquire
  acquired : Manager → Acquire
  waits : Manager → ℕ → Acquire

-- `m.inFlight[provider]++`
abbrev pub take_slot : Manager → String → Manager
take_slot m p = record m { in_flight = assign p (suc_int64 (flying m p)) m.in_flight }

unfoldable pub acquire_round : Manager → Bool → String → Acquire
unfolding change_channel
acquire_round m ctx_done p =
    if ctx_done
    then canceled
    else if has_room m p
    then acquired (take_slot m p)
    else waits (change_channel m p).0 (change_channel m p).1

-- `ReleaseSlot`
unfoldable pub release_slot : Manager → String → Manager
unfolding notify
release_slot m p =
    if is_positive (flying m p)
    then notify (record m { in_flight = assign p (pred_int64 (flying m p)) m.in_flight }) p
    else m

abbrev pub snapshot_or_zero : Option RouteSnapshot → RouteSnapshot
snapshot_or_zero none = zero_snapshot
snapshot_or_zero (some s) = s

-- `stateLocked`, and `Snapshot`
unfoldable pub state_of : Manager → String → RouteSnapshot
state_of m r = snapshot_or_zero (lookup r m.routes)

abbrev pub put_state : Manager → String → RouteSnapshot → Manager
put_state m r s = record m { routes = assign r s m.routes }

-- `DefaultCooldown`, 30 seconds
abbrev pub default_cooldown : ℕ
default_cooldown = 30_000_000_000

-- A cooldown that is not positive stands for the default.
abbrev pub effective_cooldown : ℤ → ℕ
effective_cooldown d = if is_positive d then to_ℕ d else default_cooldown

-- `RouteFailure`
unfoldable pub route_failure : Manager → String → ℤ → ℕ → Manager
unfolding state_of
route_failure m r cooldown now =
    let s = state_of m r in
    put_state m r (record s {
      consecutive_failures = suc_int64 s.consecutive_failures;
      cooling_until = now + effective_cooldown cooldown;
    })

-- `RouteSuccess`
unfoldable pub route_success : Manager → String → Manager
unfolding state_of
route_success m r =
    put_state m r (record (state_of m r) { consecutive_failures = pos 0; cooling_until = 0 })

-- `MarkQuotaExhausted` and `ResetQuota`
unfoldable pub mark_quota_exhausted : Manager → String → Manager
unfolding state_of
mark_quota_exhausted m r = put_state m r (record (state_of m r) { quota_exhausted = true })

unfoldable pub reset_quota : Manager → String → Manager
unfolding state_of
reset_quota m r = put_state m r (record (state_of m r) { quota_exhausted = false })

abbrev pub available_state : Option RouteSnapshot → ℕ → Bool
available_state none now = true
available_state (some s) now =
    if s.quota_exhausted then false else (s.cooling_until == 0) || ltb s.cooling_until now

-- `Available`
unfoldable pub available : Manager → String → ℕ → Bool
available m r now = available_state (lookup r m.routes) now
