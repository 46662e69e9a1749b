-- ===== src/Usage/Events.antt =====
-- internal/usage/events.go: the hub that hands usage events to its subscribers. A channel is the queue of
-- the events that its subscriber has not read; a copy of an event is the event.
use free_model_router.Usage.{RequestRecord}
use free_model_router.Gateway.Usage.{AttemptRecord}
use free_model_router.Prelude.Int.{ℤ, pos, negsuc}
use free_model_router.Prelude.{
  ℕ, ◌+◌, ◌%◌, ◌^◌, ◌≤◌, String, ◌≡◌, refl, sym, inl, inr, Bool, true, false, Option, List, [], ◌∷◌,
  ◌++◌, arith, ltb, ◌==◌, if◌then◌else◌, Bool-cases, length, All, length-append,
}
use mathlib.Core.Path.{subst}

-- `EventType`
pub data EventType : Type 0 where
  request_started attempt_started completed : EventType

-- `Event`
pub record Event : Type 0 where
  pub kind : EventType
  pub at : ℕ
  pub request_id : String
  pub attempt : Option AttemptRecord
  pub record_of : Option RequestRecord

pub record Subscriber : Type 0 where
  pub id : ℕ
  pub queue : List Event

-- `Broadcaster`; `closed` is no field of it: what can still be read of channels that are not written to.
pub record Broadcaster : Type 0 where
  pub next_id : ℕ
  pub buffer : ℕ
  pub subs : List Subscriber
  pub closed : List Subscriber

abbrev pub buffer_or_default : ℤ → ℕ
buffer_or_default (pos n) = if n == 0 then 16 else n
buffer_or_default (negsuc n) = 16

-- `NewBroadcaster`
unfoldable pub new_broadcaster : ℤ → Broadcaster
new_broadcaster buffer = record {
  next_id = 0;
  buffer = buffer_or_default buffer;
  subs = [];
  closed = [];
}

-- The send of `Publish`: a full channel drops the event.
unfoldable pub offer : ℕ → Event → Subscriber → Subscriber
offer buffer e s =
    if ltb (length s.queue) buffer then record { id = s.id; queue = s.queue ++ e ∷ [] } else s

unfoldable pub offer_all : ℕ → Event → List Subscriber → List Subscriber
unfolding offer
offer_all buffer e [] = []
offer_all buffer e (s ∷ ss) = offer buffer e s ∷ offer_all buffer e ss

abbrev pub filled_at : ℕ → Event → Event
filled_at now e = if e.at == 0 then record e { at = now } else e

-- `Publish`
unfoldable pub publish : ℕ → Event → Broadcaster → Broadcaster
unfolding offer_all
publish now e b = record b { subs = offer_all b.buffer (filled_at now e) b.subs }

unfoldable pub without : ℕ → List Subscriber → List Subscriber
without id [] = []
without id (s ∷ ss) = let rest = without id ss in if s.id == id then rest else s ∷ rest

unfoldable pub taken_out : ℕ → List Subscriber → List Subscriber
taken_out id [] = []
taken_out id (s ∷ ss) = let rest = taken_out id ss in if s.id == id then s ∷ rest else rest

abbrev pub next_uint64 : ℕ → ℕ
next_uint64 n = (n + 1) % 2 ^ 64

-- `Subscribe`; the id is that of the new channel.
unfoldable pub subscribe : Broadcaster → Broadcaster × ℕ
unfolding without taken_out
subscribe b =
    let id = next_uint64 b.next_id in
    (
      record b {
        next_id = id;
        subs = record { id = id; queue = [] } ∷ without id b.subs;
        closed = taken_out id b.subs ++ b.closed;
      },
      id,
    )

-- The function that `Subscribe` returns, with the flag of its `sync.Once`.
unfoldable pub unsubscribe : Bool → ℕ → Broadcaster → Broadcaster
unfolding without taken_out
unsubscribe done id b =
    if done
    then b
    else record b { subs = without id b.subs; closed = taken_out id b.subs ++ b.closed }

abbrev pub IsBounded : ℕ → List Subscriber → Type 0
IsBounded buffer ss = All (λ s. length s.queue ≤ buffer) ss

offer-fits :
    (buffer : ℕ) (e : Event) (s : Subscriber)
    → length s.queue ≤ buffer
    → length (offer buffer e s).queue ≤ buffer
unfolding offer
offer-fits buffer e s h = elim (Bool-cases (ltb (length s.queue) buffer)) [
  | inl room ↦ rw (room) (ground (arith, room, length-append s.queue (e ∷ [])))
  | inr full ↦ rw (full) h
]

offer_all-IsBounded :
    (buffer : ℕ) (e : Event) (ss : List Subscriber)
    → IsBounded buffer ss
    → IsBounded buffer (offer_all buffer e ss)
unfolding offer_all
offer_all-IsBounded buffer e [] h = tt
offer_all-IsBounded buffer e (s ∷ ss) h =
    (offer-fits buffer e s h.0, offer_all-IsBounded buffer e ss h.1)

without-All :
    (P : Subscriber → Type 0) (id : ℕ) (ss : List Subscriber) → All P ss → All P (without id ss)
unfolding without
without-All P id [] h = tt
without-All P id (s ∷ ss) h = elim (Bool-cases (s.id == id)) [
  | inl e ↦ rw (e) (without-All P id ss h.1)
  | inr e ↦ rw (e) (h.0, without-All P id ss h.1)
]

-- A step of the hub: a reader takes the first event, or one of its operations runs.
pub data Step : Type 0 where
  published : ℕ → Event → Step
  subscribed : Step
  unsubscribed : Bool → ℕ → Step
  received : ℕ → Step

abbrev pub rest_of : List Event → List Event
rest_of [] = []
rest_of (e ∷ q) = q

abbrev pub read_one : ℕ → Subscriber → Subscriber
read_one id s = if s.id == id then record { id = s.id; queue = rest_of s.queue } else s

unfoldable pub read_from : ℕ → List Subscriber → List Subscriber
read_from id [] = []
read_from id (s ∷ ss) = read_one id s ∷ read_from id ss

unfoldable pub step : Broadcaster → Step → Broadcaster
unfolding publish subscribe unsubscribe read_from
step b (published at e) = publish at e b
step b subscribed = (subscribe b).0
step b (unsubscribed done id) = unsubscribe done id b
step b (received id) = record b { subs = read_from id b.subs; closed = read_from id b.closed }

unfoldable pub run_hub : Broadcaster → List Step → Broadcaster
unfolding step
run_hub b [] = b
run_hub b (x ∷ xs) = run_hub (step b x) xs

record Inv (buffer : ℕ) (b : Broadcaster) : Type 0 where
  same_buffer : b.buffer ≡ buffer
  bounded : IsBounded buffer b.subs

rest_fits : (n : ℕ) (q : List Event) → length q ≤ n → length (rest_of q) ≤ n
rest_fits n [] h = h
rest_fits n (e ∷ q) h = omega (arith, h)

read_from-IsBounded :
    (buffer id : ℕ) (ss : List Subscriber)
    → IsBounded buffer ss
    → IsBounded buffer (read_from id ss)
unfolding read_from
read_from-IsBounded buffer id [] h = tt
read_from-IsBounded buffer id (s ∷ ss) h = elim (Bool-cases (s.id == id)) [
  | inl e ↦ rw (e) (rest_fits buffer s.queue h.0, read_from-IsBounded buffer id ss h.1)
  | inr e ↦ rw (e) (h.0, read_from-IsBounded buffer id ss h.1)
]

step-Inv : (buffer : ℕ) (b : Broadcaster) (x : Step) → Inv buffer b → Inv buffer (step b x)
unfolding step publish subscribe unsubscribe
step-Inv buffer b (published at e) v = record {
  same_buffer = v.same_buffer;
  bounded =
      subst (λ n. IsBounded buffer (offer_all n (filled_at at e) b.subs)) (sym v.same_buffer)
        (offer_all-IsBounded buffer (filled_at at e) b.subs v.bounded);
}
step-Inv buffer b subscribed v = record {
  same_buffer = v.same_buffer;
  bounded = (
    omega arith,
    without-All (λ s. length s.queue ≤ buffer) (next_uint64 b.next_id) b.subs v.bounded,
  );
}
step-Inv buffer b (unsubscribed true id) v = v
step-Inv buffer b (unsubscribed false id) v = record {
  same_buffer = v.same_buffer;
  bounded = without-All (λ s. length s.queue ≤ buffer) id b.subs v.bounded;
}
step-Inv buffer b (received id) v = record {
  same_buffer = v.same_buffer;
  bounded = read_from-IsBounded buffer id b.subs v.bounded;
}

run_hub-Inv :
    (buffer : ℕ) (xs : List Step) (b : Broadcaster) → Inv buffer b → Inv buffer (run_hub b xs)
unfolding run_hub
run_hub-Inv buffer [] b v = v
run_hub-Inv buffer (x ∷ xs) b v = run_hub-Inv buffer xs (step b x) (step-Inv buffer b x v)

-- In any interleaving of publishing, subscribing, unsubscribing and reading, no channel of a subscriber
-- holds more events than the buffer of the hub.
run_hub-IsBounded :
    (size : ℤ) (xs : List Step)
    → IsBounded (buffer_or_default size) (run_hub (new_broadcaster size) xs).subs
unfolding new_broadcaster
run_hub-IsBounded size xs =
    (run_hub-Inv (buffer_or_default size) xs (new_broadcaster size)
      (record { same_buffer = refl; bounded = tt })).bounded
