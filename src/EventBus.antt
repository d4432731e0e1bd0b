-- ===== src/EventBus.antt =====
-- backend/app/platform/event_bus.py: publish and subscribe, with a bounded history.
-- A handler is known by a number, `run` says what it does with an event on the bus as it stands: it
-- returns or raises, and may publish and subscribe, so that it leaves another bus.
pub mod History
pub mod Delivery
pub mod Tests
use gitvibe_dev.Prelude.{
  ℕ, suc, ◌-◌, ◌/◌, String, Bool, true, false, ◌||◌, Option, none, some, List, [], ◌∷◌, ◌++◌, map,
  length, drop, min, max, ltb, nat_eq, ◌==◌, if◌then◌else◌,
}
use gitvibe_dev.Prelude.Sort.{sorted_set}
use gitvibe_dev.Prelude.Int.{pos}
use gitvibe_dev.Exc.{Exc, Result, ok, raised}
use gitvibe_dev.Json.{int, str, obj, Fields, end, field}

pub record EventEnvelope : Type 0 where
  pub id : String
  pub topic : String
  pub source : String
  pub payload : Fields
  pub version : String
  pub timestamp : ℕ

-- `EventEnvelope.as_dict`
abbrev pub as_dict : EventEnvelope → Fields
as_dict e = field "id" (str e.id) (
    field "topic" (str e.topic) (
      field "source" (str e.source) (
        field "payload" (obj e.payload)
          (field "version" (str e.version) (field "timestamp" (int (pos e.timestamp)) end)))))

abbrev pub Handler : Type 0
Handler = ℕ

pub record EventBus : Type 0 where
  pub handlers : List (String × List Handler)
  pub recent_events : List EventEnvelope
  pub max_events : ℕ

abbrev pub Subscribers : Type 0
Subscribers = Handler → EventEnvelope → EventBus → Option Exc × EventBus

-- `deque(maxlen=max(1, max_events))`
abbrev pub new : ℕ → EventBus
new max_events = record { handlers = []; recent_events = []; max_events = max 1 max_events }

-- `self._handlers.get(topic, [])`
unfoldable pub handlers_of : String → List (String × List Handler) → List Handler
handlers_of topic [] = []
handlers_of topic ((t, hs) ∷ rest) = if t == topic then hs else handlers_of topic rest

unfoldable pub add_handler :
    String → Handler → List (String × List Handler) → List (String × List Handler)
add_handler topic h [] = (topic, h ∷ []) ∷ []
add_handler topic h ((t, hs) ∷ rest) =
    let more = add_handler topic h rest in
    if t == topic then (t, hs ++ h ∷ []) ∷ rest else (t, hs) ∷ more

-- `list.remove`: the first that is equal
abbrev pub remove_first : Handler → List Handler → List Handler
remove_first h [] = []
remove_first h (g ∷ hs) = let rest = remove_first h hs in if nat_eq g h then hs else g ∷ rest

unfoldable pub drop_handler :
    String → Handler → List (String × List Handler) → List (String × List Handler)
drop_handler topic h [] = []
drop_handler topic h ((t, hs) ∷ rest) =
    let more = drop_handler topic h rest in
    if t == topic then (t, remove_first h hs) ∷ rest else (t, hs) ∷ more

unfoldable pub subscribe : String → Handler → EventBus → EventBus
unfolding add_handler
subscribe topic h bus = record bus { handlers = add_handler topic h bus.handlers }

unfoldable pub unsubscribe : String → Handler → EventBus → EventBus
unfolding drop_handler
unsubscribe topic h bus = record bus { handlers = drop_handler topic h bus.handlers }

-- `deque.append`: at its length the oldest entry falls out.
abbrev pub append_bounded {ℓ} : {A : Type ℓ} → ℕ → List A → A → List A
append_bounded limit xs x =
    let grown = xs ++ x ∷ [] in if ltb limit (length grown) then drop 1 grown else grown

-- The handlers are called in turn; one that raises ends the call of `publish`. The first result
-- lists the handlers that were called.
unfoldable pub deliver :
    Subscribers
    → EventEnvelope
    → List Handler
    → EventBus
    → EventBus × List Handler × Result (Unit {0})
deliver run e [] bus = (bus, [], ok tt)
deliver run e (h ∷ hs) bus =
    let (x, bus') = run h e bus in
    let (bus'', called, r) = deliver run e hs bus' in
    elim x [ some y ↦ (bus', h ∷ [], raised y) | none ↦ (bus'', h ∷ called, r) ]

-- `id` is the `uuid4` and `now` the time in millionths of a second that the call draws.
unfoldable pub envelope : String → ℕ → String → Fields → String → EventEnvelope
envelope id now topic payload source = record {
  id = id;
  topic = topic;
  source = source;
  payload = payload;
  version = "1.0";
  timestamp = now / 1_000_000;
}

-- The event is in the history before a handler is called; the handlers are those that are subscribed
-- at that moment.
unfoldable pub publish :
    Subscribers → EventEnvelope → EventBus → EventBus × List Handler × Result (Unit {0})
unfolding deliver handlers_of
publish run e bus =
    deliver run e (handlers_of e.topic bus.handlers ++ handlers_of "*" bus.handlers)
      (record bus { recent_events = append_bounded bus.max_events bus.recent_events e })

-- `list(self._recent_events)[-size:]`; a limit below zero acts as zero.
unfoldable pub recent : ℕ → EventBus → List Fields
recent limit bus =
    let size = max 1 (min limit (length bus.recent_events)) in
    map as_dict (drop (length bus.recent_events - size) bus.recent_events)

unfoldable pub list_topics : EventBus → List String
list_topics bus =
    sorted_set
      (map (λ e. e.0) bus.handlers ++ map (λ (e : EventEnvelope). e.topic) bus.recent_events)
