-- ===== src/EventBus/Tests.antt =====
-- The bus of events at concrete inputs.
use gitvibe_dev.Prelude.{◌≡◌, refl, none, some, [], ◌∷◌, ◌++◌}
use gitvibe_dev.Exc.{type_error, ok, raised}
use gitvibe_dev.Json.{end}
use gitvibe_dev.EventBus.{
  EventBus, EventEnvelope, Subscribers, new, envelope, subscribe, unsubscribe, publish, list_topics,
  handlers_of,
}
use gitvibe_dev.EventBus.History.{last, publish_all, recent_events-publish_all}
use gitvibe_dev.EventBus.Delivery.{publish-subscribe, publish-raises, unsubscribe-subscribe}

abbrev event : EventEnvelope
unfolding envelope
event = envelope "id-1" 3_500_000 "agent.started" end "agent-framework"

-- Handler 9 raises, every other one returns.

abbrev bus : EventBus
unfolding subscribe
bus = subscribe "*" 4 (subscribe "agent.started" 1 (new 0))

abbrev returns : Subscribers
returns h e b = (none, b)

abbrev raises : Subscribers
raises h e b = (some type_error, b)

topics : list_topics (publish returns event bus).0 ≡ "*" ∷ "agent.started" ∷ []
unfolding list_topics publish bus event
topics = refl

publish-subscribe_tried :
    let (bus', called, r) = publish returns event (subscribe "agent.started" 7 bus) in
    (called ≡ (handlers_of "agent.started" bus.handlers ++ 7 ∷ []) ++ handlers_of "*" bus.handlers)
    × (r ≡ ok tt)
unfolding bus handlers_of event
publish-subscribe_tried =
    publish-subscribe returns event 7 bus refl (λ b. refl, (λ b. refl, (λ b. refl, tt)))

publish-raises_tried :
    let (bus', called, r) = publish raises event bus in (called ≡ 1 ∷ []) × (r ≡ raised type_error)
unfolding bus handlers_of event
publish-raises_tried = publish-raises raises event [] (4 ∷ []) 1 type_error bus refl tt (λ b. refl)

unsubscribe-subscribe_tried :
    handlers_of "*" (unsubscribe "agent.started" 7 (subscribe "agent.started" 7 bus)).handlers
    ≡ handlers_of "*" bus.handlers
unfolding bus handlers_of event
unsubscribe-subscribe_tried = unsubscribe-subscribe "agent.started" "*" 7 bus (refl, tt)

recent_events-publish_all_example :
    (publish_all
      (raises)
      (event ∷ event ∷ [])
      (record (new 0) { handlers = ("agent.started", 1 ∷ []) ∷ [] })).recent_events
    ≡ last 1 (event ∷ event ∷ [])
recent_events-publish_all_example =
    recent_events-publish_all raises (λ h e b. (refl, refl)) 0 (("agent.started", 1 ∷ []) ∷ [])
      (event ∷ event ∷ [])
