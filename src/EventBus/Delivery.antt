-- ===== src/EventBus/Delivery.antt =====
-- Which handlers `publish` of backend/app/platform/event_bus.py calls, and in which order.
use gitvibe_dev.Prelude.{
  String-cases, inl, inr, ◌≡◌, refl, ap, String, false, none, some, List, [], ◌∷◌, ◌++◌, All, arith,
  nat_eq, ◌==◌, eq_iff, eq_refl, if◌then◌else◌,
}
use gitvibe_dev.Exc.{Exc, ok, raised}
use gitvibe_dev.EventBus.{
  EventBus, EventEnvelope, Handler, Subscribers, handlers_of, add_handler, drop_handler,
  remove_first, subscribe, unsubscribe, deliver, publish,
}

handlers_of-add_handler :
    (k t : String) (h : Handler) (m : List (String × List Handler))
    → handlers_of t (add_handler k h m)
      ≡ (if k == t then handlers_of t m ++ h ∷ [] else handlers_of t m)
unfolding handlers_of add_handler
handlers_of-add_handler k t h [] = refl
handlers_of-add_handler k t h ((i, hs) ∷ m) =
    ground (arith, eq_iff k t, eq_iff i k, eq_iff i t, handlers_of-add_handler k t h m)

handlers_of-drop_handler :
    (k t : String) (h : Handler) (m : List (String × List Handler))
    → handlers_of t (drop_handler k h m)
      ≡ (if k == t then remove_first h (handlers_of t m) else handlers_of t m)
unfolding handlers_of drop_handler
handlers_of-drop_handler k t h [] = ground arith
handlers_of-drop_handler k t h ((i, hs) ∷ m) =
    ground (arith, eq_iff k t, eq_iff i k, eq_iff i t, handlers_of-drop_handler k t h m)

module _ (run : Subscribers) (e : EventEnvelope) where
  -- Whatever bus it is called on, the handler does not raise.
  abbrev Returns : Handler → Type 0
  Returns h = (bus : EventBus) → (run h e bus).0 ≡ none

  deliver-All :
      (hs : List Handler) (bus : EventBus)
      → All Returns hs
      → ((deliver run e hs bus).1 ≡ hs) × ((deliver run e hs bus).2 ≡ ok tt)
  unfolding deliver
  deliver-All [] bus a = (refl, refl)
  deliver-All (h ∷ hs) bus a =
      let (called, r) = deliver-All hs (run h e bus).1 a.1 in
      rw (a.0 bus, deliver) (ap (λ gs. h ∷ gs) called, r)

  deliver-stops :
      (before after : List Handler) (h : Handler) (x : Exc) (bus : EventBus)
      → All Returns before
      → ((b : EventBus) → (run h e b).0 ≡ some x)
      → let (bus', called, r) = deliver run e (before ++ h ∷ after) bus in
        (called ≡ before ++ h ∷ []) × (r ≡ raised x)
  unfolding deliver
  deliver-stops [] after h x bus a fails = rw (fails bus, deliver) (refl, refl)
  deliver-stops (g ∷ before) after h x bus a fails =
      let (called, r) = deliver-stops before after h x (run g e bus).1 a.1 fails in
      rw (a.0 bus, deliver) (ap (λ gs. g ∷ gs) called, r)

  -- With a new subscriber to its topic, and if no handler raises, an event is brought to those that
  -- subscribed to the topic before, then to the new one, then to those of all topics, each in the
  -- order of subscription, and `publish` returns.
  pub publish-subscribe :
      (h : Handler) (bus : EventBus)
      → (e.topic == "*") ≡ false
      → All Returns ((handlers_of e.topic bus.handlers ++ h ∷ []) ++ handlers_of "*" bus.handlers)
      → let (bus', called, r) = publish run e (subscribe e.topic h bus) in
        (called ≡ (handlers_of e.topic bus.handlers ++ h ∷ []) ++ handlers_of "*" bus.handlers)
        × (r ≡ ok tt)
  unfolding publish subscribe
  publish-subscribe h bus topic quiet =
      let own : handlers_of e.topic (add_handler e.topic h bus.handlers)
          ≡ handlers_of e.topic bus.handlers ++ h ∷ [] =
        rw (handlers_of-add_handler, eq_refl) in
      let wild : handlers_of "*" (add_handler e.topic h bus.handlers)
          ≡ handlers_of "*" bus.handlers =
        rw (handlers_of-add_handler, topic) in
      rw (own, wild) (deliver-All _ _ quiet)

  -- A handler that raises, on any bus, ends `publish` with its exception, if none before it raises;
  -- those behind it are not called.
  pub publish-raises :
      (before after : List Handler) (h : Handler) (x : Exc) (bus : EventBus)
      → handlers_of e.topic bus.handlers ++ handlers_of "*" bus.handlers ≡ before ++ h ∷ after
      → All Returns before
      → ((b : EventBus) → (run h e b).0 ≡ some x)
      → let (bus', called, r) = publish run e bus in (called ≡ before ++ h ∷ []) × (r ≡ raised x)
  unfolding publish
  publish-raises before after h x bus split quiet fails =
      rw split (deliver-stops before after h x _ quiet fails)

remove_first-append_last :
    (h : Handler) (hs : List Handler)
    → All (λ g. nat_eq g h ≡ false) hs
    → remove_first h (hs ++ h ∷ []) ≡ hs
remove_first-append_last h [] a = ground arith
remove_first-append_last h (g ∷ hs) a = rw (a.0, remove_first-append_last h hs a.1)

-- To unsubscribe undoes a subscription, for every topic, if the handler was not subscribed before.
pub unsubscribe-subscribe :
    (k t : String) (h : Handler) (bus : EventBus)
    → All (λ g. nat_eq g h ≡ false) (handlers_of k bus.handlers)
    → handlers_of t (unsubscribe k h (subscribe k h bus)).handlers ≡ handlers_of t bus.handlers
unfolding subscribe unsubscribe
unsubscribe-subscribe k t h bus fresh = elim (String-cases k t) [
  | inl same ↦
      rw (← same, handlers_of-drop_handler, eq_refl, handlers_of-add_handler, eq_refl)
        (remove_first-append_last h (handlers_of k bus.handlers) fresh)
  | inr ne ↦ rw (handlers_of-drop_handler, ne, handlers_of-add_handler, ne)
]
