-- ===== src/EventBus/History.antt =====
-- The history of backend/app/platform/event_bus.py: the bounded deque.
use gitvibe_dev.Prelude.{
  String, ℕ, zero, suc, ◌+◌, ◌-◌, ◌≤◌, ◌≡◌, refl, sym, ap, ◌∙◌, true, false, Option, none, some,
  List, [], ◌∷◌, ◌++◌, map, length, drop, min, max, arith, length-append, length-drop, append_assoc,
  append-nil, ltb, lt→ltb, le→ltb,
}
use native.Mathlib.Nat.{zero-add, suc-add}
use native.Mathlib.Decide.{dec_le}
use gitvibe_dev.Exc.{Exc, Result, raised}
use gitvibe_dev.EventBus.{
  EventBus, EventEnvelope, Handler, Subscribers, new, publish, deliver, handlers_of, append_bounded,
  recent, as_dict,
}

module _ {ℓ} {A : Type ℓ} where
  drop_all : (n : ℕ) (xs : List A) → length xs ≤ n → drop n xs ≡ []
  drop_all zero [] h = refl
  drop_all zero (x ∷ xs) h = elim h [ ]
  drop_all (suc n) [] h = refl
  drop_all (suc n) (x ∷ xs) h = drop_all n xs (omega arith)

  drop-append : (n : ℕ) (xs ys : List A) → n ≤ length xs → drop n (xs ++ ys) ≡ drop n xs ++ ys
  drop-append zero xs ys h = refl
  drop-append (suc n) [] ys h = elim h [ ]
  drop-append (suc n) (x ∷ xs) ys h = drop-append n xs ys (omega arith)

  drop-drop : (n : ℕ) (xs : List A) → drop 1 (drop n xs) ≡ drop (suc n) xs
  drop-drop zero xs = refl
  drop-drop (suc n) [] = refl
  drop-drop (suc n) (x ∷ xs) = drop-drop n xs

  drop-drop_add : (a b : ℕ) (xs : List A) → drop a (drop b xs) ≡ drop (b + a) xs
  drop-drop_add a zero xs = rw (zero-add)
  drop-drop_add zero (suc b) [] = rw suc-add
  drop-drop_add (suc a) (suc b) [] = rw suc-add
  drop-drop_add a (suc b) (x ∷ xs) = rw suc-add (drop-drop_add a b xs)

  -- The last `limit` entries of a list.
  abbrev pub last : ℕ → List A → List A
  last limit xs = drop (length xs - limit) xs

  append_bounded-last :
      (limit : ℕ) (xs : List A) (x : A)
      → 1 ≤ limit
      → append_bounded limit (last limit xs) x ≡ last limit (xs ++ x ∷ [])
  append_bounded-last limit xs x pos = elim (dec_le limit (length xs)) [
    | yes full ↦
        let n = length xs - limit in
        let size : ltb limit (length (last limit xs ++ x ∷ [])) ≡ true =
          lt→ltb _ _
            (omega (arith, length-append {ℓ} (last limit xs) (x ∷ []), length-drop {ℓ} n xs)) in
        let count : length (xs ++ x ∷ []) - limit ≡ suc n =
          omega (arith, length-append {ℓ} xs (x ∷ [])) in
        rw (size, count, ← drop-drop n (xs ++ x ∷ []))
          (ap (drop 1) (sym (drop-append n xs (x ∷ []) (omega arith))))
    | no short ↦
        let zero_left : length xs - limit ≡ 0 = omega arith in
        let zero_right : length (xs ++ x ∷ []) - limit ≡ 0 =
          omega (arith, length-append {ℓ} xs (x ∷ [])) in
        let size : ltb limit (length (xs ++ x ∷ [])) ≡ false =
          le→ltb _ _ (omega (arith, length-append {ℓ} xs (x ∷ []))) in
        rw (zero_left, zero_right, size)
  ]

module _ (run : Subscribers) where
  pub publish_all : List EventEnvelope → EventBus → EventBus
  publish_all [] bus = bus
  publish_all (e ∷ es) bus = publish_all es (publish run e bus).0

  -- The handlers may subscribe and raise, but publish nothing themselves.
  abbrev pub IsQuiet : Type 0
  IsQuiet =
      (h : Handler) (e : EventEnvelope) (bus : EventBus)
      → ((run h e bus).1.recent_events ≡ bus.recent_events)
        × ((run h e bus).1.max_events ≡ bus.max_events)

  module _ (quiet : IsQuiet) where
    called-quiet :
        (x : Option Exc) (h : Handler) (bus' : EventBus)
        (rest : EventBus × List Handler × Result (Unit {0})) (bus : EventBus)
        → ((bus'.recent_events ≡ bus.recent_events) × (bus'.max_events ≡ bus.max_events))
        → ((rest.0.recent_events ≡ bus'.recent_events) × (rest.0.max_events ≡ bus'.max_events))
        → let after : EventBus × List Handler × Result (Unit {0}) = elim x [
          | some y ↦ (bus', h ∷ [], raised y)
          | none ↦ (rest.0, h ∷ rest.1, rest.2)
        ] in
          (after.0.recent_events ≡ bus.recent_events) × (after.0.max_events ≡ bus.max_events)
    called-quiet (some y) h bus' rest bus here_too there = here_too
    called-quiet none h bus' rest bus here_too there = (there.0 ∙ here_too.0, there.1 ∙ here_too.1)

    deliver-quiet :
        (e : EventEnvelope) (hs : List Handler) (bus : EventBus)
        → ((deliver run e hs bus).0.recent_events ≡ bus.recent_events)
          × ((deliver run e hs bus).0.max_events ≡ bus.max_events)
    unfolding deliver
    deliver-quiet e [] bus = (refl, refl)
    deliver-quiet e (h ∷ hs) bus =
        called-quiet (run h e bus).0 h (run h e bus).1 (deliver run e hs (run h e bus).1) bus
          (quiet h e bus) (deliver-quiet e hs (run h e bus).1)

    publish_all-last :
        (limit : ℕ) (es seen : List EventEnvelope) (bus : EventBus)
        → 1 ≤ limit
        → bus.max_events ≡ limit
        → bus.recent_events ≡ last limit seen
        → (publish_all es bus).recent_events ≡ last limit (seen ++ es)
    unfolding publish_all publish
    publish_all-last limit [] seen bus pos m e = rw append-nil e
    publish_all-last limit (x ∷ es) seen bus pos m e =
        let (recent_same, max_same) =
          deliver-quiet x (handlers_of x.topic bus.handlers ++ handlers_of "*" bus.handlers)
            (record bus { recent_events = append_bounded bus.max_events bus.recent_events x }) in
        publish_all-last limit es (seen ++ x ∷ []) (publish run x bus).0 pos (max_same ∙ m)
          (recent_same ∙ rw (m, e) (append_bounded-last limit seen x pos))
        ∙ ap (last limit) (append_assoc seen (x ∷ []) es)

    -- Whoever has subscribed to which topics, and whichever handlers raise or subscribe: if no handler
    -- publishes by itself, the history of a bus is the last `max_events` events that were published on
    -- it, oldest first; a limit of zero counts as one.
    pub recent_events-publish_all :
        (max_events : ℕ) (handlers : List (String × List Handler)) (es : List EventEnvelope)
        → (publish_all es (record (new max_events) { handlers = handlers })).recent_events
          ≡ last (max 1 max_events) es
    recent_events-publish_all max_events handlers es =
        publish_all-last (max 1 max_events) es [] (record (new max_events) { handlers = handlers })
          (omega arith) refl (drop_nil (0 - max 1 max_events))
      where
        drop_nil : (n : ℕ) → [] ≡ drop {A = EventEnvelope} n []
        drop_nil zero = refl
        drop_nil (suc n) = refl

    -- `recent_events(limit)` lists the last events published: as many as are asked for, at least
    -- one, and no more than the bus keeps.
    pub recent-publish_all :
        (max_events limit : ℕ) (es : List EventEnvelope)
        → recent limit (publish_all es (new max_events))
          ≡ map as_dict (last (min (max 1 limit) (max 1 max_events)) es)
    unfolding recent
    recent-publish_all max_events limit es = rw (recent_events-publish_all max_events [] es) (
        ap (map as_dict) (
          drop-drop_add _ (length es - max 1 max_events) es
          ∙ ap (λ n. drop n es) (omega (arith, length-drop {0} (length es - max 1 max_events) es))))
