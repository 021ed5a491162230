-- ===== src/Events/Replaying.antt =====
-- What a new subscriber is given of the cache, and when it is given an event twice (Subscribe and
-- replayEvents, events/events.go).
use gomcp.Prelude.{
  ◌+◌, ◌≡◌, refl, ap, ◌∙◌, Bool, true, false, not, ◌&&◌, arith, Option, none, List, [], ◌∷◌, ◌++◌,
  String, string_key, nat_key, eqb, ◌==◌, ==_iff, ==_refl, if◌then◌else◌, lookup, insert,
  lookup-insert_self,
}
use gomcp.Events.{
  Event, Subscription, Subject, SubscriberMap, is_sent, event_id_of, replayed, tagged, or_empty,
  add_subscription, topic_subscribers, to_each, start_subscription, replay_events, handle_event,
  deliver_live,
}
use gomcp.Events.Caching.{add_to_cache-first, handle_event-cached}

unfoldable pub on_topic {ℓ} : {M : Type ℓ} → String → List (Event M) → List (Event M)
on_topic topic [] = []
on_topic topic (evt ∷ rest) =
    if evt.topic == topic then evt ∷ on_topic topic rest else on_topic topic rest

-- No id stands twice.
abbrev pub AllOnce : List String → Type 0
AllOnce [] = Unit
AllOnce (x ∷ xs) = (is_sent x xs ≡ false) × AllOnce xs

module _ {ℓ} {M : Type ℓ} (shown : M → String) where
  unfoldable pub ids : List (Event M) → List String
  ids [] = []
  ids (evt ∷ rest) = event_id_of shown evt ∷ ids rest

  is_sent-replayed :
      (x topic : String) (sent : List String) (evts : List (Event M))
      → is_sent x (ids (replayed shown topic sent evts))
        ≡ (is_sent x (ids (on_topic topic evts)) && not (is_sent x sent))
  unfolding ids on_topic replayed is_sent
  is_sent-replayed x topic sent [] = refl
  is_sent-replayed x topic sent (evt ∷ rest) = ground (
    arith,
    is_sent-replayed x topic sent rest,
    is_sent-replayed x topic (event_id_of shown evt ∷ sent) rest,
    ==_iff (event_id_of shown evt) x,
  )

  -- What is replayed has every id of the topic's events in the cache that was not sent before, each
  -- once, and nothing else.
  pub replayed-once :
      (topic : String) (sent : List String) (evts : List (Event M))
      → AllOnce (ids (replayed shown topic sent evts))
        × ((x : String)
            → is_sent x (ids (replayed shown topic sent evts))
              ≡ (is_sent x (ids (on_topic topic evts)) && not (is_sent x sent)))
  unfolding ids on_topic replayed is_sent
  replayed-once topic sent [] = (tt, λ x. refl)
  replayed-once topic sent (evt ∷ rest) = (
    (let a = (replayed-once topic sent rest).0 in
        let b = (replayed-once topic (event_id_of shown evt ∷ sent) rest).0 in
        let c =
          is_sent-replayed (event_id_of shown evt) topic (event_id_of shown evt ∷ sent) rest in
        let d = ==_refl (event_id_of shown evt) in ground arith),
    λ x. is_sent-replayed x topic sent (evt ∷ rest),
  )

  replayed-one : (evt : Event M) → replayed shown evt.topic [] (evt ∷ []) ≡ evt ∷ []
  unfolding replayed is_sent
  replayed-one evt = rw (==_refl evt.topic) refl

module _ {ℓ κ} {H : Type ℓ} {M : Type κ} (shown : M → String) where
  topic_subscribers-add :
      (sub : Subscription H) (subscribers : SubscriberMap H)
      → lookup sub.topic subscribers ≡ none
      → topic_subscribers sub.topic (add_subscription sub subscribers) ≡ (sub.number, sub) ∷ []
  unfolding topic_subscribers add_subscription insert
  topic_subscribers-add sub subscribers h =
      ap or_empty (
        lookup-insert_self sub.topic
          (insert sub.number sub (or_empty (lookup sub.topic subscribers))) subscribers)
      ∙ ap (λ (o : Option _). insert sub.number sub (or_empty o)) h

  -- Subscribe first adds the subscription and then replays the cache. The event that the loop handles
  -- between the two, the first of its subject, is given to the new subscriber twice.
  pub subscribe-delivers_twice :
      (s : Subject H M) (evt : Event M) (handler : H)
      → s.config.replay_enabled ≡ true
      → eqb 0 s.config.cache_size ≡ false
      → s.cache ≡ []
      → lookup evt.topic s.subscribers ≡ none
      → (replay_events shown
          (start_subscription evt.topic handler true s).1
          (handle_event evt (start_subscription evt.topic handler true s).0)).delivered
        ≡ (s.delivered ++ ((s.next_sub_id + 1, evt) ∷ [])) ++ ((s.next_sub_id + 1, evt) ∷ [])
  unfolding replay_events start_subscription to_each
  subscribe-delivers_twice s evt handler replay size empty absent =
      let (started, sub) = start_subscription evt.topic handler true s in
      let handled =
        handle_event-cached evt started (evt ∷ []) replay
          (add_to_cache-first s.config.cache_size evt s.cache empty size) in
      ap (λ (t : Subject H M). (replay_events shown sub t).delivered) handled
      ∙ ap
          (λ (b : Bool).
            (if b && true
              then record (deliver_live evt
                  (record started { event_count = started.event_count + 1; cache = evt ∷ [] })) {
                    delivered =
                        (s.delivered
                          ++ to_each evt (topic_subscribers evt.topic started.subscribers))
                        ++ tagged sub.number (replayed shown evt.topic [] (evt ∷ []));
                  }
              else deliver_live evt (record started {
                event_count = started.event_count + 1;
                cache = evt ∷ [];
              })).delivered)
          replay
      ∙ ap
          (λ subs.
            (s.delivered ++ to_each evt subs)
            ++ tagged sub.number (replayed shown evt.topic [] (evt ∷ [])))
          (topic_subscribers-add sub s.subscribers absent)
      ∙ ap (λ evts. (s.delivered ++ ((sub.number, evt) ∷ [])) ++ tagged sub.number evts)
          (replayed-one shown evt)
