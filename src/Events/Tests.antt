-- ===== src/Events/Tests.antt =====
-- The properties of the event system at concrete inputs.
use gomcp.Prelude.{
  ℕ, ◌≡◌, ◌+◌, refl, Bool, true, false, not, ◌&&◌, none, List, [], ◌∷◌, String, length, arith,
}
use gomcp.Events.{
  Event, Subject, with_replay, new_subject, is_sent, replayed, start_subscription, replay_events,
  handle_event,
}
use gomcp.Events.Caching.{handle_events, handle_events-cache}
use gomcp.Events.Replaying.{subscribe-delivers_twice}

abbrev event_of : ℕ → Event ℕ
event_of n = record { topic = "tool"; message = n; conn = none }

abbrev subject : Subject ℕ ℕ
subject = new_subject (with_replay 2 ∷ [])

abbrev three_events : List (Event ℕ)
three_events = event_of 1 ∷ (event_of 2 ∷ (event_of 3 ∷ []))

handle_events-cache_example :
    ((handle_events three_events subject).cache ≡ event_of 2 ∷ (event_of 3 ∷ []))
    × ((handle_events three_events subject).event_count ≡ 3)
    × ((handle_events three_events subject).loop_runs ≡ true)
unfolding new_subject gomcp.Events.apply_subject_options gomcp.Events.apply_subject_option
handle_events-cache_example =
    handle_events-cache 2 0 [] three_events subject (omega arith) refl refl refl refl refl

abbrev same_text : ℕ → String
same_text n = "x"

subscribe-delivers_twice_example :
    (replay_events same_text
      (start_subscription "tool" 0 true subject).1
      (handle_event (event_of 1) (start_subscription "tool" 0 true subject).0)).delivered
    ≡ (1, event_of 1) ∷ ((1, event_of 1) ∷ [])
unfolding new_subject gomcp.Events.apply_subject_options gomcp.Events.apply_subject_option
    gomcp.Prelude.lookup
subscribe-delivers_twice_example =
    subscribe-delivers_twice same_text subject (event_of 1) 0 refl refl refl refl
