-- ===== src/Events.antt =====
-- The event system (events/events.go): publishing, subscribing with replay, and the loop that hands
-- events to subscribers. `M` is a published value, `shown` Go's `%v` of it, and a handler is a value of
-- `H`. The number of a subscription stands for its id, which is its topic and its number. Each update
-- of the shared pointers is one step, since it is repeated until it succeeds.
use gomcp.Prelude.{
  ℕ, zero, suc, ◌+◌, Bool, true, false, not, ◌&&◌, eqb, ltb, Option, none, some, List, [], ◌∷◌,
  ◌++◌, String, string_key, nat_key, ◌==◌, if◌then◌else◌, Dict, lookup, insert, erase, length,
}
use Prim.Native.String.{◌++◌ as join}
mod Caching
mod Replaying
mod Tests

-- A negative size, at which `make` panics in NewSubject, is left out.
pub record SubjectConfig : Type 0 where
  pub replay_enabled : Bool
  pub cache_size : ℕ
  pub buffer_size : ℕ

pub data SubjectOption : Type 0 where
  with_buffer_size : ℕ → SubjectOption
  with_replay : ℕ → SubjectOption

unfoldable pub apply_subject_option : SubjectConfig → SubjectOption → SubjectConfig
apply_subject_option cfg (with_buffer_size size) = record cfg { buffer_size = size }
apply_subject_option cfg (with_replay cache_size) = record cfg {
  replay_enabled = true;
  cache_size = cache_size;
}

unfoldable pub apply_subject_options : SubjectConfig → List SubjectOption → SubjectConfig
apply_subject_options cfg [] = cfg
apply_subject_options cfg (opt ∷ opts) = apply_subject_options (apply_subject_option cfg opt) opts

pub record Event {ℓ} (M : Type ℓ) : Type ℓ where
  pub topic : String
  pub message : M
  -- The client that alone is meant, if any.
  pub conn : Option ℕ

pub record Subscription {ℓ} (H : Type ℓ) : Type ℓ where
  pub topic : String
  pub number : ℕ
  pub handler : H
  pub wants_replay : Bool

abbrev pub SubscriberMap {ℓ} : Type ℓ → Type ℓ
SubscriberMap H = Dict String (Dict ℕ (Subscription H))

-- `delivered` records the events given to handlers, with the numbers of the subscriptions. The loop
-- stops when it panics or sees the shutdown.
pub record Subject {ℓ κ} (H : Type ℓ) (M : Type κ) : Type (ℓ ⊔ κ) where
  pub config : SubjectConfig
  pub subscribers : SubscriberMap H
  pub cache : List (Event M)
  pub next_sub_id : ℕ
  pub event_count : ℕ
  pub events : List (Event M)
  pub closed : Bool
  pub loop_runs : Bool
  pub delivered : List (ℕ × Event M)

-- What a missing topic has.
abbrev pub or_empty {ℓ} : {A : Type ℓ} → Option (List A) → List A
or_empty none = []
or_empty (some xs) = xs

-- Without a replay cache, a full one of size 0 has no first element to drop: a panic.
unfoldable pub add_to_cache {ℓ} :
    {M : Type ℓ} → ℕ → Event M → List (Event M) → Option (List (Event M))
add_to_cache size evt [] = if eqb 0 size then none else some (evt ∷ [])
add_to_cache size evt (first ∷ rest) =
    if eqb (length (first ∷ rest)) size
    then some (rest ++ (evt ∷ []))
    else some ((first ∷ rest) ++ (evt ∷ []))

-- The subscription with this number leaves its topic, which goes when it has no other.
unfoldable pub remove_subscription {ℓ} : {H : Type ℓ} → ℕ → SubscriberMap H → SubscriberMap H
remove_subscription number [] = []
remove_subscription number ((topic, subs) ∷ rest) = elim (lookup number subs) [
  | none ↦ (topic, subs) ∷ remove_subscription number rest
  | some sub ↦ elim (erase number subs) [
    | [] ↦ rest
    | ◌∷◌ other others ↦ (topic, other ∷ others) ∷ rest
  ]
]

unfoldable pub add_subscription {ℓ} :
    {H : Type ℓ} → Subscription H → SubscriberMap H → SubscriberMap H
add_subscription sub subscribers =
    insert sub.topic (insert sub.number sub (or_empty (lookup sub.topic subscribers))) subscribers

unfoldable pub topic_subscribers {ℓ} :
    {H : Type ℓ} → String → SubscriberMap H → Dict ℕ (Subscription H)
topic_subscribers topic subscribers = or_empty (lookup topic subscribers)

-- A live event, given to each subscription of its topic, in the order of the map.
unfoldable pub to_each {ℓ κ} :
    {H : Type ℓ} {M : Type κ} → Event M → Dict ℕ (Subscription H) → List (ℕ × Event M)
to_each evt [] = []
to_each evt ((number, sub) ∷ rest) = (number, evt) ∷ to_each evt rest

unfoldable pub is_sent : String → List String → Bool
is_sent event_id [] = false
is_sent event_id (x ∷ xs) = if x == event_id then true else is_sent event_id xs

unfoldable pub event_id_of {ℓ} : {M : Type ℓ} → (M → String) → Event M → String
event_id_of shown evt = join evt.topic (join "-" (shown evt.message))

-- The events of a topic, those without an id that was sent before.
unfoldable pub replayed {ℓ} :
    {M : Type ℓ} → (M → String) → String → List String → List (Event M) → List (Event M)
replayed shown topic sent [] = []
replayed shown topic sent (evt ∷ rest) =
    let skipping = replayed shown topic sent rest in
    let sending = replayed shown topic (event_id_of shown evt ∷ sent) rest in
    if evt.topic == topic && not (is_sent (event_id_of shown evt) sent)
    then evt ∷ sending
    else skipping

abbrev pub tagged {ℓ} : {M : Type ℓ} → ℕ → List (Event M) → List (ℕ × Event M)
tagged number [] = []
tagged number (evt ∷ rest) = (number, evt) ∷ tagged number rest

module _ {ℓ κ} {H : Type ℓ} {M : Type κ} where
  unfoldable pub new_subject : List SubjectOption → Subject H M
  new_subject opts = record {
    config =
        apply_subject_options (record { replay_enabled = false; cache_size = 0; buffer_size = 512 })
          opts;
    subscribers = [];
    cache = [];
    next_sub_id = 0;
    event_count = 0;
    events = [];
    closed = false;
    loop_runs = true;
    delivered = [];
  }

  -- Without a buffer an event goes to the loop itself, which holds it until it has handled it.
  unfoldable pub has_place : Subject H M → Bool
  has_place s =
      if eqb s.config.buffer_size 0
      then s.loop_runs && eqb (length s.events) 0
      else ltb (length s.events) s.config.buffer_size

  -- `false` is the error after five seconds in which the channel stays full.
  unfoldable pub publish_event : Event M → Subject H M → Subject H M × Bool
  publish_event evt s =
      if has_place s then (record s { events = s.events ++ (evt ∷ []) }, true) else (s, false)

  -- The first half of Subscribe.
  unfoldable pub start_subscription : String → H → Bool → Subject H M → Subject H M × Subscription H
  start_subscription topic handler replay s =
      let sub : Subscription H = record {
        topic = topic;
        number = s.next_sub_id + 1;
        handler = handler;
        wants_replay = replay;
      } in
      (
        record s {
          next_sub_id = s.next_sub_id + 1;
          subscribers = add_subscription sub s.subscribers;
        },
        sub,
      )

  -- The second half, after which events may have been handled.
  unfoldable pub replay_events : (M → String) → Subscription H → Subject H M → Subject H M
  replay_events shown sub s =
      if s.config.replay_enabled && sub.wants_replay
      then record s {
        delivered = s.delivered ++ tagged sub.number (replayed shown sub.topic [] s.cache);
      }
      else s

  unfoldable pub subscribe_handler :
      (M → String) → String → H → Bool → Subject H M → Subject H M × Subscription H
  subscribe_handler shown topic handler replay s =
      let (started, sub) = start_subscription topic handler replay s in
      (replay_events shown sub started, sub)

  unfoldable pub unsubscribe_handler : Subscription H → Subject H M → Subject H M
  unsubscribe_handler sub s = record s {
    subscribers = remove_subscription sub.number s.subscribers;
  }

  abbrev pub deliver_live : Event M → Subject H M → Subject H M
  deliver_live evt s = record s {
    delivered = s.delivered ++ to_each evt (topic_subscribers evt.topic s.subscribers);
  }

  abbrev pub with_cache : Event M → Option (List (Event M)) → Subject H M → Subject H M
  with_cache evt none s = record s { loop_runs = false }
  with_cache evt (some cache) s = deliver_live evt (record s { cache = cache })

  -- An event that the loop took from the channel.
  unfoldable pub handle_event : Event M → Subject H M → Subject H M
  handle_event evt s =
      let counted_event = record s { event_count = s.event_count + 1 } in
      if s.config.replay_enabled
      then with_cache evt (add_to_cache s.config.cache_size evt s.cache) counted_event
      else deliver_live evt counted_event

  -- A round of the loop: the shutdown, an event, or nothing to do. Where both are there, Go chooses.
  unfoldable pub event_round : Subject H M → Subject H M
  event_round s = elim s.events [
    | [] ↦ if s.closed then record s { loop_runs = false } else s
    | ◌∷◌ evt rest ↦ if s.loop_runs then handle_event evt (record s { events = rest }) else s
  ]

  -- Without the wait for the loop.
  unfoldable pub complete_subject : Subject H M → Subject H M
  complete_subject s = record s { closed = true }
