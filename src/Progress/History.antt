-- ===== src/Progress/History.antt =====
-- The server under any sequence of the calls that touch progress, and the order on its wire.
use gomcp.Prelude.{
  ℕ, ◌≡◌, Bool, true, List, [], ◌∷◌, some, Option, String, string_key, Dict, lookup,
}
use gomcp.Progress.Floats.{Float64}
use gomcp.Progress.Notifications.{ProgressNotification}
use gomcp.Progress.Tokens.{ProgressToken, Randomness}
use gomcp.Progress.RateLimiter.{ProgressRateLimiter, ProgressRateLimitConfig}
use gomcp.Progress.Server.{Server, Surroundings, new_server, ProgressNotificationHandler}
use gomcp.Progress.Sending.{
  send_progress_notification, send_given_notification, process_buffered_notifications,
  create_progress_token, complete_progress, cleanup_expired_progress_tokens,
  handle_progress_notification, set_configuration, cleanup_rate_limiters,
}
use gomcp.Progress.Order.{sent_for, CountsUpTo, IsOrdered}
use gomcp.Progress.Direct.{IsSound}
use gomcp.Progress.Calls.{send-IsSound, given-IsSound, flush_all-IsSound}
use gomcp.Progress.Managing.{
  IsNewToken, complete-IsSound, received-IsSound, create-IsSound, clean-IsSound,
}

-- A call, with its arguments.
pub data Call : Type 0 where
  sends : String → Float64 → Option Float64 → String → Call
  sends_given : ProgressNotification → Call
  flushes : Call
  creates : Randomness → String → Call
  completes : String → String → Call
  cleans : ℕ → Call
  receives : ProgressNotification → Call
  configures : ProgressRateLimitConfig → Call
  cleans_limiters : Call

abbrev pub perform : Surroundings → Call → Server → Server
perform around (sends token progress total message) s =
    (send_progress_notification around token progress total message s).0
perform around (sends_given n) s = (send_given_notification around n s).0
perform around flushes s = process_buffered_notifications around s
perform around (creates randomness request_id) s =
    (create_progress_token around randomness request_id s).0
perform around (completes token message) s = (complete_progress around token message s).0
perform around (cleans expiration) s = (cleanup_expired_progress_tokens around expiration s).0
perform around (receives n) s = (handle_progress_notification around n s).0
perform around (configures config) s = set_configuration config s
perform around cleans_limiters s = cleanup_rate_limiters s

abbrev pub perform_all : List (Surroundings × Call) → Server → Server
perform_all [] s = s
perform_all ((around, c) ∷ calls) s = perform_all calls (perform around c s)

-- A token that a call makes is new.
abbrev pub IsFresh : Call → Server → Type 0
IsFresh (creates randomness request_id) s = IsNewToken randomness request_id s
IsFresh c s = Unit

abbrev pub AreFresh : List (Surroundings × Call) → Server → Type 0
AreFresh [] s = Unit
AreFresh ((around, c) ∷ calls) s = IsFresh c s × AreFresh calls (perform around c s)

rate_limiters_of : ProgressNotificationHandler → Dict String ProgressRateLimiter
rate_limiters_of h = h.rate_limiters

perform-IsSound :
    (around : Surroundings) (c : Call) (s : Server)
    → IsFresh c s
    → IsSound s
    → IsSound (perform around c s)
unfolding rate_limiters_of process_buffered_notifications set_configuration cleanup_rate_limiters
perform-IsSound around (sends k progress total message) s f sound =
    send-IsSound around k progress total message s sound
perform-IsSound around (sends_given n) s f sound = given-IsSound around n s sound
perform-IsSound around flushes s f sound =
    flush_all-IsSound around (rate_limiters_of s.handler) s sound
perform-IsSound around (creates randomness request_id) s f sound =
    create-IsSound around randomness request_id s f sound
perform-IsSound around (completes k message) s f sound = complete-IsSound around k message s sound
perform-IsSound around (cleans expiration) s f sound = clean-IsSound around expiration s sound
perform-IsSound around (receives n) s f sound = received-IsSound around n s sound
perform-IsSound around (configures config) s f sound = record {
  distinct = sound.distinct;
  ordered = sound.ordered;
}
perform-IsSound around cleans_limiters s f sound = record {
  distinct = sound.distinct;
  ordered = sound.ordered;
}

perform_all-IsSound :
    (calls : List (Surroundings × Call)) (s : Server)
    → AreFresh calls s
    → IsSound s
    → IsSound (perform_all calls s)
perform_all-IsSound [] s f sound = sound
perform_all-IsSound ((around, c) ∷ calls) s (f, fs) sound =
    perform_all-IsSound calls (perform around c s) fs (perform-IsSound around c s f sound)

-- After any sequence of calls on a new server whose random tokens are new, with any answers of the
-- transport and at any times: for each token that is active, the progress of the messages on the
-- wire never goes back, from the oldest to the newest, and does not exceed the last progress that
-- the token manager knows.
pub perform_all-CountsUpTo :
    (version : String) (has_transport : Bool) (calls : List (Surroundings × Call)) (k : String)
    (t : ProgressToken)
    → AreFresh calls (new_server version has_transport)
    → lookup k (perform_all calls (new_server version has_transport)).progress_token_manager.tokens
      ≡ some t
    → t.is_active ≡ true
    → CountsUpTo t.last_progress
        (sent_for k (perform_all calls (new_server version has_transport)).wire)
unfolding IsOrdered lookup sent_for
perform_all-CountsUpTo version has_transport calls k t f l a =
    let sound =
      perform_all-IsSound calls (new_server version has_transport) f
        (record { distinct = tt; ordered = λ j u e b. tt }) in
    sound.ordered k t l a
