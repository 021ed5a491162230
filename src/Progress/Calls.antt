-- ===== src/Progress/Calls.antt =====
-- Every call that sends keeps the order of progress on the wire.
use gomcp.Prelude.{
  Bool, true, false, [], ◌∷◌, if◌then◌else◌, some, none, Option, String, ◌==◌, string_key, Dict,
}
use gomcp.Progress.Floats.{Float64}
use gomcp.Progress.Notifications.{
  ProgressNotification, NotificationError, validate, new_progress_notification_for_version,
}
use gomcp.Progress.Tokens.{validate_token}
use gomcp.Progress.RateLimiter.{
  ProgressRateLimiter, token_of, can_send_notification, buffer_notification, process_buffer,
}
use gomcp.Progress.Server.{
  Server, Surroundings, SendError, invalid_token, set_limiter, send_progress_notification_direct,
  version_or_draft, get_or_create_rate_limiter,
}
use gomcp.Progress.Sending.{
  flush, and_flush, send_now, send_later, send_progress_notification_with_rate_limit,
  send_progress_notification, send_given_notification, flush_all, or_invalid,
}
use gomcp.Progress.Direct.{IsSound, direct-IsSound, send_all-IsSound}

-- Either branch of a test.
if-IsSound :
    (b : Bool) (p q : Server × Option SendError)
    → IsSound p.0
    → IsSound q.0
    → IsSound (if b then p else q).0
if-IsSound true p q h k = h
if-IsSound false p q h k = k

pub flush-IsSound :
    (around : Surroundings) (k : String) (limiter : ProgressRateLimiter) (s : Server)
    → IsSound s
    → IsSound (flush around k limiter s)
unfolding flush
flush-IsSound around k limiter s sound =
    let processed = process_buffer limiter around.clock in
    send_all-IsSound around processed.1 (set_limiter k processed.0 s)
      (record { distinct = sound.distinct; ordered = sound.ordered })

and_flush-IsSound :
    (around : Surroundings) (k : String) (limiter : ProgressRateLimiter)
    (result : Server × Option SendError)
    → IsSound result.0
    → IsSound (and_flush around k limiter result).0
and_flush-IsSound around k limiter (s, some e) sound = sound
and_flush-IsSound around k limiter (s, none) sound = flush-IsSound around k limiter s sound

set_limiter-IsSound :
    (k : String) (limiter : ProgressRateLimiter) (s : Server)
    → IsSound s
    → IsSound (set_limiter k limiter s)
set_limiter-IsSound k limiter s sound = record {
  distinct = sound.distinct;
  ordered = sound.ordered;
}

send_now-IsSound :
    (around : Surroundings) (n : ProgressNotification) (limiter : ProgressRateLimiter) (s : Server)
    → IsSound s
    → IsSound (send_now around n limiter s).0
unfolding send_now
send_now-IsSound around n limiter s sound =
    let s' = set_limiter (token_of n) limiter s in
    and_flush-IsSound around (token_of n) limiter (send_progress_notification_direct around n s')
      (direct-IsSound around n s' (set_limiter-IsSound (token_of n) limiter s sound))

send_later-IsSound :
    (around : Surroundings) (n : ProgressNotification) (limiter : ProgressRateLimiter) (s : Server)
    → IsSound s
    → IsSound (send_later around n limiter s).0
unfolding send_later
send_later-IsSound around n limiter s sound =
    let buffered = buffer_notification limiter n in
    let s' = set_limiter (token_of n) buffered.0 s in
    let sound' = set_limiter-IsSound (token_of n) buffered.0 s sound in
    if-IsSound buffered.1 (s', none) (send_progress_notification_direct around n s') sound'
      (direct-IsSound around n s' sound')

limited-IsSound :
    (around : Surroundings) (n : ProgressNotification) (s : Server)
    → IsSound s
    → IsSound (send_progress_notification_with_rate_limit around n s).0
unfolding send_progress_notification_with_rate_limit
limited-IsSound around n s sound =
    let asked =
      can_send_notification (get_or_create_rate_limiter around (token_of n) s) around.now in
    if-IsSound asked.1 (send_now around n asked.0 s) (send_later around n asked.0 s)
      (send_now-IsSound around n asked.0 s sound) (send_later-IsSound around n asked.0 s sound)

or_invalid-IsSound :
    (e : Option NotificationError) (s : Server) (result : Server × Option SendError)
    → IsSound s
    → IsSound result.0
    → IsSound (or_invalid e s result).0
or_invalid-IsSound (some e) s result h k = h
or_invalid-IsSound none s result h k = k

pub send-IsSound :
    (around : Surroundings) (token : String) (progress : Float64) (total : Option Float64)
    (message : String) (s : Server)
    → IsSound s
    → IsSound (send_progress_notification around token progress total message s).0
unfolding send_progress_notification
send-IsSound around token progress total message s sound =
    let n =
      new_progress_notification_for_version token progress total message
        (version_or_draft s.protocol_version) in
    let limited = send_progress_notification_with_rate_limit around n s in
    if-IsSound (validate_token s.progress_token_manager token) (or_invalid (validate n) s limited)
      (s, some invalid_token)
      (or_invalid-IsSound (validate n) s limited sound (limited-IsSound around n s sound)) sound

pub given-IsSound :
    (around : Surroundings) (given : ProgressNotification) (s : Server)
    → IsSound s
    → IsSound (send_given_notification around given s).0
unfolding send_given_notification
given-IsSound around given s sound =
    let n : ProgressNotification =
      if given.protocol_version == ""
      then record given { protocol_version = version_or_draft s.protocol_version }
      else given in
    let limited = send_progress_notification_with_rate_limit around n s in
    let active = validate_token s.progress_token_manager (token_of n) in
    or_invalid-IsSound (validate n) s (if active then limited else (s, some invalid_token)) sound
      (if-IsSound active limited (s, some invalid_token) (limited-IsSound around n s sound) sound)

pub flush_all-IsSound :
    (around : Surroundings) (limiters : Dict String ProgressRateLimiter) (s : Server)
    → IsSound s
    → IsSound (flush_all around limiters s)
unfolding flush_all
flush_all-IsSound around [] s sound = sound
flush_all-IsSound around ((k, limiter) ∷ limiters) s sound =
    flush_all-IsSound around limiters (flush around k limiter s)
      (flush-IsSound around k limiter s sound)
