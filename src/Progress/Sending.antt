-- ===== src/Progress/Sending.antt =====
-- The methods of serverImpl in server/progress.go that send with a rate limit, and those that manage
-- tokens and limiters.
use gomcp.Prelude.{
  ℕ, Bool, true, false, String, Option, none, some, [], ◌∷◌, if◌then◌else◌, Dict, string_key, ◌==◌,
  Result, ok, err,
}
use gomcp.Progress.Floats.{Float64, hundred_float}
use gomcp.Progress.Notifications.{
  ProgressNotification, NotificationError, validate, new_progress_notification_for_version,
}
use gomcp.Progress.Tokens.{
  ProgressTokenManager, TokenError, Randomness, validate_token, update_token, deactivate_token,
  cleanup_expired_tokens, generate_token_for_version,
}
use gomcp.Progress.RateLimiter.{
  ProgressRateLimiter, ProgressRateLimitConfig, reconfigured, can_send_notification,
  buffer_notification, process_buffer, token_of,
}
use gomcp.Progress.Server.{
  Server, ProgressNotificationHandler, Surroundings, SendError, invalid_token, invalid,
  version_or_draft, set_tokens, set_limiter, get_or_create_rate_limiter,
  send_progress_notification_direct, send_all, kept, publish_to_channel,
}

-- What leaves the buffer of a limiter, after the limiter is stored back.
unfoldable pub flush : Surroundings → String → ProgressRateLimiter → Server → Server
flush around token limiter s =
    let processed = process_buffer limiter around.clock in
    send_all around processed.1 (set_limiter token processed.0 s)

-- What follows a first send that was allowed.
abbrev pub and_flush :
    Surroundings
    → String
    → ProgressRateLimiter
    → Server × Option SendError
    → Server × Option SendError
and_flush around token limiter (s, some e) = (s, some e)
and_flush around token limiter (s, none) = (flush around token limiter s, none)

unfoldable pub send_now :
    Surroundings → ProgressNotification → ProgressRateLimiter → Server → Server × Option SendError
send_now around n limiter s =
    and_flush around (token_of n) limiter
      (send_progress_notification_direct around n (set_limiter (token_of n) limiter s))

-- The notification is buffered; when that fails, it is sent.
unfoldable pub send_later :
    Surroundings → ProgressNotification → ProgressRateLimiter → Server → Server × Option SendError
send_later around n limiter s =
    let buffered = buffer_notification limiter n in
    let s' = set_limiter (token_of n) buffered.0 s in
    if buffered.1 then (s', none) else send_progress_notification_direct around n s'

unfoldable pub send_progress_notification_with_rate_limit :
    Surroundings → ProgressNotification → Server → Server × Option SendError
send_progress_notification_with_rate_limit around n s =
    let asked =
      can_send_notification (get_or_create_rate_limiter around (token_of n) s) around.now in
    if asked.1 then send_now around n asked.0 s else send_later around n asked.0 s

abbrev pub or_invalid :
    Option NotificationError → Server → Server × Option SendError → Server × Option SendError
or_invalid (some e) s result = (s, some (invalid e))
or_invalid none s result = result

-- `SendProgressNotification`
unfoldable pub send_progress_notification :
    Surroundings → String → Float64 → Option Float64 → String → Server → Server × Option SendError
send_progress_notification around token progress total message s =
    let n =
      new_progress_notification_for_version token progress total message
        (version_or_draft s.protocol_version) in
    if validate_token s.progress_token_manager token
    then or_invalid (validate n) s (send_progress_notification_with_rate_limit around n s)
    else (s, some invalid_token)

-- `SendProgressNotificationDirect`, with the exported name's version check.
unfoldable pub send_given_notification :
    Surroundings → ProgressNotification → Server → Server × Option SendError
send_given_notification around given s =
    let n : ProgressNotification =
      if given.protocol_version == ""
      then record given { protocol_version = version_or_draft s.protocol_version }
      else given in
    or_invalid (validate n) s (
      if validate_token s.progress_token_manager (token_of n)
      then send_progress_notification_with_rate_limit around n s
      else (s, some invalid_token))

-- The loop of `ProcessBufferedNotifications` over a copy of the map.
unfoldable pub flush_all : Surroundings → Dict String ProgressRateLimiter → Server → Server
flush_all around [] s = s
flush_all around ((token, limiter) ∷ limiters) s =
    flush_all around limiters (flush around token limiter s)

unfoldable pub process_buffered_notifications : Surroundings → Server → Server
process_buffered_notifications around s = flush_all around h.rate_limiters s
  where
    h : ProgressNotificationHandler
    h = s.handler

abbrev pub with_token : Server → ProgressTokenManager × String → Server × String
with_token s (ptm, token) = (set_tokens ptm s, token)

unfoldable pub create_progress_token : Surroundings → Randomness → String → Server → Server × String
create_progress_token around randomness request_id s = with_token s (
    generate_token_for_version s.progress_token_manager around.now randomness request_id
      (version_or_draft s.protocol_version))

abbrev pub with_manager :
    Server → Result TokenError ProgressTokenManager → Server × Option TokenError
with_manager s (ok ptm) = (set_tokens ptm s, none)
with_manager s (err e) = (s, some e)

-- The error of the final notification is logged.
unfoldable pub complete_progress :
    Surroundings → String → String → Server → Server × Option TokenError
complete_progress around token message s =
    let sent =
      (send_progress_notification around token hundred_float (some hundred_float) message s).0 in
    with_manager sent (deactivate_token sent.progress_token_manager token)

unfoldable pub cleanup_expired_progress_tokens : Surroundings → ℕ → Server → Server × ℕ
cleanup_expired_progress_tokens around expiration s =
    let cleaned = cleanup_expired_tokens s.progress_token_manager around.now expiration in
    (set_tokens cleaned.0 s, cleaned.1)

abbrev pub touched : Surroundings → ProgressNotification → Server → Server
touched around n s =
    set_tokens
      (kept (update_token s.progress_token_manager around.now (token_of n))
        s.progress_token_manager)
      s

-- By the error of the validation and whether the token is active: an unknown token is ignored.
abbrev pub receive_if :
    Option NotificationError
    → Bool
    → Surroundings
    → ProgressNotification
    → Server
    → Server × Option NotificationError
receive_if (some e) active around n s = (s, some e)
receive_if none true around n s = (publish_to_channel around n (touched around n s), none)
receive_if none false around n s = (s, none)

-- `HandleProgressNotification`, on a message that parses.
unfoldable pub handle_progress_notification :
    Surroundings → ProgressNotification → Server → Server × Option NotificationError
handle_progress_notification around n s =
    receive_if (validate n) (validate_token s.progress_token_manager (token_of n)) around n s

unfoldable pub reconfigure_all :
    ProgressRateLimitConfig → Dict String ProgressRateLimiter → Dict String ProgressRateLimiter
reconfigure_all config [] = []
reconfigure_all config ((token, limiter) ∷ limiters) =
    (token, reconfigured config limiter) ∷ reconfigure_all config limiters

-- `SetConfiguration`
unfoldable pub set_configuration : ProgressRateLimitConfig → Server → Server
set_configuration config s = record s {
  handler = record h { config = config; rate_limiters = reconfigure_all config h.rate_limiters };
}
  where
    h : ProgressNotificationHandler
    h = s.handler

-- The limiters of active tokens: what `CleanupRateLimiters` keeps.
unfoldable pub active_limiters :
    ProgressTokenManager → Dict String ProgressRateLimiter → Dict String ProgressRateLimiter
active_limiters ptm [] = []
active_limiters ptm ((token, limiter) ∷ limiters) =
    if validate_token ptm token
    then (token, limiter) ∷ active_limiters ptm limiters
    else active_limiters ptm limiters

unfoldable pub cleanup_rate_limiters : Server → Server
cleanup_rate_limiters s = record s {
  handler = record h { rate_limiters = active_limiters s.progress_token_manager h.rate_limiters };
}
  where
    h : ProgressNotificationHandler
    h = s.handler
