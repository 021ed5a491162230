-- ===== src/Progress/Server.antt =====
-- The server's side of progress: ProgressNotificationHandler and the methods of serverImpl in
-- server/progress.go. Sending and publishing are recorded, the newest entry first; the fields
-- that `NewServer` sets (the token manager, the handler, the channel) are there.
use gomcp.Prelude.{
  ℕ, Bool, true, false, String, Option, none, some, List, [], ◌∷◌, if◌then◌else◌, Dict, lookup,
  insert, string_key, ◌==◌, Result, ok, err,
}
use gomcp.Progress.Floats.{Float64}
use gomcp.Progress.Notifications.{
  ProgressNotification, ProgressNotificationParams, NotificationError, decreases, to_json,
}
use gomcp.Progress.Tokens.{
  ProgressTokenManager, TokenError, new_progress_token_manager, update_token_with_progress,
  get_last_progress,
}
use gomcp.Progress.Channel.{ProgressChannel, new_progress_channel, publish}
use gomcp.Progress.RateLimiter.{
  ProgressRateLimiter, ProgressRateLimitConfig, new_progress_rate_limiter,
  new_default_progress_rate_limit_config, token_of,
}

pub record ProgressNotificationHandler : Type 0 where
  pub rate_limiters : Dict String ProgressRateLimiter
  pub channel : ProgressChannel
  pub config : ProgressRateLimitConfig

-- `wire` holds what the transport has taken, `heard` the calls of listeners.
pub record Server : Type 0 where
  pub protocol_version : String
  pub has_transport : Bool
  pub progress_token_manager : ProgressTokenManager
  pub handler : ProgressNotificationHandler
  pub wire : List ProgressNotification
  pub heard : List (List ℕ × ProgressNotification)

pub data SendError : Type 0 where
  invalid_token progress_validation_failed transport_failed : SendError
  invalid : NotificationError → SendError

-- What surrounds one call: the time, the answers of the transport and of the listeners.
pub record Surroundings : Type 0 where
  pub now : ℕ
  pub clock : ℕ → ℕ
  pub delivers : ProgressNotification → Bool
  pub fails : ℕ → Bool

abbrev pub new_server : String → Bool → Server
new_server protocol_version has_transport = record {
  protocol_version = protocol_version;
  has_transport = has_transport;
  progress_token_manager = new_progress_token_manager;
  handler = record {
    rate_limiters = [];
    channel = new_progress_channel;
    config = new_default_progress_rate_limit_config;
  };
  wire = [];
  heard = [];
}

abbrev pub version_or_draft : String → String
version_or_draft version = if version == "" then "draft" else version

abbrev pub set_tokens : ProgressTokenManager → Server → Server
set_tokens ptm s = record s { progress_token_manager = ptm }

abbrev pub set_limiter : String → ProgressRateLimiter → Server → Server
set_limiter token limiter s = record s {
  handler = record h { rate_limiters = insert token limiter h.rate_limiters };
}
  where
    h : ProgressNotificationHandler
    h = s.handler

-- `GetOrCreateRateLimiter`
unfoldable pub get_or_create_rate_limiter : Surroundings → String → Server → ProgressRateLimiter
get_or_create_rate_limiter around token s = elim (lookup token h.rate_limiters) [
  | some limiter ↦ limiter
  | none ↦ new_progress_rate_limiter h.config around.now
]
  where
    h : ProgressNotificationHandler
    h = s.handler

-- The manager after a call of it whose error is only logged.
abbrev pub kept :
    Result TokenError ProgressTokenManager → ProgressTokenManager → ProgressTokenManager
kept (ok ptm) old = ptm
kept (err e) old = old

-- The channel's listeners are called, if it is active; their errors are logged.
abbrev pub publish_to_channel : Surroundings → ProgressNotification → Server → Server
publish_to_channel around n s = record s {
  heard = if c.active then ((publish c around.fails n).0, n) ∷ s.heard else s.heard;
}
  where
    h : ProgressNotificationHandler
    h = s.handler

    c : ProgressChannel
    c = h.channel

-- The end of `sendProgressNotificationDirect`: listeners, then the token. Their errors are logged.
abbrev pub after_send : Surroundings → ProgressNotification → Server → Server
after_send around n s =
    set_tokens
      (kept
        (update_token_with_progress s.progress_token_manager around.now p.progress_token p.progress)
        s.progress_token_manager)
      (publish_to_channel around n s)
  where
    p : ProgressNotificationParams
    p = n.params

-- By whether there is a transport, and whether it takes the message.
abbrev pub transmit_if :
    Bool → Bool → Surroundings → ProgressNotification → Server → Server × Option SendError
transmit_if false delivered around n s = (after_send around n s, none)
transmit_if true true around n s =
    (after_send around n (record s { wire = to_json n ∷ s.wire }), none)
transmit_if true false around n s = (s, some transport_failed)

abbrev pub transmit : Surroundings → ProgressNotification → Server → Server × Option SendError
transmit around n s = transmit_if s.has_transport (around.delivers (to_json n)) around n s

-- The notification is sent unless it goes back behind the last progress of its token, if it has one.
abbrev pub send_checked :
    Surroundings → ProgressNotification → Server → Option Float64 → Server × Option SendError
send_checked around n s none = transmit around n s
send_checked around n s (some last_progress) =
    if decreases n last_progress then (s, some progress_validation_failed) else transmit around n s

unfoldable pub send_progress_notification_direct :
    Surroundings → ProgressNotification → Server → Server × Option SendError
send_progress_notification_direct around n s =
    send_checked around n s (get_last_progress s.progress_token_manager (token_of n))

-- The loop over notifications that leave a buffer: errors are logged.
unfoldable pub send_all : Surroundings → List ProgressNotification → Server → Server
send_all around [] s = s
send_all around (n ∷ ns) s = send_all around ns (send_progress_notification_direct around n s).0
