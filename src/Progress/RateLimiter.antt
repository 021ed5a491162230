-- ===== src/Progress/RateLimiter.antt =====
-- ProgressRateLimiter (server/progress.go). The batching fields, which nothing reads after
-- `NewProgressRateLimiter`, are left out, and so is the panic of `make` on a negative batch size.
use gomcp.Prelude.{
  ℕ, ◌+◌, ◌-◌, Bool, true, false, String, Option, none, some, List, [], ◌∷◌, ◌++◌, leb, length,
  if◌then◌else◌, ◌==◌, string_key, ℤ, pos, negsuc,
}
use gomcp.Progress.Notifications.{ProgressNotification, ProgressNotificationParams}

pub data OverflowStrategy : Type 0 where
  drop_oldest drop_newest combine_notifications block_until_space : OverflowStrategy

pub record ProgressRateLimitConfig : Type 0 where
  pub max_notifications_per_second : ℤ
  pub buffer_size : ℤ
  pub overflow_strategy : OverflowStrategy
  pub combine_threshold : ℕ

pub record ProgressRateLimiter : Type 0 where
  pub max_notifications_per_second : ℤ
  pub last_notification_time : ℕ
  pub notification_count : ℕ
  pub window_start : ℕ
  pub buffer : List ProgressNotification
  pub buffer_size : ℤ
  pub overflow_strategy : OverflowStrategy
  pub combine_threshold : ℕ
  pub total_notifications : ℕ
  pub dropped_notifications : ℕ
  pub combined_notifications : ℕ

-- `time.Second`, in nanoseconds.
abbrev pub second : ℕ
second = 1_000_000_000

abbrev pub new_default_progress_rate_limit_config : ProgressRateLimitConfig
new_default_progress_rate_limit_config = record {
  max_notifications_per_second = pos 10;
  buffer_size = pos 100;
  overflow_strategy = combine_notifications;
  combine_threshold = 100_000_000;
}

unfoldable pub new_progress_rate_limiter : ProgressRateLimitConfig → ℕ → ProgressRateLimiter
new_progress_rate_limiter config now = record {
  max_notifications_per_second = config.max_notifications_per_second;
  last_notification_time = 0;
  notification_count = 0;
  window_start = now;
  buffer = [];
  buffer_size = config.buffer_size;
  overflow_strategy = config.overflow_strategy;
  combine_threshold = config.combine_threshold;
  total_notifications = 0;
  dropped_notifications = 0;
  combined_notifications = 0;
}

-- `n >= limit`, for a count and an int.
abbrev pub reaches : ℕ → ℤ → Bool
reaches n (pos limit) = leb limit n
reaches n (negsuc k) = true

-- The window starts again when a second has passed.
unfoldable pub reset_window : ℕ → ProgressRateLimiter → ProgressRateLimiter
reset_window now prl =
    if leb second (now - prl.window_start)
    then record prl { window_start = now; notification_count = 0 }
    else prl

abbrev pub counted : ℕ → ProgressRateLimiter → ProgressRateLimiter
counted now prl = record prl {
  notification_count = prl.notification_count + 1;
  last_notification_time = now;
}

abbrev pub allow : ℕ → ProgressRateLimiter → ProgressRateLimiter × Bool
allow now prl =
    if reaches prl.notification_count prl.max_notifications_per_second
    then (prl, false)
    else (counted now prl, true)

unfoldable pub can_send_notification : ProgressRateLimiter → ℕ → ProgressRateLimiter × Bool
can_send_notification prl now = allow now (reset_window now prl)

abbrev pub token_of : ProgressNotification → String
token_of pn = p.progress_token
  where
    p : ProgressNotificationParams
    p = pn.params

-- `existing` after the newer notification is combined into it.
unfoldable pub combined : ProgressNotification → ProgressNotification → ProgressNotification
combined existing newer = record existing {
  params = record old {
    progress = new.progress;
    total = elim new.total [ none ↦ old.total | some total ↦ some total ];
    message = if new.message == "" then old.message else new.message;
  };
}
  where
    old : ProgressNotificationParams
    old = existing.params

    new : ProgressNotificationParams
    new = newer.params

-- The loop from the back of the buffer: the last notification with the token is combined.
unfoldable pub combine_last :
    ProgressNotification → List ProgressNotification → Option (List ProgressNotification)
combine_last newer [] = none
combine_last newer (existing ∷ buffer) = elim (combine_last newer buffer) [
  | some buffer' ↦ some (existing ∷ buffer')
  | none ↦
      if token_of existing == token_of newer then some (combined existing newer ∷ buffer) else none
]

-- The front of the buffer goes, and counts as dropped, if there is one.
unfoldable pub drop_front : List ProgressNotification → ProgressRateLimiter → ProgressRateLimiter
drop_front [] prl = prl
drop_front (oldest ∷ buffer) prl = record prl {
  buffer = buffer;
  dropped_notifications = prl.dropped_notifications + 1;
}

abbrev pub push_back : ProgressNotification → ProgressRateLimiter → ProgressRateLimiter
push_back notification prl = record prl { buffer = prl.buffer ++ (notification ∷ []) }

abbrev pub combine_into :
    Option (List ProgressNotification)
    → ProgressNotification
    → ProgressRateLimiter
    → ProgressRateLimiter
combine_into (some buffer) newer prl = record prl {
  buffer = buffer;
  combined_notifications = prl.combined_notifications + 1;
}
combine_into none newer prl = push_back newer (drop_front prl.buffer prl)

unfoldable pub combine_notification :
    ProgressNotification → ProgressRateLimiter → ProgressRateLimiter
combine_notification newer prl = combine_into (combine_last newer prl.buffer) newer prl

-- What each strategy does with a notification that finds the buffer full; `false` is the error.
unfoldable pub overflow :
    OverflowStrategy → ProgressNotification → ProgressRateLimiter → ProgressRateLimiter × Bool
overflow drop_oldest n prl = (push_back n (drop_front prl.buffer prl), true)
overflow drop_newest n prl =
    (record prl { dropped_notifications = prl.dropped_notifications + 1 }, false)
overflow combine_notifications n prl = (combine_notification n prl, true)
overflow block_until_space n prl = (push_back n (drop_front prl.buffer prl), true)

abbrev pub enqueue : ProgressNotification → ProgressRateLimiter → ProgressRateLimiter × Bool
enqueue n prl =
    if reaches (length prl.buffer) prl.buffer_size
    then overflow prl.overflow_strategy n prl
    else (push_back n prl, true)

unfoldable pub buffer_notification :
    ProgressRateLimiter → ProgressNotification → ProgressRateLimiter × Bool
buffer_notification prl n =
    enqueue n (record prl { total_notifications = prl.total_notifications + 1 })

-- The loop of `ProcessBuffer` over the buffer; `clock i` is the time that round `i` reads.
unfoldable pub drain :
    List ProgressNotification
    → (ℕ → ℕ)
    → ℕ
    → ProgressRateLimiter
    → ProgressRateLimiter × List ProgressNotification
drain [] clock i prl = (record prl { buffer = [] }, [])
drain (front ∷ buffer) clock i prl =
    let asked = can_send_notification prl (clock i) in
    let rest = drain buffer clock (i + 1) asked.0 in
    if asked.1 then (rest.0, front ∷ rest.1) else (record asked.0 { buffer = front ∷ buffer }, [])

unfoldable pub process_buffer :
    ProgressRateLimiter → (ℕ → ℕ) → ProgressRateLimiter × List ProgressNotification
process_buffer prl clock = drain prl.buffer clock 0 prl

-- What `SetConfiguration` does to an existing limiter.
unfoldable pub reconfigured : ProgressRateLimitConfig → ProgressRateLimiter → ProgressRateLimiter
reconfigured config prl = record prl {
  max_notifications_per_second = config.max_notifications_per_second;
  buffer_size = config.buffer_size;
  overflow_strategy = config.overflow_strategy;
  combine_threshold = config.combine_threshold;
}
