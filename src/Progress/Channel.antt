-- ===== src/Progress/Channel.antt =====
-- ProgressChannel (mcp/progress.go). A listener is a number that stands for the function, and
-- whether a call of it fails is a parameter.
use gomcp.Prelude.{
  ℕ, Bool, true, false, not, String, Option, none, some, List, [], ◌∷◌, ◌++◌, if◌then◌else◌, Dict,
  lookup, insert, erase, string_key,
}
use gomcp.Progress.Notifications.{
  ProgressNotification, ProgressNotificationParams, NotificationError, validate,
}

pub record ProgressChannel : Type 0 where
  pub listeners : Dict String (List ℕ)
  pub active : Bool

pub data ChannelError : Type 0 where
  channel_inactive : ChannelError
  invalid_notification : NotificationError → ChannelError
  listener_failed : ℕ → ChannelError

abbrev pub new_progress_channel : ProgressChannel
new_progress_channel = record { listeners = []; active = true }

-- `listeners[token]`, which is empty for a missing key.
unfoldable pub listeners_of : ProgressChannel → String → List ℕ
listeners_of pc token = elim (lookup token pc.listeners) [ none ↦ [] | some ls ↦ ls ]

unfoldable pub subscribe : ProgressChannel → String → ℕ → ProgressChannel
subscribe pc token listener = if not pc.active then pc else record pc {
  listeners = insert token (listeners_of pc token ++ (listener ∷ [])) pc.listeners;
}

abbrev pub subscribe_all : ProgressChannel → ℕ → ProgressChannel
subscribe_all pc listener = subscribe pc "" listener

unfoldable pub unsubscribe : ProgressChannel → String → ProgressChannel
unsubscribe pc token = record pc { listeners = erase token pc.listeners }

-- The error of the last listener that failed.
unfoldable pub last_failure : (ℕ → Bool) → List ℕ → Option ChannelError → Option ChannelError
last_failure fails [] last_error = last_error
last_failure fails (l ∷ ls) last_error =
    last_failure fails ls (if fails l then some (listener_failed l) else last_error)

-- The listeners that `Publish` calls, in order, and its error.
unfoldable pub publish :
    ProgressChannel → (ℕ → Bool) → ProgressNotification → List ℕ × Option ChannelError
publish pc fails notification =
    if not pc.active then ([], some channel_inactive) else elim (validate notification) [
      | some e ↦ ([], some (invalid_notification e))
      | none ↦
          (let called = listeners_of pc p.progress_token ++ listeners_of pc "" in
            (called, last_failure fails called none))
    ]
  where
    p : ProgressNotificationParams
    p = notification.params

unfoldable pub close : ProgressChannel → ProgressChannel
close pc = record pc { active = false; listeners = [] }
