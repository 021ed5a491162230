-- ===== src/Progress/Tests.antt =====
-- The properties of progress at concrete inputs.
use gomcp.Prelude.{
  ℕ, ◌≡◌, true, false, some, none, List, [], ◌∷◌, refl, pos, lookup, insert, string_key, ◌≤◌, arith,
}
use gomcp.Progress.Floats.{lt_float}
use gomcp.Progress.Notifications.{
  ProgressNotification, new_progress_notification_for_version, validate, has_message, to_json,
  decreases,
}
use gomcp.Progress.Tokens.{
  ProgressToken, random_digits, token_text, generate_token_for_version, update_token_with_progress,
  get_last_progress, validate_token,
}
use gomcp.Progress.Channel.{new_progress_channel, publish, listeners_of}
use gomcp.Progress.RateLimiter.{
  ProgressRateLimiter, OverflowStrategy, drop_newest, drop_oldest, combine_notifications,
  can_send_notification, buffer_notification, process_buffer, second, reaches,
}
use gomcp.Progress.Server.{
  Server, Surroundings, new_server, send_progress_notification_direct, send_all, invalid_token,
}
use gomcp.Progress.Sending.{send_now, send_later, send_progress_notification, create_progress_token}
use gomcp.Progress.Order.{CountsUpTo, sent_for}
use gomcp.Progress.History.{Call, sends, creates, perform_all-CountsUpTo}
use gomcp.Progress.Rates.{allowed, allowed-bounded}
use gomcp.Progress.Buffers.{accounted, buffer_notification-accounted}
use gomcp.Progress.Faults.{send_now-loses_buffered}
use gomcp.Progress.Reporter.{
  FloatFunctions, Reporting, ReporterError, not_active, new_progress_reporter, update,
  complete_reporter, cancel_reporter,
}
use gomcp.Progress.Reports.{IsAscending}
use gomcp.Progress.Ascending.{
  ReporterCall, updates, increments, sets_total, cancels, run_reporter, run_reporter-IsAscending,
  update-stopped,
}
use gomcp.Progress.Subscriptions.{subscribes, run_calls, subscribed, publish-subscribed}

abbrev calm : Surroundings
calm = record { now = 0; clock = λ i. 0; delivers = λ n. true; fails = λ l. false }

abbrev at_progress : ℕ → ProgressNotification
at_progress p = record {
  jsonrpc = "2.0";
  method = "notifications/progress";
  params = record { progress_token = "progress_ab"; progress = pos p; total = none; message = "" };
  protocol_version = "draft";
}

abbrev one_report : List (Surroundings × Call)
one_report =
    (calm, creates (random_digits "ab") "request")
    ∷ (calm, sends "progress_ab" (pos 5) none "")
    ∷ []

abbrev reported_token : ProgressToken
reported_token = record {
  token = "progress_ab";
  request_id = "request";
  created_at = 0;
  last_update = 0;
  is_active = true;
  last_progress = pos 5;
  protocol_version = "draft";
}

perform_all-CountsUpTo_example : CountsUpTo (pos 5) (pos 5 ∷ [])
unfolding sent_for lookup send_progress_notification validate_token create_progress_token
    generate_token_for_version insert token_text validate new_progress_notification_for_version
    lt_float gomcp.Progress.Sending.send_progress_notification_with_rate_limit can_send_notification
    gomcp.Progress.RateLimiter.reset_window gomcp.Progress.Server.get_or_create_rate_limiter
    gomcp.Progress.RateLimiter.new_progress_rate_limiter send_now listeners_of publish decreases
    has_message to_json gomcp.Progress.RateLimiter.drain process_buffer gomcp.Progress.Sending.flush
    send_all send_progress_notification_direct get_last_progress update_token_with_progress
perform_all-CountsUpTo_example =
    perform_all-CountsUpTo "draft" true one_report "progress_ab" reported_token (refl, (tt, tt))
      refl refl

abbrev limiter : List ProgressNotification → ProgressRateLimiter
limiter buffer = record {
  max_notifications_per_second = pos 2;
  last_notification_time = 0;
  notification_count = 0;
  window_start = 0;
  buffer = buffer;
  buffer_size = pos 2;
  overflow_strategy = drop_newest;
  combine_threshold = 0;
  total_notifications = 0;
  dropped_notifications = 0;
  combined_notifications = 0;
}

allowed-bounded_example : allowed (limiter []) (10 ∷ 20 ∷ 30 ∷ []) ≤ 4
allowed-bounded_example =
    allowed-bounded (limiter []) 0 0 (10 ∷ 20 ∷ 30 ∷ []) (omega arith)
      (omega arith, omega arith, (omega arith, omega arith, (omega arith, omega arith, tt)))

buffer_notification-accounted_example :
    (accounted
        (buffer_notification (limiter (at_progress 1 ∷ at_progress 2 ∷ [])) (at_progress 3)).0
      ≡ 3)
    × ((buffer_notification
          (limiter (at_progress 1 ∷ at_progress 2 ∷ []))
          (at_progress 3)).0.total_notifications
        ≡ 1)
buffer_notification-accounted_example =
    buffer_notification-accounted (limiter (at_progress 1 ∷ at_progress 2 ∷ [])) (at_progress 3)

abbrev with_entry : ProgressToken → Server
with_entry t = record new { progress_token_manager = record { tokens = ("progress_ab", t) ∷ [] } }
  where
    new : Server
    new = new_server "draft" true

send_now-loses_buffered_example :
    ((send_now calm
        (at_progress 9)
        (limiter (at_progress 7 ∷ []))
        (with_entry reported_token)).0.wire
      ≡ at_progress 9 ∷ [])
    × ((send_now calm (at_progress 9) (limiter (at_progress 7 ∷ [])) (with_entry reported_token)).1
        ≡ none)
unfolding lookup lt_float to_json
send_now-loses_buffered_example =
    send_now-loses_buffered calm (at_progress 9) (limiter (at_progress 7 ∷ []))
      (with_entry reported_token) reported_token refl refl refl refl refl ((refl, refl), tt)

abbrev finished_token : ProgressToken
finished_token = record reported_token { is_active = false }

publish-subscribed_example :
    (publish
      (run_calls (subscribes "progress_ab" 1 ∷ subscribes "" 2 ∷ []) new_progress_channel)
      (λ l. false)
      (at_progress 1)).0
    ≡ 1 ∷ 2 ∷ []
unfolding validate lt_float subscribed
publish-subscribed_example =
    publish-subscribed (subscribes "progress_ab" 1 ∷ subscribes "" 2 ∷ []) (λ l. false)
      (at_progress 1) refl

-- Arithmetic that does not round, in which a sum is its first part.
abbrev whole : FloatFunctions
whole = record { thousandths = λ x. x; of_thousandths = λ n. n; plus = λ x y. x }

abbrev reporter_calls : List ReporterCall
reporter_calls =
    updates 3 true (pos 5) ""
    ∷ sets_total (pos 9)
    ∷ updates 4 true (pos 4) ""
    ∷ increments 5 true (pos 1) "more"
    ∷ updates 6 true (pos 7) ""
    ∷ cancels ""
    ∷ updates 7 true (pos 8) ""
    ∷ []

run_reporter-IsAscending_example :
    IsAscending
      (run_reporter whole reporter_calls (
        new_progress_reporter
          (record { tokens = [] })
          2
          (random_digits "ab")
          true
          "request"
          none
          ""
          "")).sent
run_reporter-IsAscending_example =
    run_reporter-IsAscending whole reporter_calls (record { tokens = [] }) 2 (random_digits "ab")
      true "request" none "" ""

abbrev ready : Reporting
ready =
    new_progress_reporter (record { tokens = [] }) 2 (random_digits "ab") true "request" none "" ""

update-stopped_example :
    ((failure : ReporterError) × (update whole 3 true
          (pos 5)
          ""
          (complete_reporter whole false "done" ready).0
        ≡ ((complete_reporter whole false "done" ready).0, some failure)))
    × (update whole 3 true (pos 5) "" (cancel_reporter "done" ready)
        ≡ (cancel_reporter "done" ready, some not_active))
update-stopped_example = update-stopped whole ready 3 true (pos 5) false "" "done"
