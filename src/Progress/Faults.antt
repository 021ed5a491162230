-- ===== src/Progress/Faults.antt =====
-- What the rate limit does to the order of notifications, and to those of a finished operation.
use gomcp.Prelude.{
  ◌≡◌, ◌+◌, length, Bool, true, false, List, [], ◌∷◌, ◌++◌, if◌then◌else◌, arith, refl, sym, ◌∙◌,
  ap, subst, some, none, Option, String, string_key, lookup, All, lookup-insert_self,
}
use gomcp.Progress.Floats.{Float64, lt_float}
use gomcp.Progress.Notifications.{ProgressNotification, decreases, to_json}
use gomcp.Progress.Tokens.{
  ProgressToken, ProgressTokenManager, time_digits, token_text, validate_token,
  generate_token_for_version,
}
use gomcp.Progress.RateLimiter.{
  ProgressRateLimiter, token_of, buffer_notification, reaches, drop_newest, overflow,
  process_buffer,
}
use gomcp.Progress.Buffers.{process_buffer-splits}
use gomcp.Progress.Server.{
  Server, Surroundings, SendError, invalid_token, progress_validation_failed, set_limiter,
  transmit_if, after_send, send_checked, send_progress_notification_direct, send_all,
}
use gomcp.Progress.Sending.{
  flush, and_flush, send_now, send_later, send_progress_notification, create_progress_token,
}
use gomcp.Progress.Direct.{last_progress_of}
use gomcp.Progress.Order.{progress_of, advanced, told_active}

-- What a notification that does not go back does, when the transport takes it.
direct-sends :
    (around : Surroundings) (n : ProgressNotification) (s : Server) (t : ProgressToken)
    → lookup (token_of n) s.progress_token_manager.tokens ≡ some t
    → lt_float (progress_of n) t.last_progress ≡ false
    → s.has_transport ≡ true
    → around.delivers (to_json n) ≡ true
    → send_progress_notification_direct around n s
      ≡ (after_send around n (record s { wire = to_json n ∷ s.wire }), none)
unfolding send_progress_notification_direct decreases
direct-sends around n s t l up has good =
    ap (send_checked around n s) (last_progress_of s.progress_token_manager (token_of n) t l)
    ∙ rw up (
        ap (λ b. transmit_if b (around.delivers (to_json n)) around n s) has
        ∙ ap (λ b. transmit_if true b around n s) good)

-- A notification that goes back is refused.
direct-refuses :
    (around : Surroundings) (n : ProgressNotification) (s : Server) (t : ProgressToken)
    → lookup (token_of n) s.progress_token_manager.tokens ≡ some t
    → lt_float (progress_of n) t.last_progress ≡ true
    → send_progress_notification_direct around n s ≡ (s, some progress_validation_failed)
unfolding send_progress_notification_direct decreases
direct-refuses around n s t l back =
    ap (send_checked around n s) (last_progress_of s.progress_token_manager (token_of n) t l)
    ∙ rw back refl

-- A notification of token `k` whose progress is below `bound`.
abbrev pub IsBehind : String → Float64 → ProgressNotification → Type 0
IsBehind k bound n = (token_of n ≡ k) × (lt_float (progress_of n) bound ≡ true)

send_all-refused :
    (around : Surroundings) (ns : List ProgressNotification) (k : String) (s : Server)
    (t : ProgressToken)
    → lookup k s.progress_token_manager.tokens ≡ some t
    → All (IsBehind k t.last_progress) ns
    → send_all around ns s ≡ s
unfolding send_all
send_all-refused around [] k s t l all = refl
send_all-refused around (n ∷ ns) k s t l ((same, back), all) =
    let refused =
      direct-refuses around n s t
        (subst (λ j. lookup j s.progress_token_manager.tokens ≡ some t) (sym same) l) back in
    ap (λ (r : Server × Option SendError). send_all around ns r.0) refused
    ∙ send_all-refused around ns k s t l all

All-prefix :
    (P : ProgressNotification → Type 0) (xs ys : List ProgressNotification)
    → All P (xs ++ ys)
    → All P xs
All-prefix P [] ys all = tt
All-prefix P (x ∷ xs) ys (p, all) = (p, All-prefix P xs ys all)

-- When the rate limit frees up, the new notification is sent first: of the older ones in the
-- buffer, with less progress, those that then leave the buffer are refused, and none of them is
-- ever sent.
pub send_now-loses_buffered :
    (around : Surroundings) (n : ProgressNotification) (limiter : ProgressRateLimiter) (s : Server)
    (t : ProgressToken)
    → lookup (token_of n) s.progress_token_manager.tokens ≡ some t
    → t.is_active ≡ true
    → lt_float (progress_of n) t.last_progress ≡ false
    → s.has_transport ≡ true
    → around.delivers (to_json n) ≡ true
    → All (IsBehind (token_of n) (progress_of n)) limiter.buffer
    → ((send_now around n limiter s).0.wire ≡ to_json n ∷ s.wire)
      × ((send_now around n limiter s).1 ≡ none)
unfolding send_now flush
send_now-loses_buffered around n limiter s t l on up has good behind =
    let s' = set_limiter (token_of n) limiter s in
    let sent = direct-sends around n s' t l up has good in
    let after = after_send around n (record s' { wire = to_json n ∷ s'.wire }) in
    let processed = process_buffer limiter around.clock in
    let flushed = set_limiter (token_of n) processed.0 after in
    let known : lookup (token_of n) flushed.progress_token_manager.tokens
        ≡ some (advanced around.now n t) =
      subst
        (λ (m : ProgressTokenManager).
          lookup (token_of n) m.tokens ≡ some (advanced around.now n t))
        (sym (told_active s.progress_token_manager around.now n t l on up))
        (lookup-insert_self (token_of n) (advanced around.now n t)
          s.progress_token_manager.tokens) in
    let refused =
      send_all-refused around processed.1 (token_of n) flushed (advanced around.now n t) known (
        All-prefix (IsBehind (token_of n) (progress_of n)) processed.1 processed.0.buffer (
          subst (All (IsBehind (token_of n) (progress_of n)))
            (sym (process_buffer-splits limiter around.clock)) behind)) in
    subst
      (λ (r : Server × Option SendError).
        ((and_flush around (token_of n) limiter r).0.wire ≡ to_json n ∷ s.wire)
        × ((and_flush around (token_of n) limiter r).1 ≡ none))
      (sym sent) (ap (λ (v : Server). v.wire) refused, refl)

-- For a token that is no longer active, a new notification is refused, but one that is already in
-- a buffer is sent when it is its turn: also after the operation has completed.
pub flush-sends_inactive :
    (around : Surroundings) (n : ProgressNotification) (s : Server) (t : ProgressToken)
    (progress : Float64) (total : Option Float64) (message : String)
    → lookup (token_of n) s.progress_token_manager.tokens ≡ some t
    → t.is_active ≡ false
    → lt_float (progress_of n) t.last_progress ≡ false
    → s.has_transport ≡ true
    → around.delivers (to_json n) ≡ true
    → (send_progress_notification around (token_of n) progress total message s
        ≡ (s, some invalid_token))
      × ((send_all around (n ∷ []) s).wire ≡ to_json n ∷ s.wire)
unfolding send_progress_notification validate_token send_all
flush-sends_inactive around n s t progress total message l off up has good = (
  ground (arith, l, off),
  ap (λ (r : Server × Option SendError). r.0.wire) (direct-sends around n s t l up has good),
)

-- A limiter after the newest notification is dropped.
abbrev dropping : ProgressRateLimiter → ProgressRateLimiter
dropping limiter = record limiter {
  total_notifications = limiter.total_notifications + 1;
  dropped_notifications = limiter.dropped_notifications + 1;
}

buffer_notification-drops :
    (n : ProgressNotification) (limiter : ProgressRateLimiter)
    → reaches (length limiter.buffer) limiter.buffer_size ≡ true
    → limiter.overflow_strategy ≡ drop_newest
    → buffer_notification limiter n ≡ (dropping limiter, false)
unfolding buffer_notification overflow
buffer_notification-drops n limiter full strategy =
    let counted = record limiter { total_notifications = limiter.total_notifications + 1 } in
    rw full (ap (λ x. overflow x n counted) strategy)

-- With the strategy that drops the newest, a notification that finds the rate exhausted and the buffer
-- full is counted as dropped, and sent all the same.
pub send_later-drop_newest :
    (around : Surroundings) (n : ProgressNotification) (limiter : ProgressRateLimiter) (s : Server)
    (t : ProgressToken)
    → lookup (token_of n) s.progress_token_manager.tokens ≡ some t
    → lt_float (progress_of n) t.last_progress ≡ false
    → s.has_transport ≡ true
    → around.delivers (to_json n) ≡ true
    → reaches (length limiter.buffer) limiter.buffer_size ≡ true
    → limiter.overflow_strategy ≡ drop_newest
    → ((send_later around n limiter s).0.wire ≡ to_json n ∷ s.wire)
      × ((buffer_notification limiter n).0.dropped_notifications
          ≡ limiter.dropped_notifications + 1)
unfolding send_later overflow
send_later-drop_newest around n limiter s t l up has good full strategy =
    let drops = buffer_notification-drops n limiter full strategy in
    let k = token_of n in
    let dropped = dropping limiter in
    (
      ap
            (λ (r : ProgressRateLimiter × Bool).
              (if r.1
                then (set_limiter k r.0 s, none)
                else send_progress_notification_direct around n (set_limiter k r.0 s)).0.wire)
            drops
          ∙ ap (λ (r : Server × Option SendError). r.0.wire)
              (direct-sends around n (set_limiter k dropped s) t l up has good),
      ap (λ (r : ProgressRateLimiter × Bool). r.0.dropped_notifications) drops,
    )

-- When no random numbers are available, the token that a request gets is not known to the manager:
-- every notification for it is refused.
pub create-fallback_refused :
    (around : Surroundings) (digits request_id : String) (s : Server) (progress : Float64)
    (total : Option Float64) (message : String)
    → lookup (token_text (time_digits digits) request_id) s.progress_token_manager.tokens ≡ none
    → (let created = create_progress_token around (time_digits digits) request_id s in
        send_progress_notification around created.1 progress total message created.0
        ≡ (s, some invalid_token))
unfolding create_progress_token generate_token_for_version send_progress_notification validate_token
create-fallback_refused around digits request_id s progress total message absent =
    ground (arith, absent)
