-- ===== src/Progress/Buffers.antt =====
-- What a limiter's buffer keeps, and what its statistics count.
use gomcp.Prelude.{
  ℕ, max, ◌+◌, ◌≤◌, ◌<◌, ◌≡◌, false, List, [], ◌∷◌, ◌++◌, length, length-append, ℤ, pos, negsuc,
  arith, to_nat, Bool-cases, Option-cases, inl, inr, refl, ap, some, none, Option, string_key,
}
use gomcp.Progress.Notifications.{ProgressNotification}
use gomcp.Progress.RateLimiter.{
  ProgressRateLimiter, can_send_notification, reaches, combine_last, drop_front, push_back,
  combine_notification, combine_into, overflow, enqueue, buffer_notification, drain, process_buffer,
  OverflowStrategy, drop_oldest, drop_newest, combine_notifications, block_until_space,
}

length-combine_last :
    (n : ProgressNotification) (buffer buffer' : List ProgressNotification)
    → combine_last n buffer ≡ some buffer'
    → length buffer' ≡ length buffer
unfolding combine_last
length-combine_last n [] buffer' e = cc
length-combine_last n (x ∷ buffer) buffer' e = elim (Option-cases (combine_last n buffer)) [
  | inl none_e ↦ ground (arith, none_e)
  | inr (b, some_e) ↦ ground (arith, some_e, length-combine_last n buffer b some_e)
]

-- How many of the notifications that were given are still held or counted as gone.
abbrev pub accounted : ProgressRateLimiter → ℕ
accounted prl = length prl.buffer + prl.dropped_notifications + prl.combined_notifications

-- One notification more is accounted for, and the total is the same.
Gains : ProgressRateLimiter → ProgressRateLimiter → Type 0
Gains prl prl' =
    (accounted prl' ≡ accounted prl + 1) × (prl'.total_notifications ≡ prl.total_notifications)

drop_front-Gains :
    (n : ProgressNotification) (b : List ProgressNotification) (prl : ProgressRateLimiter)
    → length prl.buffer ≡ length b
    → Gains prl (push_back n (drop_front b prl))
unfolding Gains drop_front
drop_front-Gains n [] prl e = (omega (arith, length-append prl.buffer (n ∷ [])), refl)
drop_front-Gains n (x ∷ b) prl e = (omega (arith, e, length-append b (n ∷ [])), refl)

combine_into-Gains :
    (n : ProgressNotification) (prl : ProgressRateLimiter)
    (found : Option (List ProgressNotification))
    → combine_last n prl.buffer ≡ found
    → Gains prl (combine_into found n prl)
unfolding Gains
combine_into-Gains n prl none e = drop_front-Gains n prl.buffer prl refl
combine_into-Gains n prl (some b) e = (omega (arith, length-combine_last n prl.buffer b e), refl)

overflow-Gains :
    (s : OverflowStrategy) (n : ProgressNotification) (prl : ProgressRateLimiter)
    → Gains prl (overflow s n prl).0
unfolding overflow combine_notification Gains
overflow-Gains drop_oldest n prl = drop_front-Gains n prl.buffer prl refl
overflow-Gains drop_newest n prl = (omega arith, refl)
overflow-Gains combine_notifications n prl =
    combine_into-Gains n prl (combine_last n prl.buffer) refl
overflow-Gains block_until_space n prl = drop_front-Gains n prl.buffer prl refl

enqueue-Gains : (n : ProgressNotification) (prl : ProgressRateLimiter) → Gains prl (enqueue n prl).0
unfolding Gains
enqueue-Gains n prl = elim (Bool-cases (reaches (length prl.buffer) prl.buffer_size)) [
  | inl full ↦ rw full (overflow-Gains prl.overflow_strategy n prl)
  | inr free ↦ rw free (omega (arith, length-append prl.buffer (n ∷ [])), refl)
]

-- Whatever the strategy, a notification that is given to the buffer is counted once in the total,
-- and once as held, dropped or combined: the buffer loses none without counting it.
pub buffer_notification-accounted :
    (prl : ProgressRateLimiter) (n : ProgressNotification)
    → (accounted (buffer_notification prl n).0 ≡ accounted prl + 1)
      × ((buffer_notification prl n).0.total_notifications ≡ prl.total_notifications + 1)
unfolding buffer_notification Gains
buffer_notification-accounted prl n =
    enqueue-Gains n (record prl { total_notifications = prl.total_notifications + 1 })

drop_front-length :
    (n : ProgressNotification) (b : List ProgressNotification) (prl : ProgressRateLimiter)
    → length prl.buffer ≡ length b
    → length (push_back n (drop_front b prl)).buffer ≤ max 1 (length b)
unfolding drop_front
drop_front-length n [] prl e = omega (arith, e, length-append prl.buffer (n ∷ []))
drop_front-length n (x ∷ b) prl e = omega (arith, length-append b (n ∷ []))

combine_into-length :
    (n : ProgressNotification) (prl : ProgressRateLimiter)
    (found : Option (List ProgressNotification))
    → combine_last n prl.buffer ≡ found
    → length (combine_into found n prl).buffer ≤ max 1 (length prl.buffer)
combine_into-length n prl none e = drop_front-length n prl.buffer prl refl
combine_into-length n prl (some b) e = omega (arith, length-combine_last n prl.buffer b e)

overflow-length :
    (s : OverflowStrategy) (n : ProgressNotification) (prl : ProgressRateLimiter)
    → length (overflow s n prl).0.buffer ≤ max 1 (length prl.buffer)
unfolding overflow combine_notification
overflow-length drop_oldest n prl = drop_front-length n prl.buffer prl refl
overflow-length drop_newest n prl = omega arith
overflow-length combine_notifications n prl =
    combine_into-length n prl (combine_last n prl.buffer) refl
overflow-length block_until_space n prl = drop_front-length n prl.buffer prl refl

free-lt : (n : ℕ) (z : ℤ) → reaches n z ≡ false → n < to_nat z
free-lt n (pos k) h = ground arith
free-lt n (negsuc k) h = cc

enqueue-length :
    (n : ProgressNotification) (prl : ProgressRateLimiter) (bound : ℕ)
    → length prl.buffer ≤ bound
    → 1 ≤ bound
    → to_nat prl.buffer_size ≤ bound
    → length (enqueue n prl).0.buffer ≤ bound
enqueue-length n prl bound h one size =
    elim (Bool-cases (reaches (length prl.buffer) prl.buffer_size)) [
      | inl full ↦ rw full (omega (arith, h, one, overflow-length prl.overflow_strategy n prl))
      | inr free ↦ rw free (
          omega (
            arith,
            size,
            free-lt (length prl.buffer) prl.buffer_size free,
            length-append prl.buffer (n ∷ []),
          ))
    ]

-- A buffer that holds at most its size, or one notification where the size is zero or negative,
-- still does after another notification.
pub length-buffer_notification :
    (prl : ProgressRateLimiter) (n : ProgressNotification)
    → length prl.buffer ≤ max 1 (to_nat prl.buffer_size)
    → length (buffer_notification prl n).0.buffer ≤ max 1 (to_nat prl.buffer_size)
unfolding buffer_notification
length-buffer_notification prl n h =
    enqueue-length n (record prl { total_notifications = prl.total_notifications + 1 })
      (max 1 (to_nat prl.buffer_size)) h (omega arith) (omega arith)

drain-splits :
    (buffer : List ProgressNotification) (clock : ℕ → ℕ) (i : ℕ) (prl : ProgressRateLimiter)
    → (drain buffer clock i prl).1 ++ (drain buffer clock i prl).0.buffer ≡ buffer
unfolding drain
drain-splits [] clock i prl = refl
drain-splits (x ∷ b) clock i prl = elim (Bool-cases (can_send_notification prl (clock i)).1) [
  | inl sent ↦
      rw sent (ap (◌∷◌ x) (drain-splits b clock (i + 1) (can_send_notification prl (clock i)).0))
  | inr kept ↦ rw kept refl
]

-- `ProcessBuffer` takes a prefix of the buffer, in order, and keeps the rest: it neither loses nor
-- reorders a notification.
pub process_buffer-splits :
    (prl : ProgressRateLimiter) (clock : ℕ → ℕ)
    → (process_buffer prl clock).1 ++ (process_buffer prl clock).0.buffer ≡ prl.buffer
unfolding process_buffer
process_buffer-splits prl clock = drain-splits prl.buffer clock 0 prl
