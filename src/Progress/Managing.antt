-- ===== src/Progress/Managing.antt =====
-- Creating, completing and expiring tokens keeps the order of progress on the wire, and so does
-- receiving a notification.
use gomcp.Prelude.{
  ℕ, ◌≡◌, Bool, true, false, [], ◌∷◌, arith, Bool-cases, Option-cases, inl, inr, ◌⊎◌, sym, subst,
  some, none, Option, String, ==_iff, string_key, Dict, lookup, insert, ok, err, Result,
  HasDistinctKeys,
}
use gomcp.Progress.Floats.{hundred_float}
use gomcp.Progress.Notifications.{ProgressNotification, NotificationError, validate}
use gomcp.Progress.Tokens.{
  ProgressToken, ProgressTokenManager, TokenError, token_not_found, Randomness, random_digits,
  time_digits, token_text, update_token, deactivate_token, generate_token_for_version, unexpired,
  cleanup_expired_tokens, validate_token, new_token,
}
use gomcp.Progress.RateLimiter.{token_of}
use gomcp.Progress.Server.{Server, Surroundings, set_tokens, kept, version_or_draft}
use gomcp.Progress.Sending.{
  send_progress_notification, create_progress_token, complete_progress,
  cleanup_expired_progress_tokens, handle_progress_notification, receive_if, touched, with_manager,
}
use gomcp.Progress.Order.{sent_for, CountsUpTo, IsOrdered}
use gomcp.Progress.Direct.{IsSound, insert-IsSound}
use gomcp.Progress.Calls.{send-IsSound}

-- Random tokens are new: nothing was sent for one before it is made.
abbrev pub IsNewToken : Randomness → String → Server → Type 0
IsNewToken (random_digits hex) request_id s =
    sent_for (token_text (random_digits hex) request_id) s.wire ≡ []
IsNewToken (time_digits digits) request_id s = Unit

with_manager-IsSound :
    (s : Server) (r : Result TokenError ProgressTokenManager)
    → IsSound (set_tokens (kept r s.progress_token_manager) s)
    → IsSound (with_manager s r).0
with_manager-IsSound s (ok ptm) h = h
with_manager-IsSound s (err e) h = h

deactivate-IsSound :
    (k : String) (s : Server)
    → IsSound s
    → IsSound
        (set_tokens (kept (deactivate_token s.progress_token_manager k) s.progress_token_manager) s)
unfolding deactivate_token
deactivate-IsSound k s sound = go (lookup k s.progress_token_manager.tokens)
  where
    go :
        (found : Option ProgressToken)
        → IsSound (
            set_tokens
              (kept
                (elim found [
                  | none ↦ err token_not_found
                  | some t ↦ ok (record s.progress_token_manager {
                    tokens =
                        insert k (record t { is_active = false }) s.progress_token_manager.tokens;
                  })
                ])
                s.progress_token_manager)
              s)
    go none = record { distinct = sound.distinct; ordered = sound.ordered }
    go (some t) = insert-IsSound s k (record t { is_active = false }) (λ e. cc) sound

pub complete-IsSound :
    (around : Surroundings) (k message : String) (s : Server)
    → IsSound s
    → IsSound (complete_progress around k message s).0
unfolding complete_progress
complete-IsSound around k message s sound =
    let sent =
      (send_progress_notification around k hundred_float (some hundred_float) message s).0 in
    with_manager-IsSound sent (deactivate_token sent.progress_token_manager k) (
      deactivate-IsSound k sent
        (send-IsSound around k hundred_float (some hundred_float) message s sound))

-- An update of the time is refused, or writes the same token at another time.
update_token-cases :
    (ptm : ProgressTokenManager) (now : ℕ) (k : String)
    → (kept (update_token ptm now k) ptm ≡ ptm)
      ⊎ ((t : ProgressToken) × (lookup k ptm.tokens ≡ some t)
          × (kept (update_token ptm now k) ptm
              ≡ record ptm { tokens = insert k (record t { last_update = now }) ptm.tokens }))
unfolding update_token
update_token-cases ptm now k = elim (Option-cases (lookup k ptm.tokens)) [
  | inl absent ↦ inl (ground arith)
  | inr (t, present) ↦ elim (Bool-cases t.is_active) [
    | inl on ↦ inr (t, present, ground arith)
    | inr off ↦ inl (ground arith)
  ]
]

in_order :
    (s : Server) (k : String) (t : ProgressToken)
    → IsSound s
    → lookup k s.progress_token_manager.tokens ≡ some t
    → t.is_active ≡ true
    → CountsUpTo t.last_progress (sent_for k s.wire)
unfolding IsOrdered
in_order s k t sound = sound.ordered k t

touched-IsSound :
    (around : Surroundings) (n : ProgressNotification) (s : Server)
    → IsSound s
    → IsSound (touched around n s)
touched-IsSound around n s sound =
    elim (update_token-cases s.progress_token_manager around.now (token_of n)) [
      | inl same ↦
          subst (λ m. IsSound (set_tokens m s)) (sym same)
            (record { distinct = sound.distinct; ordered = sound.ordered })
      | inr (t, present, e) ↦
          subst (λ m. IsSound (set_tokens m s)) (sym e)
            (insert-IsSound s (token_of n) (record t { last_update = around.now })
              (λ on. in_order s (token_of n) t sound present on) sound)
    ]

receive_if-IsSound :
    (e : Option NotificationError) (active : Bool) (around : Surroundings)
    (n : ProgressNotification) (s : Server)
    → IsSound s
    → IsSound (receive_if e active around n s).0
receive_if-IsSound (some e) active around n s sound = sound
receive_if-IsSound none true around n s sound =
    let touched_sound = touched-IsSound around n s sound in
    record { distinct = touched_sound.distinct; ordered = touched_sound.ordered }
receive_if-IsSound none false around n s sound = sound

pub received-IsSound :
    (around : Surroundings) (n : ProgressNotification) (s : Server)
    → IsSound s
    → IsSound (handle_progress_notification around n s).0
unfolding handle_progress_notification
received-IsSound around n s sound =
    receive_if-IsSound (validate n) (validate_token s.progress_token_manager (token_of n)) around n
      s sound

pub create-IsSound :
    (around : Surroundings) (randomness : Randomness) (request_id : String) (s : Server)
    → IsNewToken randomness request_id s
    → IsSound s
    → IsSound (create_progress_token around randomness request_id s).0
unfolding create_progress_token generate_token_for_version
create-IsSound around (time_digits digits) request_id s f sound = record {
  distinct = sound.distinct;
  ordered = sound.ordered;
}
create-IsSound around (random_digits hex) request_id s f sound =
    let k = token_text (random_digits hex) request_id in
    insert-IsSound s k (new_token around.now k request_id (version_or_draft s.protocol_version))
      (λ e. rw f tt) sound

lookup-unexpired :
    (now expiration : ℕ) (tokens : Dict String ProgressToken) (k : String) (t : ProgressToken)
    → HasDistinctKeys tokens
    → lookup k (unexpired now expiration tokens).0 ≡ some t
    → lookup k tokens ≡ some t
unfolding unexpired lookup
lookup-unexpired now expiration [] k t d e = e
lookup-unexpired now expiration ((j, u) ∷ tokens) k t (new, d) e =
    ground (arith, ==_iff j k, lookup-unexpired now expiration tokens k t d)

lookup-unexpired_absent :
    (now expiration : ℕ) (tokens : Dict String ProgressToken) (k : String)
    → lookup k tokens ≡ none
    → lookup k (unexpired now expiration tokens).0 ≡ none
unfolding unexpired lookup
lookup-unexpired_absent now expiration [] k e = e
lookup-unexpired_absent now expiration ((j, u) ∷ tokens) k e =
    ground (arith, ==_iff j k, lookup-unexpired_absent now expiration tokens k)

unexpired-HasDistinctKeys :
    (now expiration : ℕ) (tokens : Dict String ProgressToken)
    → HasDistinctKeys tokens
    → HasDistinctKeys (unexpired now expiration tokens).0
unfolding unexpired
unexpired-HasDistinctKeys now expiration [] d = d
unexpired-HasDistinctKeys now expiration ((j, u) ∷ tokens) (new, d) = ground (
  arith,
  lookup-unexpired_absent now expiration tokens j new,
  unexpired-HasDistinctKeys now expiration tokens d,
)

pub clean-IsSound :
    (around : Surroundings) (expiration : ℕ) (s : Server)
    → IsSound s
    → IsSound (cleanup_expired_progress_tokens around expiration s).0
unfolding cleanup_expired_progress_tokens cleanup_expired_tokens IsOrdered
clean-IsSound around expiration s sound = record {
  distinct =
      unexpired-HasDistinctKeys around.now expiration s.progress_token_manager.tokens
        sound.distinct;
  ordered = λ k t l a.
      sound.ordered k t
        (lookup-unexpired around.now expiration s.progress_token_manager.tokens k t sound.distinct
          l)
        a;
}
