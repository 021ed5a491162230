-- ===== src/Progress/Direct.antt =====
-- Sending directly keeps the order of progress on the wire.
use gomcp.Prelude.{
  ℕ, ◌≡◌, Bool, true, false, List, [], ◌∷◌, arith, Bool-cases, Option-cases, inl, inr, refl, sym,
  ◌∙◌, ap, subst, some, none, Option, String, ◌==◌, ==_iff, string_key, lookup, insert,
  lookup-insert, HasDistinctKeys, insert-HasDistinctKeys,
}
use mathlib.Core.Option.{some-injective}
use gomcp.Progress.Floats.{Float64, lt_float}
use gomcp.Progress.Notifications.{ProgressNotification, decreases, to_json}
use gomcp.Progress.Tokens.{
  ProgressToken, ProgressTokenManager, update_token_with_progress, get_last_progress,
}
use gomcp.Progress.RateLimiter.{token_of}
use gomcp.Progress.Server.{
  Server, Surroundings, set_tokens, after_send, transmit_if, kept, send_checked,
  send_progress_notification_direct, send_all,
}
use gomcp.Progress.Order.{
  sent_for, progress_of, CountsUpTo, IsOrdered, IsOrdered-tail, to_json-keeps, told, told-IsOrdered,
}

-- The manager has one entry for a token, and what was sent for an active one counts up.
pub record IsSound (s : Server) : Type 0 where
  pub distinct : HasDistinctKeys s.progress_token_manager.tokens
  pub ordered : IsOrdered s.progress_token_manager s.wire

-- A manager with one entry written anew.
insert-IsOrdered :
    (ptm : ProgressTokenManager) (wire : List ProgressNotification) (k : String) (v : ProgressToken)
    → (v.is_active ≡ true → CountsUpTo v.last_progress (sent_for k wire))
    → IsOrdered ptm wire
    → IsOrdered (record ptm { tokens = insert k v ptm.tokens }) wire
unfolding IsOrdered
insert-IsOrdered ptm wire k v h o j t l a = elim (Bool-cases (k == j)) [
  | inl same ↦
      let i : some v ≡ some t = sym (lookup-insert k j v ptm.tokens ∙ (rw same refl)) ∙ l in
      subst (λ x. CountsUpTo t.last_progress (sent_for x wire)) ((==_iff k j).0 same)
        (subst (λ x. x.is_active ≡ true → CountsUpTo x.last_progress (sent_for k wire))
          (some-injective v t i) h a)
  | inr other ↦ o j t (sym (lookup-insert k j v ptm.tokens ∙ (rw other refl)) ∙ l) a
]

pub insert-IsSound :
    (s : Server) (k : String) (v : ProgressToken)
    → (v.is_active ≡ true → CountsUpTo v.last_progress (sent_for k s.wire))
    → IsSound s
    → IsSound (
        set_tokens
          (record s.progress_token_manager { tokens = insert k v s.progress_token_manager.tokens })
          s)
insert-IsSound s k v h sound = record {
  distinct = insert-HasDistinctKeys k v s.progress_token_manager.tokens sound.distinct;
  ordered = insert-IsOrdered s.progress_token_manager s.wire k v h sound.ordered;
}

told-HasDistinctKeys :
    (ptm : ProgressTokenManager) (now : ℕ) (n : ProgressNotification)
    → HasDistinctKeys ptm.tokens
    → HasDistinctKeys (told ptm now n).tokens
unfolding update_token_with_progress
told-HasDistinctKeys ptm now n d = elim (Option-cases (lookup (token_of n) ptm.tokens)) [
  | inl absent ↦ ground (arith, absent)
  | inr (t, present) ↦ ground (
    arith,
    present,
    insert-HasDistinctKeys (token_of n)
        (record t { last_progress = progress_of n; last_update = now }) ptm.tokens d,
  )
]

to_json-told :
    (ptm : ProgressTokenManager) (now : ℕ) (n : ProgressNotification)
    → told ptm now (to_json n) ≡ told ptm now n
to_json-told ptm now n =
    let k = to_json-keeps n in
    ap (λ (x : String). kept (update_token_with_progress ptm now x (progress_of (to_json n))) ptm)
      k.0
    ∙ ap (λ (p : Float64). kept (update_token_with_progress ptm now (token_of n) p) ptm) k.1

-- The notification does not go back behind what the manager knows of its token.
abbrev GoesOn : ProgressNotification → Server → Type 0
GoesOn n s =
    (t : ProgressToken)
    → lookup (token_of n) s.progress_token_manager.tokens ≡ some t
    → lt_float (progress_of n) t.last_progress ≡ false

to_json-GoesOn : (n : ProgressNotification) (s : Server) → GoesOn n s → GoesOn (to_json n) s
to_json-GoesOn n s up t e =
    let k = to_json-keeps n in
    subst (λ p. lt_float p t.last_progress ≡ false) (sym k.1)
      (up t (subst (λ x. lookup x s.progress_token_manager.tokens ≡ some t) k.0 e))

after_send-IsSound :
    (around : Surroundings) (n : ProgressNotification) (s : Server)
    → GoesOn n s
    → IsSound s
    → IsSound (after_send around n (record s { wire = to_json n ∷ s.wire }))
after_send-IsSound around n s up sound = record {
  distinct = told-HasDistinctKeys s.progress_token_manager around.now n sound.distinct;
  ordered =
      subst (λ m. IsOrdered m (to_json n ∷ s.wire))
        (to_json-told s.progress_token_manager around.now n)
        (told-IsOrdered s.progress_token_manager around.now (to_json n) s.wire
          (to_json-GoesOn n s up) sound.ordered);
}

-- Without a transport only the manager learns of it.
unsent-IsSound :
    (around : Surroundings) (n : ProgressNotification) (s : Server)
    → GoesOn n s
    → IsSound s
    → IsSound (after_send around n s)
unsent-IsSound around n s up sound =
    let sent = after_send-IsSound around n s up sound in
    record {
      distinct = sent.distinct;
      ordered =
          IsOrdered-tail (told s.progress_token_manager around.now n) (to_json n) s.wire
            sent.ordered;
    }

transmit-IsSound :
    (has delivered : Bool) (around : Surroundings) (n : ProgressNotification) (s : Server)
    → GoesOn n s
    → IsSound s
    → IsSound (transmit_if has delivered around n s).0
transmit-IsSound false delivered around n s up sound = unsent-IsSound around n s up sound
transmit-IsSound true true around n s up sound = after_send-IsSound around n s up sound
transmit-IsSound true false around n s up sound = sound

pub last_progress_of :
    (ptm : ProgressTokenManager) (k : String) (t : ProgressToken)
    → lookup k ptm.tokens ≡ some t
    → get_last_progress ptm k ≡ some t.last_progress
unfolding get_last_progress
last_progress_of ptm k t e = ground arith

-- The check of the last progress is what lets a notification go on.
checked-IsSound :
    (around : Surroundings) (n : ProgressNotification) (s : Server) (last : Option Float64)
    → get_last_progress s.progress_token_manager (token_of n) ≡ last
    → IsSound s
    → IsSound (send_checked around n s last).0
unfolding decreases
checked-IsSound around n s none e sound =
    transmit-IsSound s.has_transport (around.delivers (to_json n)) around n s
      (λ t l. let f = last_progress_of s.progress_token_manager (token_of n) t l in cc) sound
checked-IsSound around n s (some last) e sound =
    let transmitted = transmit-IsSound s.has_transport (around.delivers (to_json n)) around n s in
    elim (Bool-cases (lt_float (progress_of n) last)) [
      | inl back ↦ rw back sound
      | inr on ↦ rw on (
          transmitted
            (λ t l.
              subst (λ x. lt_float (progress_of n) x ≡ false)
                (some-injective last t.last_progress
                  (sym e ∙ last_progress_of s.progress_token_manager (token_of n) t l))
                on)
            sound)
    ]

pub direct-IsSound :
    (around : Surroundings) (n : ProgressNotification) (s : Server)
    → IsSound s
    → IsSound (send_progress_notification_direct around n s).0
unfolding send_progress_notification_direct
direct-IsSound around n s sound =
    checked-IsSound around n s (get_last_progress s.progress_token_manager (token_of n)) refl sound

pub send_all-IsSound :
    (around : Surroundings) (ns : List ProgressNotification) (s : Server)
    → IsSound s
    → IsSound (send_all around ns s)
unfolding send_all
send_all-IsSound around [] s sound = sound
send_all-IsSound around (n ∷ ns) s sound =
    send_all-IsSound around ns (send_progress_notification_direct around n s).0
      (direct-IsSound around n s sound)
