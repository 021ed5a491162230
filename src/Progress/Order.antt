-- ===== src/Progress/Order.antt =====
-- The progress of a token never goes back on the wire while the token is active.
use gomcp.Prelude.{
  ℕ, ◌≡◌, true, false, List, [], ◌∷◌, if◌then◌else◌, arith, Bool-cases, Option-cases, inl, inr,
  refl, sym, ◌∙◌, subst, some, none, String, ◌==◌, ==_iff, string_key, lookup, insert,
  lookup-insert,
}
use mathlib.Core.Option.{some-injective}
use gomcp.Progress.Floats.{Float64, lt_float, lt_float_trans, lt_float_irrefl}
use gomcp.Progress.Notifications.{ProgressNotification, ProgressNotificationParams, to_json}
use gomcp.Progress.Tokens.{ProgressToken, ProgressTokenManager, update_token_with_progress}
use gomcp.Progress.RateLimiter.{token_of}
use gomcp.Progress.Server.{kept}

abbrev pub progress_of : ProgressNotification → Float64
progress_of n = p.progress
  where
    p : ProgressNotificationParams
    p = n.params

-- The progress sent for a token, the newest first.
unfoldable pub sent_for : String → List ProgressNotification → List Float64
sent_for token [] = []
sent_for token (n ∷ wire) =
    if token_of n == token then progress_of n ∷ sent_for token wire else sent_for token wire

-- From the newest to the oldest no value exceeds the one before it, nor the bound the first.
abbrev pub CountsUpTo : Float64 → List Float64 → Type 0
CountsUpTo bound [] = Unit
CountsUpTo bound (x ∷ xs) = (lt_float bound x ≡ false) × CountsUpTo x xs

CountsUpTo-raise :
    (a b : Float64) (xs : List Float64) → lt_float b a ≡ false → CountsUpTo a xs → CountsUpTo b xs
CountsUpTo-raise a b [] h c = tt
CountsUpTo-raise a b (x ∷ xs) h (le, c) = (lt_float_trans b a x h le, c)

-- For every active token, what was sent counts up to the last progress that the manager knows.
unfoldable pub IsOrdered : ProgressTokenManager → List ProgressNotification → Type 0
IsOrdered ptm wire =
    (k : String) (t : ProgressToken)
    → lookup k ptm.tokens ≡ some t
    → t.is_active ≡ true
    → CountsUpTo t.last_progress (sent_for k wire)

pub to_json-keeps :
    (n : ProgressNotification)
    → (token_of (to_json n) ≡ token_of n) × (progress_of (to_json n) ≡ progress_of n)
unfolding to_json
to_json-keeps n = ground arith

CountsUpTo-tail : (b x : Float64) (xs : List Float64) → CountsUpTo b (x ∷ xs) → CountsUpTo b xs
CountsUpTo-tail b x xs (le, c) = CountsUpTo-raise x b xs le c

pub IsOrdered-tail :
    (ptm : ProgressTokenManager) (n : ProgressNotification) (wire : List ProgressNotification)
    → IsOrdered ptm (n ∷ wire)
    → IsOrdered ptm wire
unfolding sent_for IsOrdered
IsOrdered-tail ptm n wire o k t e a = elim (Bool-cases (token_of n == k)) [
  | inl same ↦ CountsUpTo-tail t.last_progress (progress_of n) (sent_for k wire) (
      subst
        (λ b.
          CountsUpTo t.last_progress
            (if b then progress_of n ∷ sent_for k wire else sent_for k wire))
        same (o k t e a))
  | inr other ↦
      subst
        (λ b.
          CountsUpTo t.last_progress
            (if b then progress_of n ∷ sent_for k wire else sent_for k wire))
        other (o k t e a)
]

-- A notification of another token changes nothing for a token.
sent_for-other :
    (k : String) (n : ProgressNotification) (wire : List ProgressNotification)
    → (token_of n == k) ≡ false
    → sent_for k (n ∷ wire) ≡ sent_for k wire
unfolding sent_for
sent_for-other k n wire e = rw e refl

sent_for-same :
    (k : String) (n : ProgressNotification) (wire : List ProgressNotification)
    → (token_of n == k) ≡ true
    → sent_for k (n ∷ wire) ≡ progress_of n ∷ sent_for k wire
unfolding sent_for
sent_for-same k n wire e = rw e refl

-- What a manager becomes when it is told of a notification that was sent.
abbrev pub told : ProgressTokenManager → ℕ → ProgressNotification → ProgressTokenManager
told ptm now n = kept (update_token_with_progress ptm now (token_of n) (progress_of n)) ptm

told_missing :
    (ptm : ProgressTokenManager) (now : ℕ) (n : ProgressNotification)
    → lookup (token_of n) ptm.tokens ≡ none
    → told ptm now n ≡ ptm
unfolding update_token_with_progress
told_missing ptm now n e = ground arith

pub told_inactive :
    (ptm : ProgressTokenManager) (now : ℕ) (n : ProgressNotification) (t : ProgressToken)
    → lookup (token_of n) ptm.tokens ≡ some t
    → t.is_active ≡ false
    → told ptm now n ≡ ptm
unfolding update_token_with_progress
told_inactive ptm now n t e off = ground arith

abbrev pub advanced : ℕ → ProgressNotification → ProgressToken → ProgressToken
advanced now n t = record t { last_progress = progress_of n; last_update = now }

pub told_active :
    (ptm : ProgressTokenManager) (now : ℕ) (n : ProgressNotification) (t : ProgressToken)
    → lookup (token_of n) ptm.tokens ≡ some t
    → t.is_active ≡ true
    → lt_float (progress_of n) t.last_progress ≡ false
    → told ptm now n ≡ record ptm { tokens = insert (token_of n) (advanced now n t) ptm.tokens }
unfolding update_token_with_progress
told_active ptm now n t e on le = ground arith

-- Where the manager stays and knows no active token of the notification, it may be sent.
same-IsOrdered :
    (ptm : ProgressTokenManager) (n : ProgressNotification) (wire : List ProgressNotification)
    → ((t : ProgressToken) → lookup (token_of n) ptm.tokens ≡ some t → t.is_active ≡ false)
    → IsOrdered ptm wire
    → IsOrdered ptm (n ∷ wire)
unfolding IsOrdered
same-IsOrdered ptm n wire off o k t l a = elim (Bool-cases (token_of n == k)) [
  | inl same ↦
      let e : lookup (token_of n) ptm.tokens ≡ some t =
        subst (λ j. lookup j ptm.tokens ≡ some t) (sym ((==_iff (token_of n) k).0 same)) l in
      let f = off t e in cc
  | inr other ↦ subst (CountsUpTo t.last_progress) (sym (sent_for-other k n wire other)) (o k t l a)
]

insert-IsOrdered :
    (ptm : ProgressTokenManager) (now : ℕ) (n : ProgressNotification)
    (wire : List ProgressNotification) (t : ProgressToken)
    → lookup (token_of n) ptm.tokens ≡ some t
    → t.is_active ≡ true
    → lt_float (progress_of n) t.last_progress ≡ false
    → IsOrdered ptm wire
    → IsOrdered
        (record ptm { tokens = insert (token_of n) (advanced now n t) ptm.tokens })
        (n ∷ wire)
unfolding IsOrdered
insert-IsOrdered ptm now n wire t e on le o k u l a = elim (Bool-cases (token_of n == k)) [
  | inl same ↦
      let i : some (advanced now n t) ≡ some u =
        sym (lookup-insert (token_of n) k (advanced now n t) ptm.tokens ∙ (rw same refl)) ∙ l in
      subst (CountsUpTo u.last_progress) (sym (sent_for-same k n wire same)) (
        subst (λ v. CountsUpTo v.last_progress (progress_of n ∷ sent_for k wire))
          (some-injective (advanced now n t) u i)
          (
            lt_float_irrefl (progress_of n),
            CountsUpTo-raise t.last_progress (progress_of n) (sent_for k wire) le (
                o k t (subst (λ j. lookup j ptm.tokens ≡ some t) ((==_iff (token_of n) k).0 same) e)
                  on),
          ))
  | inr other ↦ subst (CountsUpTo u.last_progress) (sym (sent_for-other k n wire other)) (
      o k u (sym (lookup-insert (token_of n) k (advanced now n t) ptm.tokens ∙ (rw other refl)) ∙ l)
        a)
]

-- A notification that does not go back may be sent and recorded.
pub told-IsOrdered :
    (ptm : ProgressTokenManager) (now : ℕ) (n : ProgressNotification)
    (wire : List ProgressNotification)
    → ((t : ProgressToken)
        → lookup (token_of n) ptm.tokens ≡ some t
        → lt_float (progress_of n) t.last_progress ≡ false)
    → IsOrdered ptm wire
    → IsOrdered (told ptm now n) (n ∷ wire)
told-IsOrdered ptm now n wire up o = elim (Option-cases (lookup (token_of n) ptm.tokens)) [
  | inl absent ↦
      subst (λ m. IsOrdered m (n ∷ wire)) (sym (told_missing ptm now n absent))
        (same-IsOrdered ptm n wire (λ t e. cc) o)
  | inr (t, present) ↦ elim (Bool-cases t.is_active) [
    | inl on ↦
        subst (λ m. IsOrdered m (n ∷ wire))
          (sym (told_active ptm now n t present on (up t present)))
          (insert-IsOrdered ptm now n wire t present on (up t present) o)
    | inr off ↦
        subst (λ m. IsOrdered m (n ∷ wire)) (sym (told_inactive ptm now n t present off))
          (same-IsOrdered ptm n wire
            (λ u e. subst (λ v. v.is_active ≡ false) (some-injective t u (sym present ∙ e)) off) o)
  ]
]
