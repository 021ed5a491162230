-- ===== src/Progress/Reports.antt =====
-- What a ProgressReporter sends (mcp/progress.go).
use mathlib.Core.Option.{some-injective}
use gomcp.Prelude.{
  arith, ℕ, ◌≡◌, sym, ap, ◌∙◌, Bool, true, false, ◌⊎◌, inl, inr, Bool-cases, Option-cases, Option,
  none, some, List, [], ◌∷◌, String, string_key, Result, ok, err, subst, lookup, insert,
  lookup-insert_self,
}
use gomcp.Progress.Floats.{Float64, lt_float, lt_float_irrefl, lt_float_trans}
use gomcp.Progress.Notifications.{NotificationError}
use gomcp.Progress.Tokens.{
  ProgressTokenManager, ProgressToken, TokenError, token_not_found, token_inactive,
  progress_decreased, update_token_with_progress, deactivate_token,
}
use gomcp.Progress.Reporter.{
  FloatFunctions, Reporting, ReporterError, update, update_refusal, unless_refused, with_tokens,
  sent_on, validated, told_sender, moved, increment, retired, after_deactivation,
}

-- Values, the last one first, of which none is less than an earlier one.
abbrev pub IsAscending : List Float64 → Type 0
IsAscending [] = Unit
IsAscending (x ∷ []) = Unit
IsAscending (x ∷ (y ∷ ys)) = (lt_float x y ≡ false) × IsAscending (y ∷ ys)

-- A value that is not less than the last one sent.
abbrev pub IsNext : Float64 → List Float64 → Type 0
IsNext x [] = Unit
IsNext x (y ∷ ys) = lt_float x y ≡ false

IsAscending-∷ :
    (x : Float64) (ys : List Float64) → IsNext x ys → IsAscending ys → IsAscending (x ∷ ys)
IsAscending-∷ x [] h a = tt
IsAscending-∷ x (y ∷ ys) h a = (h, a)

IsNext-trans :
    (x y : Float64) (zs : List Float64) → lt_float x y ≡ false → IsNext y zs → IsNext x zs
IsNext-trans x y [] h g = tt
IsNext-trans x y (z ∷ zs) h g = lt_float_trans x y z h g

-- What was sent is ascending, and the token's last progress, if the token is there, is not less.
abbrev pub IsOrderly : Reporting → Type 0
IsOrderly r =
    IsAscending r.sent
    × ((t : ProgressToken)
        → lookup r.reporter.token r.manager.tokens ≡ some t
        → IsNext t.last_progress r.sent)

-- Once the manager accepted a value, it may be sent.
IsAccepted : Float64 → Reporting → Type 0
IsAccepted value r =
    IsOrderly r
    × IsNext value r.sent
    × ((t : ProgressToken)
        → lookup r.reporter.token r.manager.tokens ≡ some t
        → t.last_progress ≡ value)

told_sender-IsOrderly :
    (sender_ok : Bool) (value : Float64) (r : Reporting)
    → IsAccepted value r
    → IsOrderly (told_sender sender_ok value r).0
unfolding IsAccepted
told_sender-IsOrderly false value r (orderly, next, last) = orderly
told_sender-IsOrderly true value r ((ascending, bound), next, last) = (
  IsAscending-∷ value r.sent next ascending,
  λ t e. ap (λ x. lt_float x value) (last t e) ∙ lt_float_irrefl value,
)

validated-IsOrderly :
    (sender_ok : Bool) (value : Float64) (r : Reporting) (failure : Option NotificationError)
    → IsAccepted value r
    → IsOrderly (validated sender_ok value r failure).0
unfolding IsAccepted
validated-IsOrderly sender_ok value r none accepted =
    told_sender-IsOrderly sender_ok value r accepted
validated-IsOrderly sender_ok value r (some failure) (orderly, next, last) = orderly

sent_on-IsOrderly :
    (sender_ok : Bool) (value : Float64) (r : Reporting) (has_sender : Bool)
    → IsAccepted value r
    → IsOrderly (sent_on sender_ok value r has_sender).0
unfolding IsAccepted
sent_on-IsOrderly sender_ok value r true accepted = validated-IsOrderly sender_ok value r _ accepted
sent_on-IsOrderly sender_ok value r false (orderly, next, last) = orderly

-- An update of the token is refused, or writes the value, which is not less than the last one.
update_token_with_progress-cases :
    (ptm : ProgressTokenManager) (now : ℕ) (k : String) (value : Float64)
    → ((failure : TokenError) × (update_token_with_progress ptm now k value ≡ err failure))
      ⊎ ((t : ProgressToken) × (lookup k ptm.tokens ≡ some t)
          × (lt_float value t.last_progress ≡ false)
          × (update_token_with_progress ptm now k value
              ≡ ok (record ptm {
                tokens =
                    insert k (record t { last_progress = value; last_update = now }) ptm.tokens;
              })))
unfolding update_token_with_progress
update_token_with_progress-cases ptm now k value = elim (Option-cases (lookup k ptm.tokens)) [
  | inl absent ↦ inl (token_not_found, ground arith)
  | inr (t, present) ↦ elim (Bool-cases t.is_active) [
    | inl on ↦ elim (Bool-cases (lt_float value t.last_progress)) [
      | inl less ↦ inl (progress_decreased, ground arith)
      | inr next ↦ inr (t, present, next, ground arith)
    ]
    | inr off ↦ inl (token_inactive, ground arith)
  ]
]

with_tokens-IsOrderly :
    (now : ℕ) (sender_ok : Bool) (value : Float64) (r : Reporting)
    → IsOrderly r
    → IsOrderly
        (with_tokens sender_ok value r
          (update_token_with_progress r.manager now r.reporter.token value)).0
unfolding IsAccepted
with_tokens-IsOrderly now sender_ok value r (ascending, bound) =
    let k = r.reporter.token in
    elim (update_token_with_progress-cases r.manager now k value) [
      | inl (failure, e) ↦ rw e (ascending, bound)
      | inr (t, present, next, e) ↦
          let manager : ProgressTokenManager = record r.manager {
            tokens =
                insert k (record t { last_progress = value; last_update = now }) r.manager.tokens;
          } in
          let is_next = IsNext-trans value t.last_progress r.sent next (bound t present) in
          let last : (u : ProgressToken)
              → lookup k manager.tokens ≡ some u
              → u.last_progress ≡ value =
            λ u h.
              ap (λ (v : ProgressToken). v.last_progress)
                (some-injective u (record t { last_progress = value; last_update = now })
                  (sym h
                    ∙ lookup-insert_self k (record t { last_progress = value; last_update = now })
                        r.manager.tokens)) in
          subst
            (λ (m : Result TokenError ProgressTokenManager).
              IsOrderly (with_tokens sender_ok value r m).0)
            (sym e)
            (sent_on-IsOrderly sender_ok value (record r { manager = manager })
              r.reporter.has_sender
              (
                (ascending, λ u h. subst (λ x. IsNext x r.sent) (sym (last u h)) is_next),
                is_next,
                last,
              ))
    ]

unless_refused-IsOrderly :
    (around : FloatFunctions) (now : ℕ) (sender_ok : Bool) (value : Float64) (message : String)
    (r : Reporting) (failure : Option ReporterError)
    → IsOrderly r
    → IsOrderly (unless_refused around now sender_ok value message r failure).0
unless_refused-IsOrderly around now sender_ok value message r (some failure) orderly = orderly
unless_refused-IsOrderly around now sender_ok value message r none orderly =
    with_tokens-IsOrderly now sender_ok value
      (record r { reporter = moved around value message r.reporter }) orderly

pub update-IsOrderly :
    (around : FloatFunctions) (now : ℕ) (sender_ok : Bool) (value : Float64) (message : String)
    (r : Reporting)
    → IsOrderly r
    → IsOrderly (update around now sender_ok value message r).0
unfolding update
update-IsOrderly around now sender_ok value message r =
    unless_refused-IsOrderly around now sender_ok value message r
      (update_refusal around value r.reporter)

pub increment-IsOrderly :
    (around : FloatFunctions) (now : ℕ) (sender_ok : Bool) (amount : Float64) (message : String)
    (r : Reporting)
    → IsOrderly r
    → IsOrderly (increment around now sender_ok amount message r).0
unfolding increment
increment-IsOrderly around now sender_ok amount message r =
    update-IsOrderly around now sender_ok
      (around.plus (around.of_thousandths r.reporter.current) amount) message r

deactivate_token-cases :
    (ptm : ProgressTokenManager) (k : String)
    → (after_deactivation ptm (deactivate_token ptm k) ≡ ptm)
      ⊎ ((t : ProgressToken) × (lookup k ptm.tokens ≡ some t)
          × (after_deactivation ptm (deactivate_token ptm k)
              ≡ record ptm { tokens = insert k (record t { is_active = false }) ptm.tokens }))
unfolding deactivate_token
deactivate_token-cases ptm k = elim (Option-cases (lookup k ptm.tokens)) [
  | inl absent ↦ inl (ground arith)
  | inr (t, present) ↦ inr (t, present, ground arith)
]

pub retired-IsOrderly : (r : Reporting) → IsOrderly r → IsOrderly (retired r)
retired-IsOrderly r (ascending, bound) = elim (deactivate_token-cases r.manager r.reporter.token) [
  | inl same ↦ subst (λ m. IsOrderly (record r { manager = m })) (sym same) (ascending, bound)
  | inr (t, present, e) ↦
      subst (λ m. IsOrderly (record r { manager = m })) (sym e)
        (
          ascending,
          λ u h.
              subst (λ (v : ProgressToken). IsNext v.last_progress r.sent)
                (some-injective (record t { is_active = false }) u
                  (sym (
                      lookup-insert_self r.reporter.token (record t { is_active = false })
                        r.manager.tokens)
                    ∙ h))
                (bound t present),
        )
]
