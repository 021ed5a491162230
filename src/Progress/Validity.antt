-- ===== src/Progress/Validity.antt =====
-- Which notifications the server accepts to send.
use gomcp.Prelude.{
  ◌≡◌, false, not, ◌&&◌, String, Option, none, some, if◌then◌else◌, string_key, ◌==◌, ==_iff, arith,
  refl, sym, subst, Bool-cases, inl, inr, ◌↔◌,
}
use mathlib.Core.Option.{some-injective}
use gomcp.Progress.Floats.{Float64, lt_float, zero_float, lt_float_trans}
use gomcp.Progress.Notifications.{validate, new_progress_notification_for_version, has_message}

-- A token, and a progress that is not negative and within the total, if there is one.
unfoldable pub IsReportable : String → Float64 → Option Float64 → Type 0
IsReportable token progress total =
    ((token == "") ≡ false)
    × (lt_float progress zero_float ≡ false)
    × ((t : Float64) → total ≡ some t → lt_float t progress ≡ false)

-- The message that a version's notification holds is one that the version allows.
message-allowed :
    (version message : String)
    → (version == "2024-11-05" && not ((if has_message version then message else "") == "")) ≡ false
unfolding has_message
message-allowed version message = elim (Bool-cases (version == "2024-11-05")) [
  | inl same ↦
      subst
        (λ v. (v == "2024-11-05" && not ((if has_message v then message else "") == "")) ≡ false)
        (sym ((==_iff version "2024-11-05").0 same)) refl
  | inr other ↦ rw other refl
]

-- The checks that a notification with a total passes.
valid_checks :
    (token message version : String) (progress t : Float64)
    → validate (new_progress_notification_for_version token progress (some t) message version)
      ≡ none
    → ((token == "") ≡ false)
      × (lt_float progress zero_float ≡ false)
      × (lt_float t progress ≡ false)
unfolding validate new_progress_notification_for_version
valid_checks token message version progress t e = ground (arith, message-allowed version message)

checks_valid :
    (token message version : String) (progress t : Float64)
    → (token == "") ≡ false
    → lt_float progress zero_float ≡ false
    → lt_float t zero_float ≡ false
    → lt_float t progress ≡ false
    → validate (new_progress_notification_for_version token progress (some t) message version)
      ≡ none
unfolding validate new_progress_notification_for_version
checks_valid token message version progress t k p z w =
    ground (arith, message-allowed version message)

new-validate-none :
    (token message version : String) (progress : Float64)
    → (validate (new_progress_notification_for_version token progress none message version) ≡ none)
      ↔ IsReportable token progress none
unfolding validate new_progress_notification_for_version IsReportable
new-validate-none token message version progress = (
  λ e. (
    ground (arith, message-allowed version message),
    ground (arith, message-allowed version message),
    λ t same. cc,
  ),
  λ r. let k = r.0 in let p = r.1 in ground (arith, message-allowed version message),
)

-- A notification that the server makes for a version is valid exactly when it has a token and a
-- progress that is neither negative nor beyond the total: the version never makes it invalid.
pub new-validate :
    (token message version : String) (progress : Float64) (total : Option Float64)
    → (validate (new_progress_notification_for_version token progress total message version) ≡ none)
      ↔ IsReportable token progress total
unfolding IsReportable
new-validate token message version progress none = new-validate-none token message version progress
new-validate token message version progress (some t) = (
  λ e.
      let c = valid_checks token message version progress t e in
      (c.0, c.1, λ u same. subst (λ v. lt_float v progress ≡ false) (some-injective t u same) c.2),
  λ r.
      let within = r.2 t refl in
      checks_valid token message version progress t r.0 r.1
        (lt_float_trans t progress zero_float within r.1) within,
)
