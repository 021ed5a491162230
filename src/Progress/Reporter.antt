-- ===== src/Progress/Reporter.antt =====
-- ProgressReporter (mcp/progress.go) with the token manager that it shares. `around` gives Go's
-- arithmetic on float64: `int64(x*1000)`, `float64(n)/1000.0` and `x + y`. A call of the sender either
-- takes the notification or fails. Times are left out, but for the token's.
use gomcp.Prelude.{
  ℕ, Bool, true, false, not, Option, none, some, List, [], ◌∷◌, ◌++◌, String, string_key, ◌==◌,
  if◌then◌else◌, Result, ok, err, ℤ, pos,
}
use gomcp.Progress.Floats.{Float64, lt_float, zero_float, hundred_float}
use gomcp.Progress.Notifications.{
  NotificationError, new_progress_notification_for_version, validate,
}
use gomcp.Progress.Tokens.{
  ProgressTokenManager, TokenError, Randomness, generate_token_for_version,
  update_token_with_progress, deactivate_token,
}

pub record FloatFunctions : Type 0 where
  pub thousandths : Float64 → ℤ
  pub of_thousandths : ℤ → Float64
  pub plus : Float64 → Float64 → Float64

-- The children are named by their tokens; the weight of a child, which nothing reads, is left out.
pub record ProgressReporter : Type 0 where
  pub token : String
  pub request_id : String
  pub protocol_version : String
  pub has_sender : Bool
  pub current : ℤ
  pub is_active : Bool
  pub is_completed : Bool
  pub total : Option Float64
  pub message : String
  pub children : List String

-- A reporter, its token manager, and the progress values that the sender took, the last one first.
pub record Reporting : Type 0 where
  pub reporter : ProgressReporter
  pub manager : ProgressTokenManager
  pub sent : List Float64

pub data ReporterError : Type 0 where
  not_active : ReporterError
  already_completed : ReporterError
  negative_value : ReporterError
  value_exceeds_total : ReporterError
  value_decreases : ReporterError
  token_refused : TokenError → ReporterError
  invalid_notification : NotificationError → ReporterError
  send_failed : ReporterError

unfoldable pub new_progress_reporter :
    ProgressTokenManager
    → ℕ
    → Randomness
    → Bool
    → String
    → Option Float64
    → String
    → String
    → Reporting
new_progress_reporter manager now random has_sender request_id total message version =
    let protocol_version = if version == "" then "draft" else version in
    let (stored, token) =
      generate_token_for_version manager now random request_id protocol_version in
    record {
      reporter = record {
        token = token;
        request_id = request_id;
        protocol_version = protocol_version;
        has_sender = has_sender;
        current = pos 0;
        is_active = true;
        is_completed = false;
        total = total;
        message = message;
        children = [];
      };
      manager = stored;
      sent = [];
    }

abbrev exceeds : Float64 → Option Float64 → Bool
exceeds value none = false
exceeds value (some total) = lt_float total value

-- An empty message, or none, leaves the last one.
abbrev pub message_or : String → String → String
message_or message old = if message == "" then old else message

-- Why a value is refused before anything changes.
unfoldable pub update_refusal : FloatFunctions → Float64 → ProgressReporter → Option ReporterError
update_refusal around value pr =
    if not pr.is_active
    then some not_active
    else if pr.is_completed
    then some already_completed
    else if lt_float value zero_float
    then some negative_value
    else if exceeds value pr.total
    then some value_exceeds_total
    else if lt_float value (around.of_thousandths pr.current)
    then some value_decreases
    else none

-- The sender's answer.
abbrev pub told_sender : Bool → Float64 → Reporting → Reporting × Option ReporterError
told_sender true value r = (record r { sent = value ∷ r.sent }, none)
told_sender false value r = (r, some send_failed)

abbrev pub validated :
    Bool → Float64 → Reporting → Option NotificationError → Reporting × Option ReporterError
validated sender_ok value r (some failure) = (r, some (invalid_notification failure))
validated sender_ok value r none = told_sender sender_ok value r

abbrev pub sent_on : Bool → Float64 → Reporting → Bool → Reporting × Option ReporterError
sent_on sender_ok value r false = (r, none)
sent_on sender_ok value r true = validated sender_ok value r (
    validate (
      new_progress_notification_for_version r.reporter.token value r.reporter.total
        r.reporter.message r.reporter.protocol_version))

abbrev pub with_tokens :
    Bool
    → Float64
    → Reporting
    → Result TokenError ProgressTokenManager
    → Reporting × Option ReporterError
with_tokens sender_ok value r (err failure) = (r, some (token_refused failure))
with_tokens sender_ok value r (ok manager) =
    sent_on sender_ok value (record r { manager = manager }) r.reporter.has_sender

abbrev pub moved : FloatFunctions → Float64 → String → ProgressReporter → ProgressReporter
moved around value message pr = record pr {
  current = around.thousandths value;
  message = message_or message pr.message;
}

abbrev pub unless_refused :
    FloatFunctions
    → ℕ
    → Bool
    → Float64
    → String
    → Reporting
    → Option ReporterError
    → Reporting × Option ReporterError
unless_refused around now sender_ok value message r (some failure) = (r, some failure)
unless_refused around now sender_ok value message r none =
    with_tokens sender_ok value (record r { reporter = moved around value message r.reporter })
      (update_token_with_progress r.manager now r.reporter.token value)

unfoldable pub update :
    FloatFunctions → ℕ → Bool → Float64 → String → Reporting → Reporting × Option ReporterError
update around now sender_ok value message r =
    unless_refused around now sender_ok value message r (update_refusal around value r.reporter)

unfoldable pub increment :
    FloatFunctions → ℕ → Bool → Float64 → String → Reporting → Reporting × Option ReporterError
increment around now sender_ok amount message r =
    update around now sender_ok (around.plus (around.of_thousandths r.reporter.current) amount)
      message r

unfoldable pub set_total :
    FloatFunctions → Float64 → ProgressReporter → ProgressReporter × Option ReporterError
set_total around total pr =
    if not pr.is_active
    then (pr, some not_active)
    else if lt_float total zero_float
    then (pr, some negative_value)
    else if lt_float total (around.of_thousandths pr.current)
    then (pr, some value_exceeds_total)
    else (record pr { total = some total }, none)

abbrev pub total_or_hundred : Option Float64 → Float64
total_or_hundred none = hundred_float
total_or_hundred (some total) = total

abbrev pub after_deactivation :
    ProgressTokenManager → Result TokenError ProgressTokenManager → ProgressTokenManager
after_deactivation manager (err failure) = manager
after_deactivation manager (ok deactivated) = deactivated

abbrev pub retired : Reporting → Reporting
retired r = record r {
  manager = after_deactivation r.manager (deactivate_token r.manager r.reporter.token);
}

abbrev pub announced_end : Reporting × Option ReporterError → Reporting × Option ReporterError
announced_end (r, some failure) = (r, some failure)
announced_end (r, none) = (retired r, none)

abbrev pub completed_reporter : FloatFunctions → String → ProgressReporter → ProgressReporter
completed_reporter around message pr = record pr {
  current = around.thousandths (total_or_hundred pr.total);
  total = some (total_or_hundred pr.total);
  message = message_or message pr.message;
  is_completed = true;
}

-- The last notification is sent before the token is deactivated, and its failure ends the call.
unfoldable pub complete_reporter :
    FloatFunctions → Bool → String → Reporting → Reporting × Option ReporterError
complete_reporter around sender_ok message r =
    if not r.reporter.is_active
    then (r, some not_active)
    else if r.reporter.is_completed
    then (r, none)
    else let finished = record r { reporter = completed_reporter around message r.reporter } in
      announced_end (
        if r.reporter.has_sender
        then told_sender sender_ok (around.of_thousandths finished.reporter.current) finished
        else (finished, none))

unfoldable pub cancel_reporter : String → Reporting → Reporting
cancel_reporter message r =
    if r.reporter.is_active
    then retired (record r {
      reporter = record r.reporter {
        is_active = false;
        message = message_or message r.reporter.message;
      };
    })
    else r

-- The parent, and the child with the shared manager.
unfoldable pub create_child :
    ℕ → Randomness → String → Option Float64 → Reporting → Option (ProgressReporter × Reporting)
create_child now random request_id total r =
    if r.reporter.is_active
    then (let child =
          new_progress_reporter r.manager now random r.reporter.has_sender request_id total ""
            r.reporter.protocol_version in
        some (
          record r.reporter { children = r.reporter.children ++ (child.reporter.token ∷ []) },
          child,
        ))
    else none
