-- ===== src/Progress/Notifications.antt =====
-- ProgressNotification and its validation (mcp/progress.go). The `ID` field, which no code of the
-- program sets, is left out.
use gomcp.Prelude.{
  Bool, false, not, ◌&&◌, ◌||◌, String, Option, none, some, ◌==◌, string_key, if◌then◌else◌,
}
use gomcp.Progress.Floats.{Float64, lt_float, zero_float, hundred_float}

pub record ProgressNotificationParams : Type 0 where
  pub progress_token : String
  pub progress : Float64
  pub total : Option Float64
  pub message : String

pub record ProgressNotification : Type 0 where
  pub jsonrpc : String
  pub method : String
  pub params : ProgressNotificationParams
  pub protocol_version : String

pub data NotificationError : Type 0 where
  invalid_jsonrpc invalid_method token_required negative_progress : NotificationError
  negative_total exceeds_total message_unsupported : NotificationError

-- The versions whose notifications carry a message.
unfoldable pub has_message : String → Bool
has_message protocol_version = protocol_version == "draft" || protocol_version == "2025-03-26"

unfoldable pub new_progress_notification_for_version :
    String → Float64 → Option Float64 → String → String → ProgressNotification
new_progress_notification_for_version progress_token progress total message protocol_version =
    record {
      jsonrpc = "2.0";
      method = "notifications/progress";
      params = record {
        progress_token = progress_token;
        progress = progress;
        total = total;
        message = if has_message protocol_version then message else "";
      };
      protocol_version = protocol_version;
    }

-- The copy that `ToJSON` gives to `json.Marshal`, which can fail for no finite number.
unfoldable pub to_json : ProgressNotification → ProgressNotification
to_json pn =
    if pn.protocol_version == "2024-11-05"
    then record pn { params = record params { message = "" } }
    else pn
  where
    params : ProgressNotificationParams
    params = pn.params

-- `total != nil && test(*total)`
abbrev pub total_is : (Float64 → Bool) → Option Float64 → Bool
total_is test none = false
total_is test (some total) = test total

-- `none` stands for no error.
unfoldable pub validate : ProgressNotification → Option NotificationError
validate pn =
    if not (pn.jsonrpc == "2.0")
    then some invalid_jsonrpc
    else if not (pn.method == "notifications/progress")
    then some invalid_method
    else if p.progress_token == ""
    then some token_required
    else if lt_float p.progress zero_float
    then some negative_progress
    else if total_is (λ total. lt_float total zero_float) p.total
    then some negative_total
    else if total_is (λ total. lt_float total p.progress) p.total
    then some exceeds_total
    else if pn.protocol_version == "2024-11-05" && not (p.message == "")
    then some message_unsupported
    else none
  where
    p : ProgressNotificationParams
    p = pn.params

-- `true` where `ValidateProgressIncrease` answers an error.
unfoldable pub decreases : ProgressNotification → Float64 → Bool
decreases pn previous_progress = lt_float p.progress previous_progress
  where
    p : ProgressNotificationParams
    p = pn.params

unfoldable pub is_complete : ProgressNotification → Bool
is_complete pn = elim p.total [
  | some total ↦ not (lt_float p.progress total)
  | none ↦ not (lt_float p.progress hundred_float)
]
  where
    p : ProgressNotificationParams
    p = pn.params
