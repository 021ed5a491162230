-- ===== src/Serving/Handlers.antt =====
-- The handlers of the requests whose state is the server's: subscriptions of resources
-- (server/resource.go), the level of logging (server/logging.go) and cancellations
-- (server/cancellation.go); and the result of a handler.
use gomcp.Prelude.{
  Bool, true, false, Option, none, some, List, String, string_key, ◌==◌, if◌then◌else◌,
}
use gomcp.Requests.Cancellation.{handle_cancelled_notification}
use gomcp.Requests.Sessions.{ClientSession, SessionManager, update_session}
use gomcp.Serving.Json.{
  Json, object, boolean, Fields, empty, field, get, field_fits, text_kind, text_of, object_of,
}
use gomcp.Serving.Request.{params_of}
use gomcp.Serving.Subscriptions.{with_subscription, without_subscription}
use gomcp.Serving.State.{ServerImpl, ClientInfo, Moment}

-- A handler's result: a value, a value that does not encode, InvalidParametersError, another error.
pub data HandlerResult : Type 0 where
  answered : Json → HandlerResult
  unencodable : HandlerResult
  invalid_parameters : HandlerResult
  failed : HandlerResult

-- A string field of parameters that decode to a struct with it.
abbrev pub text_field : String → Option Fields → Option String
text_field k none = none
text_field k (some m) = if field_fits text_kind (get k m) then some (text_of (get k m)) else none

abbrev process_set_level : Option String → HandlerResult
process_set_level none = failed
process_set_level (some level) = answered (object (field "success" (boolean true) empty))

-- The level is only logged.
unfoldable pub process_logging_set_level : Option Json → HandlerResult
process_logging_set_level params = process_set_level (text_field "level" (params_of params))

abbrev pub with_changed_subscriptions :
    (List String → List String) → ClientSession ClientInfo → ClientSession ClientInfo
with_changed_subscriptions change session = record session {
  resource_subscriptions = change session.resource_subscriptions;
}

-- The parameters of a cancellation decode to a struct of two strings; without them both are empty.
abbrev cancelled_id : Option Fields → Option String
cancelled_id none = none
cancelled_id (some m) =
    if field_fits text_kind (get "reason" m) then text_field "requestId" (some m) else none

abbrev pub cancelled_params : Option Json → Option String
cancelled_params none = some ""
cancelled_params (some v) = cancelled_id (object_of v)

module _ {H : Type 0} where
  abbrev pub after_update :
      ServerImpl H → SessionManager ClientInfo × Bool → ServerImpl H × HandlerResult
  after_update s (manager, true) = (record s { session_manager = manager }, answered (object empty))
  after_update s (manager, false) = (s, failed)

  abbrev pub in_default_session :
      (List String → List String)
      → Moment
      → ServerImpl H
      → Option String
      → ServerImpl H × HandlerResult
  in_default_session change at s none = (s, failed)
  in_default_session change at s (some id) =
      after_update s
        (update_session s.session_manager at.now id (with_changed_subscriptions change))

  abbrev pub with_uri :
      (String → List String → List String)
      → Moment
      → ServerImpl H
      → Option String
      → ServerImpl H × HandlerResult
  with_uri change at s none = (s, failed)
  with_uri change at s (some uri) =
      if uri == "" then (s, failed) else in_default_session (change uri) at s s.default_session

  unfoldable pub process_resource_subscribe :
      Moment → Option Json → ServerImpl H → ServerImpl H × HandlerResult
  process_resource_subscribe at params s =
      with_uri with_subscription at s (text_field "uri" (params_of params))

  unfoldable pub process_resource_unsubscribe :
      Moment → Option Json → ServerImpl H → ServerImpl H × HandlerResult
  process_resource_unsubscribe at params s =
      with_uri without_subscription at s (text_field "uri" (params_of params))

  abbrev pub cancel_in : Option String → ServerImpl H → ServerImpl H
  cancel_in none s = s
  cancel_in (some request_id) s = record s {
    request_canceller = (handle_cancelled_notification request_id s.request_canceller).0;
  }

  -- Its error is only logged.
  unfoldable pub process_cancelled : Option Json → ServerImpl H → ServerImpl H
  process_cancelled params s = cancel_in (cancelled_params params) s
