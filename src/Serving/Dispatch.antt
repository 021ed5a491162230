-- ===== src/Serving/Dispatch.antt =====
-- Messages of a client and the server's answers (server/message.go, server/error.go): single
-- messages, batches, and the responses to the server's own requests. `answers` gives the result of
-- the handlers of the other requests on the server's state; what they do besides, the progress of the
-- client's operations (see Progress), the events, the texts of the errors and the log are left out.
use gomcp.Prelude.{ℕ, ◌+◌, Bool, true, false, Option, none, some, List, [], ◌∷◌, ℤ, pos, negsuc}
use gomcp.Serving.Json.{
  Json, null, boolean, number, array, object, Items, end, item, Fields, empty, field, get,
  field_fits, text_kind,
}
use gomcp.Serving.Tracker.{RequestTracker, resolve_request}
use gomcp.Serving.Request.{
  Request, Method, initialize, shutdown, ping, resources_subscribe, resources_unsubscribe,
  set_level, create_message, roots_list, initialized_note, cancelled_note, progress_note,
  message_note, resources_changed_note, resources_updated_note, tools_changed_note,
  prompts_changed_note, roots_changed_note, unknown, method_of, new_context,
}
use gomcp.Serving.State.{ServerImpl, Moment}
use gomcp.Serving.Roots.{fetch_workspace_roots}
use gomcp.Serving.Initialize.{ServerSurroundings, process_initialize}
use gomcp.Serving.Handlers.{
  HandlerResult, answered, unencodable, invalid_parameters, failed, process_logging_set_level,
  process_resource_subscribe, process_resource_unsubscribe, process_cancelled,
}

-- An error has its code; its id is absent where the request's is.
pub data Response : Type 0 where
  success : Json → Json → Response
  failure : Option Json → ℤ → Response

-- What handleMessage gives the transport.
pub data Output : Type 0 where
  nothing : Output
  one : Response → Output
  batch : List Response → Output

-- A message that is not JSON, or the value that it decodes to.
pub data Message : Type 0 where
  malformed : Message
  tree : Json → Message

-- -32700, -32600, -32602 and -32603
abbrev pub parse_error : ℤ
parse_error = negsuc 32699

abbrev pub invalid_request : ℤ
invalid_request = negsuc 32599

abbrev pub invalid_params : ℤ
invalid_params = negsuc 32601

abbrev pub internal_error : ℤ
internal_error = negsuc 32602

-- What a case of the switch leaves: the function returns without an answer, or goes on with an error
-- or a result. The cases without a body go on with a result of null.
pub data Reply : Type 0 where
  silent : Reply
  goes_on : HandlerResult → Reply

unfoldable pub success_or_silence : Option Json → HandlerResult → Option Response
success_or_silence id invalid_parameters = some (failure id invalid_params)
success_or_silence id failed = some (failure id internal_error)
success_or_silence none (answered v) = none
success_or_silence none unencodable = none
success_or_silence (some id) (answered v) = some (success id v)
success_or_silence (some id) unencodable = some (failure (some id) internal_error)

abbrev respond : Option Json → Reply → Option Response
respond id silent = none
respond id (goes_on outcome) = success_or_silence id outcome

abbrev initialized_outcome : Option Json → HandlerResult
initialized_outcome none = failed
initialized_outcome (some v) = answered v

abbrev output_of : Option Response → Output
output_of none = nothing
output_of (some response) = one response

abbrev pub batch_of : List Response → Output
batch_of [] = nothing
batch_of (response ∷ rest) = batch (response ∷ rest)

abbrev pub added_answer : Option Response → List Response → List Response
added_answer none rest = rest
added_answer (some response) rest = response ∷ rest

-- The id of a response decoded to an int: null leaves the zero.
unfoldable pub response_id : Fields → Option ℤ
response_id m = if_fits (field_fits text_kind (get "jsonrpc" m)) (get "id" m)
  where
    if_fits : Bool → Option Json → Option ℤ
    if_fits true (some (number n)) = some n
    if_fits true (some null) = some (pos 0)
    if_fits true v = none
    if_fits false v = none

-- The ids of the server's requests are not negative.
abbrev resolve_in : Option ℤ → Json → Option (RequestTracker Json) → Option (RequestTracker Json)
resolve_in (some (pos id)) response (some rt) = some (resolve_request id response rt).0
resolve_in (some (negsuc id)) response (some rt) = some rt
resolve_in none response (some rt) = some rt
resolve_in id response none = none

module _ {H : Type 0} where
  -- Its error is only logged.
  unfoldable pub handle_json_rpc_response : Fields → ServerImpl H → ServerImpl H
  handle_json_rpc_response m s = record s {
    request_tracker = resolve_in (response_id m) (object m) s.request_tracker;
  }

module _ {H : Type 0} (around : ServerSurroundings)
    (answers : Method → ServerImpl H → Option Json → HandlerResult) where
  abbrev replied : ServerImpl H × HandlerResult → ServerImpl H × Reply
  replied (s, outcome) = (s, goes_on outcome)

  abbrev replied_version : ServerImpl H × Option Json → ServerImpl H × Reply
  replied_version (s, version) = (s, goes_on (initialized_outcome version))

  unfoldable pub process : Moment → Method → Option Json → ServerImpl H → ServerImpl H × Reply
  process at initialize params s = replied_version (process_initialize around at params s)
  process at shutdown params s =
      (s, goes_on (answered (object (field "success" (boolean true) empty))))
  process at create_message params s = (s, goes_on failed)
  process at ping params s = (s, goes_on (answered (object empty)))
  process at resources_subscribe params s = replied (process_resource_subscribe at params s)
  process at resources_unsubscribe params s = replied (process_resource_unsubscribe at params s)
  process at set_level params s = (s, goes_on (process_logging_set_level params))
  process at roots_list params s = (s, goes_on failed)
  process at initialized_note params s = (s, silent)
  process at cancelled_note params s = (process_cancelled params s, silent)
  process at progress_note params s = (s, silent)
  process at message_note params s = (s, goes_on (answered null))
  process at resources_changed_note params s = (s, goes_on (answered null))
  process at resources_updated_note params s = (s, goes_on (answered null))
  process at tools_changed_note params s = (s, goes_on (answered null))
  process at prompts_changed_note params s = (s, goes_on (answered null))
  process at roots_changed_note params s = (fetch_workspace_roots at s, silent)
  process at unknown params s = (s, goes_on failed)
  process at method params s = (s, goes_on (answers method s params))

  abbrev responded : Option Json → ServerImpl H × Reply → ServerImpl H × Option Response
  responded id (s, reply) = (s, respond id reply)

  abbrev pub handle_request :
      Moment → Option Request → ServerImpl H → ServerImpl H × Option Response
  handle_request at none s = (s, some (failure none parse_error))
  handle_request at (some r) s = responded r.id (process at (method_of r.method) r.params s)

  -- A message that decodes to a value.
  unfoldable pub handle_single_message :
      Moment → Json → ServerImpl H → ServerImpl H × Option Response
  handle_single_message at v s = handle_request at (new_context v) s

  abbrev joined_answer :
      Option Response → ServerImpl H × List Response → ServerImpl H × List Response
  joined_answer response (s, rest) = (s, added_answer response rest)

  -- The elements from the one with this number on, each handled at its own moment. An answer encodes
  -- and decodes to itself.
  unfoldable pub process_batch_items :
      (ℕ → Moment) → ℕ → Items → ServerImpl H → ServerImpl H × List Response
  process_batch_items moments n end s = (s, [])
  process_batch_items moments n (item v rest) s =
      let (after, response) = handle_single_message (moments n) v s in
      joined_answer response (process_batch_items moments (n + 1) rest after)

  abbrev batched : ServerImpl H × List Response → ServerImpl H × Output
  batched (s, responses) = (s, batch_of responses)

  unfoldable pub handle_batch_message : (ℕ → Moment) → Items → ServerImpl H → ServerImpl H × Output
  handle_batch_message moments end s = (s, one (failure none invalid_request))
  handle_batch_message moments (item v rest) s =
      batched (process_batch_items moments 0 (item v rest) s)

  abbrev single : ServerImpl H × Option Response → ServerImpl H × Output
  single (s, response) = (s, output_of response)

  -- An object without a method but with an id is a response.
  abbrev pub handle_object :
      (ℕ → Moment) → Fields → Option Json → Option Json → ServerImpl H → ServerImpl H × Output
  handle_object moments m none (some id) s = (handle_json_rpc_response m s, nothing)
  handle_object moments m none none s = single (handle_single_message (moments 0) (object m) s)
  handle_object moments m (some method) id s =
      single (handle_single_message (moments 0) (object m) s)

  unfoldable pub handle_message : (ℕ → Moment) → Message → ServerImpl H → ServerImpl H × Output
  handle_message moments malformed s = (s, one (failure none parse_error))
  handle_message moments (tree (object m)) s =
      handle_object moments m (get "method" m) (get "id" m) s
  handle_message moments (tree (array vs)) s = handle_batch_message moments vs s
  handle_message moments (tree v) s = single (handle_single_message (moments 0) v s)
