-- ===== src/Serving/Request.antt =====
-- The decoding of a request (Request and NewContext, server/context.go) and of its method (the switch
-- of handleSingleMessage, server/message.go). The metadata, the progress token, the version and the
-- logger of a context do not decide how a message is handled, and are left out.
use gomcp.Prelude.{
  Bool, true, false, Option, none, some, String, string_key, ◌==◌, if◌then◌else◌, ◌&&◌,
}
use gomcp.Serving.Json.{
  Json, Fields, get, text_kind, map_kind, field_fits, text_of, value_of, object_of,
}

-- The fields that a message decodes to. `params` is the raw value, absent where the key is.
pub record Request : Type 0 where
  pub id : Option Json
  pub method : String
  pub params : Option Json

-- The keys of the struct's other fields are its field names, and a value of another kind is an error.
unfoldable pub request_fits : Fields → Bool
request_fits m =
    field_fits text_kind (get "jsonrpc" m)
    && (field_fits text_kind (get "method" m)
        && (field_fits text_kind (get "ToolName" m)
            && (field_fits map_kind (get "ToolArgs" m)
                && (field_fits text_kind (get "ResourcePath" m)
                    && (field_fits text_kind (get "PromptName" m)
                        && field_fits map_kind (get "PromptArgs" m))))))

unfoldable pub request_of : Fields → Request
request_of m = record {
  id = value_of (get "id" m);
  method = text_of (get "method" m);
  params = get "params" m;
}

-- The cases of the switch.
pub data Method : Type 0 where
  initialize : Method
  shutdown : Method
  ping : Method
  tools_list : Method
  tools_call : Method
  resources_list : Method
  resources_read : Method
  resources_subscribe : Method
  resources_unsubscribe : Method
  templates_list : Method
  prompts_list : Method
  prompts_get : Method
  set_level : Method
  complete : Method
  create_message : Method
  roots_list : Method
  initialized_note : Method
  cancelled_note : Method
  progress_note : Method
  message_note : Method
  resources_changed_note : Method
  resources_updated_note : Method
  tools_changed_note : Method
  prompts_changed_note : Method
  roots_changed_note : Method
  unknown : Method

unfoldable pub note_of : String → Method
note_of m =
    if m == "notifications/initialized"
    then initialized_note
    else if m == "notifications/cancelled"
    then cancelled_note
    else if m == "notifications/progress"
    then progress_note
    else if m == "notifications/message"
    then message_note
    else if m == "notifications/resources/list_changed"
    then resources_changed_note
    else if m == "notifications/resources/updated"
    then resources_updated_note
    else if m == "notifications/tools/list_changed"
    then tools_changed_note
    else if m == "notifications/prompts/list_changed"
    then prompts_changed_note
    else if m == "notifications/roots/list_changed"
    then roots_changed_note
    else unknown

unfoldable pub method_of : String → Method
method_of m =
    if m == "initialize"
    then initialize
    else if m == "shutdown"
    then shutdown
    else if m == "ping"
    then ping
    else if m == "tools/list"
    then tools_list
    else if m == "tools/call"
    then tools_call
    else if m == "resources/list"
    then resources_list
    else if m == "resources/read"
    then resources_read
    else if m == "resources/subscribe"
    then resources_subscribe
    else if m == "resources/unsubscribe"
    then resources_unsubscribe
    else if m == "resources/templates/list"
    then templates_list
    else if m == "prompts/list"
    then prompts_list
    else if m == "prompts/get"
    then prompts_get
    else if m == "logging/setLevel"
    then set_level
    else if m == "completion/complete"
    then complete
    else if m == "sampling/createMessage"
    then create_message
    else if m == "roots/list"
    then roots_list
    else note_of m

-- `json.Unmarshal` of the parameters into a struct of these fields; without parameters there is
-- nothing to decode, which is an error.
unfoldable pub params_of : Option Json → Option Fields
params_of none = none
params_of (some v) = object_of v

abbrev named_and_mapped : Fields → Bool
named_and_mapped m = field_fits text_kind (get "name" m) && field_fits map_kind (get "arguments" m)

abbrev all_fit : (Fields → Bool) → Option Fields → Bool
all_fit fit none = false
all_fit fit (some m) = fit m

-- Whether the parameters that NewContext itself decodes are as it wants them.
unfoldable pub context_fits : Method → Option Json → Bool
context_fits tools_call params = all_fit named_and_mapped (params_of params)
context_fits resources_read params =
    all_fit (λ m. field_fits text_kind (get "uri" m)) (params_of params)
context_fits prompts_get params = all_fit named_and_mapped (params_of params)
context_fits method params = true

-- NewContext on a value; `none` is its error.
unfoldable pub new_context : Json → Option Request
new_context v = elim (object_of v) [
  | none ↦ none
  | some m ↦
      if request_fits m
      then (if context_fits (method_of (text_of (get "method" m))) (get "params" m)
          then some (request_of m)
          else none)
      else none
]
