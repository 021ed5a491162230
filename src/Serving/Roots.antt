-- ===== src/Serving/Roots.antt =====
-- The workspace roots (server/root.go, server/server.go): the roots of the server, their URIs, and
-- the request for the client's roots with its response.
use gomcp.Prelude.{
  ℕ, Option, none, some, List, [], ◌∷◌, ◌++◌, String, lookup, insert, ltb, string_key,
  if◌then◌else◌, ◌&&◌,
}
use text.Mathlib.Text.{starts_with}
use Prim.Native.String.{len, slice}
use gomcp.Requests.Sessions.{ClientSession, SessionManager}
use gomcp.Serving.Json.{
  Json, Items, end, item, object, array, get, text_of, value_of, null, Fields, text_kind,
  field_fits, object_of,
}
use gomcp.Serving.Tracker.{RequestTracker, add_request, remove_request}
use gomcp.Serving.Subscriptions.{is_subscribed}
use gomcp.Serving.State.{ServerImpl, ClientInfo, Moment, request, transport_send}

-- `unescape` is `url.PathUnescape`, with `none` for its error.
unfoldable pub uri_to_path : (String → Option String) → String → String
uri_to_path unescape uri =
    if ltb 8 (len uri) && starts_with uri "file:///"
    then elim (unescape (slice uri 7 (len uri))) [
      | none ↦ slice uri 7 (len uri)
      | some decoded ↦ decoded
    ]
    else ""

abbrev tracked_request : ℕ → Option (RequestTracker Json) → Option (RequestTracker Json)
tracked_request id none = none
tracked_request id (some rt) = some (add_request id rt).0

abbrev untracked : ℕ → Option (RequestTracker Json) → Option (RequestTracker Json)
untracked id none = none
untracked id (some rt) = some (remove_request id rt)

-- `uriToPath` of each root of a list; a root that does not decode is an error.
abbrev root_of : (String → Option String) → Option Fields → Option String
root_of unescape none = none
root_of unescape (some m) =
    if field_fits text_kind (get "uri" m) && field_fits text_kind (get "name" m)
    then some (uri_to_path unescape (text_of (get "uri" m)))
    else none

abbrev prepended : Option String → Option (List String) → Option (List String)
prepended none rest = none
prepended (some path) none = none
prepended (some path) (some paths) = some (path ∷ paths)

unfoldable pub roots_of_items : (String → Option String) → Items → Option (List String)
roots_of_items unescape end = some []
roots_of_items unescape (item v rest) =
    prepended (root_of unescape (object_of v)) (roots_of_items unescape rest)

abbrev listed_roots : (String → Option String) → Option Json → Option (List String)
listed_roots unescape (some (array vs)) = roots_of_items unescape vs
listed_roots unescape (some null) = some []
listed_roots unescape none = some []
listed_roots unescape (some v) = none

abbrev roots_of_result : (String → Option String) → Option Json → Option (List String)
roots_of_result unescape none = some []
roots_of_result unescape (some null) = some []
roots_of_result unescape (some (object m)) = listed_roots unescape (get "roots" m)
roots_of_result unescape (some v) = none

-- `none` for a response that does not decode or that holds an error.
abbrev roots_of_fields : (String → Option String) → Option Fields → Option (List String)
roots_of_fields unescape none = none
roots_of_fields unescape (some m) = elim (value_of (get "error" m)) [
  | some failure ↦ none
  | none ↦
      if field_fits text_kind (get "jsonrpc" m)
      then roots_of_result unescape (get "result" m)
      else none
]

abbrev with_roots : List String → ClientSession ClientInfo → ClientSession ClientInfo
with_roots paths session = record session {
  client_info = record session.client_info { roots = paths };
}

abbrev in_session :
    (ClientSession ClientInfo → ClientSession ClientInfo)
    → String
    → SessionManager ClientInfo
    → SessionManager ClientInfo
in_session change id sm = elim (lookup id sm.sessions) [
  | none ↦ sm
  | some session ↦ record sm { sessions = insert id (change session) sm.sessions }
]

module _ {H : Type 0} where
  -- A path that is no root yet becomes one.
  unfoldable pub add_root : String → ServerImpl H → ServerImpl H
  add_root path s =
      if is_subscribed path s.roots then s else record s { roots = s.roots ++ (path ∷ []) }

  -- `clean` is `filepath.Clean`.
  unfoldable pub add_roots : (String → String) → List String → ServerImpl H → ServerImpl H
  add_roots clean [] s = s
  add_roots clean (path ∷ paths) s = add_roots clean paths (add_root (clean path) s)

  -- The goroutine that waits for the response is `roots_response`, or the removal of the request.
  unfoldable pub fetch_workspace_roots : Moment → ServerImpl H → ServerImpl H
  fetch_workspace_roots at s =
      if s.has_transport
      then (let asked = record s { request_tracker = tracked_request at.nanos s.request_tracker } in
          if at.send_ok
          then transport_send at (request at.nanos "roots/list") asked
          else record asked { request_tracker = untracked at.nanos asked.request_tracker })
      else s

  abbrev pub with_default_roots : Option String → Option (List String) → ServerImpl H → ServerImpl H
  with_default_roots none paths s = s
  with_default_roots (some id) none s = s
  with_default_roots (some id) (some paths) s = record s {
    session_manager = in_session (with_roots paths) id s.session_manager;
  }

  -- The response to roots/list; its id is a number, since the request was found by it. The default
  -- session is the one that the manager holds.
  unfoldable pub handle_roots_list_response :
      (String → Option String) → Json → ServerImpl H → ServerImpl H
  handle_roots_list_response unescape response s =
      with_default_roots s.default_session (roots_of_fields unescape (object_of response)) s

  -- Ten seconds without a response.
  unfoldable pub roots_list_timeout : ℕ → ServerImpl H → ServerImpl H
  roots_list_timeout id s = record s { request_tracker = untracked id s.request_tracker }
