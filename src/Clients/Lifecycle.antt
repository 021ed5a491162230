-- ===== src/Clients/Lifecycle.antt =====
-- The life cycle of a client (Connect, initialize and Close of client/lifecycle.go, and the connection
-- before a request, client/protocol.go). `around` gives what the transport and the server do in one
-- call, which may depend on whether the client's context is cancelled: some transports heed the context
-- (client/http.go), some do not (client/unix.go, client/udp.go). NewClient is `new_client` followed by
-- `connect`. The server's capabilities and information, the registry of servers, events and the log are
-- left out.
use Prim.Native.String.{len}
use text.Mathlib.Text.{starts_with}
use gomcp.Prelude.{
  ℕ, ◌+◌, Bool, true, false, ◌&&◌, ◌||◌, ltb, Option, none, some, List, [], ◌∷◌, String, string_key,
  ◌==◌, if◌then◌else◌,
}

-- What a call of the transport is for.
pub data Call : Type 0 where
  -- `initialize` with the version that it offers.
  initialize_call : String → Call
  shutdown_call : Call
  request_call : String → Call
  notification_call : String → Call

-- The response to initialize: not sent or not decodable, an error, a result without a version, or a
-- version.
pub data InitializeResponse : Type 0 where
  no_response : InitializeResponse
  error_response : InitializeResponse
  without_version : InitializeResponse
  with_version : String → InitializeResponse

-- Of the detector of versions: its default, and whether `ValidateVersion` takes a version.
pub record ClientDetector : Type 0 where
  pub default_version : String
  pub is_supported : String → Bool

-- The Boolean says whether the context of the call is cancelled.
pub record ClientSurroundings : Type 0 where
  -- Whether `Transport.Connect` works.
  pub connects : Bool
  pub initialize_response : Bool → String → InitializeResponse
  -- Whether a request gets a result.
  pub answers : Bool → String → Bool

-- `cancelled` says that the client's context is.
pub record ClientImpl : Type 0 where
  pub url : String
  pub has_transport : Bool
  pub connected : Bool
  pub initialized : Bool
  pub negotiated_version : String
  pub request_id_counter : ℕ
  pub cancelled : Bool
  pub handler_registered : Bool
  pub calls : List Call

pub data ClientFailure : Type 0 where
  no_transport_configured : ClientFailure
  connect_failed : ClientFailure
  initialize_not_answered : ClientFailure
  initialize_refused : ClientFailure
  version_missing : ClientFailure
  version_invalid : ClientFailure
  request_not_answered : ClientFailure

-- With the options' version, "" where there is none, and whether they set a transport.
unfoldable pub new_client : String → String → Bool → ClientImpl
new_client url version has_transport = record {
  url = url;
  has_transport = has_transport;
  connected = false;
  initialized = false;
  negotiated_version = version;
  request_id_counter = 0;
  cancelled = false;
  handler_registered = false;
  calls = [];
}

-- A request has the next id, and is sent in a context under the client's.
unfoldable pub called : Call → ClientImpl → ClientImpl
called call c = record c { request_id_counter = c.request_id_counter + 1; calls = call ∷ c.calls }

unfoldable pub offered_version : ClientDetector → ClientImpl → String
offered_version detector c =
    if c.negotiated_version == "" then detector.default_version else c.negotiated_version

-- The notification has no id; whether it is sent makes no difference.
abbrev pub settled_on : String → ClientImpl → ClientImpl
settled_on version c = record c {
  negotiated_version = version;
  initialized = true;
  handler_registered = true;
  calls = notification_call "notifications/initialized" ∷ c.calls;
}

-- The state after the handshake, and its error.
abbrev pub handshake :
    ClientDetector → ClientImpl → InitializeResponse → ClientImpl × Option ClientFailure
handshake detector c no_response = (c, some initialize_not_answered)
handshake detector c error_response = (c, some initialize_refused)
handshake detector c without_version = (c, some version_missing)
handshake detector c (with_version version) =
    if detector.is_supported version
    then (settled_on version c, none)
    else (c, some version_invalid)

unfoldable pub initialize_client :
    ClientDetector → ClientSurroundings → ClientImpl → ClientImpl × Option ClientFailure
initialize_client detector around c =
    handshake detector (called (initialize_call (offered_version detector c)) c)
      (around.initialize_response c.cancelled (offered_version detector c))

-- A handshake that failed disconnects.
abbrev pub or_disconnected : ClientImpl × Option ClientFailure → ClientImpl × Option ClientFailure
or_disconnected (c, none) = (c, none)
or_disconnected (c, some failure) = (record c { connected = false }, some failure)

-- `len(url) > n && url[:n] == prefix`
abbrev is_longer : String → ℕ → String → Bool
is_longer url n prefix = ltb n (len url) && starts_with url prefix

-- Whether Connect finds a transport for the URL.
unfoldable pub has_scheme : String → Bool
has_scheme url =
    (url == "stdio:///" || (url == "stdio://" || url == "stdio:"))
    || (is_longer url 5 "http:"
        || (is_longer url 6 "https:"
            || (is_longer url 3 "ws:"
                || (is_longer url 4 "wss:"
                    || (is_longer url 4 "sse:" || is_longer url 8 "unix:///")))))

abbrev pub opened :
    ClientDetector → ClientSurroundings → ClientImpl → ClientImpl × Option ClientFailure
opened detector around c =
    if around.connects
    then or_disconnected (initialize_client detector around (record c { connected = true }))
    else (c, some connect_failed)

abbrev pub configured :
    ClientDetector → ClientSurroundings → ClientImpl → ClientImpl × Option ClientFailure
configured detector around c =
    if c.has_transport || has_scheme c.url
    then opened detector around (record c { has_transport = true })
    else (c, some no_transport_configured)

unfoldable pub connect :
    ClientDetector → ClientSurroundings → ClientImpl → ClientImpl × Option ClientFailure
connect detector around c = if c.connected then (c, none) else configured detector around c

abbrev pub shut_down : ClientImpl → ClientImpl
shut_down c = if c.initialized then called shutdown_call c else c

unfoldable pub close_client : ClientImpl → ClientImpl
close_client c =
    if c.connected
    then record (shut_down c) { connected = false; initialized = false; cancelled = true }
    else c

abbrev pub sent_request :
    ClientSurroundings
    → String
    → ClientImpl
    → Option ClientFailure
    → ClientImpl × Option ClientFailure
sent_request around method c (some failure) = (c, some failure)
sent_request around method c none = (
  called (request_call method) c,
  if around.answers c.cancelled method then none else some request_not_answered,
)

-- A client that is not connected connects first. The error of the response is left out.
unfoldable pub send_request :
    ClientDetector → ClientSurroundings → String → ClientImpl → ClientImpl × Option ClientFailure
send_request detector around method c =
    let (ready, failure) = connect detector around c in sent_request around method ready failure
