-- ===== src/Serving/State.antt =====
-- The state of the server (serverImpl, server/server.go), less the parts that only log, publish
-- events or progress. `sent` records what was given to the transport. The transport is there or not.
use gomcp.Prelude.{
  ℕ, Bool, true, false, Option, none, some, List, [], ◌∷◌, ◌++◌, String, Dict, if◌then◌else◌,
}
use gomcp.Requests.Cancellation.{RequestCanceller, new_request_canceller}
use gomcp.Requests.Sessions.{
  SessionManager, SamplingCapabilities, new_session_manager, create_session,
}
use gomcp.Serving.Json.{Json}
use gomcp.Serving.Tracker.{RequestTracker}
use gomcp.Serving.Limits.{SamplingSettings, new_sampling_settings}
use gomcp.Serving.Cache.{CapabilityCache, new_capability_cache}

-- The environment variables of a client are left out.
pub record ClientInfo : Type 0 where
  pub sampling_supported : Bool
  pub sampling_caps : SamplingCapabilities
  pub protocol_version : String
  pub roots : List String

-- A handler is named by a value of `H`; `annotations` is null where there are none.
pub record Tool (H : Type 0) : Type 0 where
  pub name : String
  pub description : String
  pub handler : H
  pub schema : Json
  pub annotations : Option Json

pub record Resource (H : Type 0) : Type 0 where
  pub path : String
  pub description : String
  pub handler : H
  pub schema : Json
  pub is_template : Bool

pub record PromptTemplate : Type 0 where
  pub role : String
  pub content : String

-- The arguments of a prompt, which a regular expression finds in its templates, are left out.
pub record Prompt : Type 0 where
  pub name : String
  pub description : String
  pub templates : List PromptTemplate

-- What the server gives to the transport: a request with its id, or a notification.
pub data Outgoing : Type 0 where
  request : ℕ → String → Outgoing
  notification : String → Outgoing

pub record ServerImpl (H : Type 0) : Type 0 where
  pub tools : Dict String (Tool H)
  pub resources : Dict String (Resource H)
  pub prompts : Dict String Prompt
  pub roots : List String
  pub protocol_version : String
  pub session_manager : SessionManager ClientInfo
  -- The id of the default session.
  pub default_session : Option String
  pub last_request_id : ℕ
  pub sampling : SamplingSettings
  pub request_tracker : Option (RequestTracker Json)
  pub request_canceller : RequestCanceller
  pub initialized : Bool
  pub needs_root_fetch : Bool
  pub capability_cache : CapabilityCache Outgoing
  pub has_transport : Bool
  pub sent : List Outgoing

-- What the code reads from outside while it handles a message: the clock, also as the text of the
-- seconds and as the number of a request, and whether the transport takes what is sent.
pub record Moment : Type 0 where
  pub now : ℕ
  pub seconds : String
  pub nanos : ℕ
  pub send_ok : Bool

abbrev default_client_info : ClientInfo
default_client_info = record {
  sampling_supported = true;
  sampling_caps = record {
    supported = true;
    text_support = true;
    image_support = true;
    audio_support = false;
  };
  protocol_version = "draft";
  roots = [];
}

module _ {H : Type 0} where
  -- Without options; the transport is the one on standard input and output.
  unfoldable pub new_server_impl : Moment → ServerImpl H
  new_server_impl at =
      let (manager, session) =
        create_session new_session_manager at.now at.seconds default_client_info "draft" in
      record {
        tools = [];
        resources = [];
        prompts = [];
        roots = [];
        protocol_version = "";
        session_manager = manager;
        default_session = some session.id;
        last_request_id = 0;
        sampling = new_sampling_settings;
        request_tracker = none;
        request_canceller = new_request_canceller;
        initialized = false;
        needs_root_fetch = false;
        capability_cache = new_capability_cache;
        has_transport = true;
        sent = [];
      }

  -- A `transport.Send`, and whether it worked.
  unfoldable pub transport_send : Moment → Outgoing → ServerImpl H → ServerImpl H
  transport_send at message s =
      if at.send_ok then record s { sent = s.sent ++ (message ∷ []) } else s
