-- ===== src/Serving/Sampling.antt =====
-- What a sampling request to the client uses (server/sampling.go): its id, the checks before it is
-- sent, and what an attempt leads to. Of an attempt comes one of three: the transport refuses the
-- request, no response comes in time, or a response comes.
use gomcp.Prelude.{
  ℕ, ◌+◌, Bool, true, not, ◌&&◌, ◌||◌, eqb, ltb, leb, Option, none, some, List, [], ◌∷◌, String,
  string_key, ◌==◌, if◌then◌else◌, Result, ok, err,
}
use gomcp.Requests.Sessions.{ClientSession, SessionManager, SamplingCapabilities, get_session}
use gomcp.Serving.Json.{Json}
use gomcp.Serving.Limits.{
  SamplingConfig, SamplingMessage, SamplingMessageContent, SamplingFailure, is_valid_for_version,
  validate_for_protocol, timed_out, unparsable, sampling_error, without_result,
  response_not_in_version, no_audio_support, no_image_support, content_not_in_version,
}
use gomcp.Serving.Tracker.{RequestTracker, new_request_tracker, remove_request, resolve_request}
use gomcp.Serving.State.{ServerImpl, ClientInfo, Moment}
use gomcp.Serving.Registry.{contains}

pub record SamplingResponse : Type 0 where
  pub role : String
  pub content : SamplingMessageContent
  pub stop_reason : String

-- A response of the client, decoded: not of this form, an error with its code (a negative one is as 0)
-- and message, or a result, which may be missing.
pub data Parsed : Type 0 where
  garbled : Parsed
  error_response : ℕ → String → Parsed
  result_response : Option SamplingResponse → Parsed

pub data Arrival : Type 0 where
  unsent : Arrival
  late : Arrival
  arrived : Json → Arrival

-- What an attempt leads to: a final result, or a retry, with the result where no retry is left.
pub data Verdict : Type 0 where
  final : Result SamplingFailure SamplingResponse → Verdict
  retryable : Result SamplingFailure SamplingResponse → Verdict

abbrev pub fallback_response : SamplingResponse
fallback_response = record {
  role = "assistant";
  content = record {
    content_type = "text";
    text =
        "I apologize, but I was unable to process your request in time. Please try again or rephrase your request.";
    encoded = "";
    mime_type = "";
  };
  stop_reason = "timeout";
}

-- What a timeout gives without retries.
unfoldable pub degraded : Option SamplingConfig → Result SamplingFailure SamplingResponse
degraded none = err timed_out
degraded (some config) = if config.graceful_degradation then ok fallback_response else err timed_out

unfoldable pub is_retryable : ℕ → String → Bool
is_retryable code message =
    (leb 500 code && ltb code 600)
    || (contains message "timeout"
        || (contains message "rate limit"
            || (contains message "temporarily unavailable" || contains message "try again")))

unfoldable pub checked_response :
    String → Option SamplingResponse → Result SamplingFailure SamplingResponse
checked_response version none = err without_result
checked_response version (some response) =
    if is_valid_for_version response.content version
    then ok response
    else err response_not_in_version

unfoldable pub judged : String → Parsed → Verdict
judged version garbled = final (err unparsable)
judged version (error_response code message) =
    if is_retryable code message then retryable (err sampling_error) else final (err sampling_error)
judged version (result_response response) = final (checked_response version response)

unfoldable pub first_unfit :
    SamplingCapabilities → String → List SamplingMessage → Option SamplingFailure
first_unfit caps version [] = none
first_unfit caps version (m ∷ ms) =
    if m.content.content_type == "audio" && not caps.audio_support
    then some no_audio_support
    else if m.content.content_type == "image" && not caps.image_support
    then some no_image_support
    else if is_valid_for_version m.content version
    then first_unfit caps version ms
    else some content_not_in_version

abbrev pub tracker_or_new : Option (RequestTracker Json) → RequestTracker Json
tracker_or_new none = new_request_tracker
tracker_or_new (some rt) = rt

-- What has become of the request in the tracker when the attempt goes on: it was removed because it
-- was not sent or because its timer fired, or its response resolved it.
unfoldable pub closed_off : ℕ → Arrival → RequestTracker Json → RequestTracker Json
closed_off id unsent rt = remove_request id rt
closed_off id late rt = remove_request id rt
closed_off id (arrived response) rt = (resolve_request id response rt).0

abbrev caps_or : SamplingCapabilities → Option (ClientSession ClientInfo) → SamplingCapabilities
caps_or caps none = caps
caps_or caps (some session) = session.client_info.sampling_caps

abbrev checked_by_client :
    Option SamplingFailure
    → SamplingCapabilities
    → String
    → List SamplingMessage
    → Option SamplingFailure
checked_by_client (some failure) caps version messages = some failure
checked_by_client none caps version messages = first_unfit caps version messages

-- The capabilities in getClientInfo: those of the default session, where there is one. The default
-- session is one that the manager holds.
abbrev client_caps_of :
    Option String → SamplingCapabilities → SessionManager ClientInfo → SamplingCapabilities
client_caps_of none caps sm = caps
client_caps_of (some id) caps sm = caps_or caps (get_session sm id)

module _ {H : Type 0} where
  unfoldable pub generate_request_id : Moment → ServerImpl H → ServerImpl H × ℕ
  generate_request_id at s =
      let id = (if eqb s.last_request_id 0 then at.nanos else s.last_request_id) + 1 in
      (record s { last_request_id = id }, id)

  abbrev default_caps : ServerImpl H → SamplingCapabilities
  default_caps s = record {
    supported = true;
    text_support = true;
    image_support = true;
    audio_support = not (s.protocol_version == "2024-11-05");
  }

  -- The capabilities in getClientInfoForSession.
  unfoldable pub client_caps_for_session : String → ServerImpl H → SamplingCapabilities
  client_caps_for_session id s =
      let general = client_caps_of s.default_session (default_caps s) s.session_manager in
      if id == "" then general else caps_or general (get_session s.session_manager id)

  -- Without options an empty version is the server's.
  abbrev pub version_or : String → ServerImpl H → String
  version_or version s = if version == "" then s.protocol_version else version

  -- Why a request is refused before it is sent.
  unfoldable pub refusal :
      String → String → List SamplingMessage → ℕ → Bool → ServerImpl H → Option SamplingFailure
  refusal session_id version messages max_tokens ignore_capability s =
      if ignore_capability
      then none
      else checked_by_client
          (validate_for_protocol (version_or version s) messages max_tokens
            s.sampling.sampling_controller)
          (client_caps_for_session session_id s) (version_or version s) messages
