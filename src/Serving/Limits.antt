-- ===== src/Serving/Limits.antt =====
-- The limits on sampling requests: SamplingConfig and SamplingController (server/sampling_config.go).
-- Durations are nanoseconds. The queue of requests, which nothing uses, and the ticker are left out:
-- a tick is `reset_rate_limits`. Limits and counts of tokens are not negative here.
use gomcp.Prelude.{
  ℕ, ◌+◌, ◌-◌, ◌*◌, Bool, true, false, ltb, leb, Option, none, some, List, [], ◌∷◌, String,
  string_key, ◌==◌, if◌then◌else◌, Dict, lookup, insert, ◌||◌,
}

pub record ProtocolSamplingConfig : Type 0 where
  pub max_tokens : ℕ
  pub supported_content_types : Dict String Bool
  pub streaming_supported : Bool

pub record SamplingConfig : Type 0 where
  pub max_requests_per_minute : ℕ
  pub max_concurrent_requests : ℕ
  pub max_tokens_per_request : ℕ
  pub per_client_rate_limit : Bool
  pub default_timeout : ℕ
  pub max_timeout : ℕ
  pub default_max_retries : ℕ
  pub default_retry_interval : ℕ
  pub enable_prioritization : Bool
  pub default_priority : ℕ
  pub resource_quota : Dict String ℕ
  pub graceful_degradation : Bool
  pub protocol_defaults : Dict String ProtocolSamplingConfig

abbrev pub one_second : ℕ
one_second = 1000000000

abbrev draft_config : ProtocolSamplingConfig
draft_config = record {
  max_tokens = 2048;
  supported_content_types = ("text", true) ∷ (("image", true) ∷ (("audio", true) ∷ []));
  streaming_supported = false;
}

abbrev november_config : ProtocolSamplingConfig
november_config = record {
  max_tokens = 4096;
  supported_content_types = ("text", true) ∷ (("image", true) ∷ []);
  streaming_supported = false;
}

abbrev march_config : ProtocolSamplingConfig
march_config = record {
  max_tokens = 8192;
  supported_content_types = ("text", true) ∷ (("image", true) ∷ (("audio", true) ∷ []));
  streaming_supported = true;
}

abbrev pub new_default_sampling_config : SamplingConfig
new_default_sampling_config = record {
  max_requests_per_minute = 120;
  max_concurrent_requests = 10;
  max_tokens_per_request = 8192;
  per_client_rate_limit = true;
  default_timeout = 30 * one_second;
  max_timeout = 120 * one_second;
  default_max_retries = 2;
  default_retry_interval = 1 * one_second;
  enable_prioritization = true;
  default_priority = 5;
  resource_quota = ("text", 8192) ∷ (("image", 4096) ∷ (("audio", 4096) ∷ []));
  graceful_degradation = true;
  protocol_defaults =
      ("draft", draft_config)
      ∷ (("2024-11-05", november_config) ∷ (("2025-03-26", march_config) ∷ []));
}

pub record SamplingController : Type 0 where
  pub config : SamplingConfig
  pub request_count : Dict String ℕ
  pub concurrent_count : ℕ

unfoldable pub new_sampling_controller : Option SamplingConfig → SamplingController
new_sampling_controller none = record {
  config = new_default_sampling_config;
  request_count = [];
  concurrent_count = 0;
}
new_sampling_controller (some config) = record {
  config = config;
  request_count = [];
  concurrent_count = 0;
}

unfoldable pub reset_rate_limits : SamplingController → SamplingController
reset_rate_limits sc = record sc { request_count = [] }

unfoldable pub session_key : String → String
session_key session_id = if session_id == "" then "default" else session_id

-- What a missing key of a map of numbers gives.
abbrev pub or_zero : Option ℕ → ℕ
or_zero none = 0
or_zero (some n) = n

unfoldable pub requests_of : String → SamplingController → ℕ
requests_of session_id sc = or_zero (lookup (session_key session_id) sc.request_count)

unfoldable pub can_process_request : String → SamplingController → Bool
can_process_request session_id sc =
    if leb sc.config.max_concurrent_requests sc.concurrent_count
    then false
    else if sc.config.per_client_rate_limit
    then (if leb sc.config.max_requests_per_minute (requests_of session_id sc) then false else true)
    else true

unfoldable pub record_request : String → SamplingController → SamplingController
record_request session_id sc = record sc {
  concurrent_count = sc.concurrent_count + 1;
  request_count =
      if sc.config.per_client_rate_limit
      then insert (session_key session_id) (requests_of session_id sc + 1) sc.request_count
      else sc.request_count;
}

unfoldable pub complete_request : String → SamplingController → SamplingController
complete_request session_id sc = record sc { concurrent_count = sc.concurrent_count - 1 }

unfoldable pub get_concurrent_request_count : SamplingController → ℕ
get_concurrent_request_count sc = sc.concurrent_count

pub record RequestSamplingOptions : Type 0 where
  pub timeout : ℕ
  pub max_retries : ℕ
  pub retry_interval : ℕ
  pub ignore_capability : Bool

abbrev pub default_sampling_options : RequestSamplingOptions
default_sampling_options = record {
  timeout = 30 * one_second;
  max_retries = 0;
  retry_interval = 1 * one_second;
  ignore_capability = false;
}

-- `scaled timeout priority` is Go's `Duration(float64(timeout) * (0.5 + float64(priority)/10.0))`.
unfoldable pub get_request_options : (ℕ → ℕ → ℕ) → ℕ → SamplingController → RequestSamplingOptions
get_request_options scaled priority sc = record {
  timeout =
      if sc.config.enable_prioritization
      then (if ltb sc.config.max_timeout (scaled sc.config.default_timeout priority)
          then sc.config.max_timeout
          else scaled sc.config.default_timeout priority)
      else sc.config.default_timeout;
  max_retries = sc.config.default_max_retries;
  retry_interval = sc.config.default_retry_interval;
  ignore_capability = false;
}

pub record SamplingMessageContent : Type 0 where
  pub content_type : String
  pub text : String
  pub encoded : String
  pub mime_type : String

pub record SamplingMessage : Type 0 where
  pub role : String
  pub content : SamplingMessageContent

unfoldable pub is_valid_for_version : SamplingMessageContent → String → Bool
is_valid_for_version c version =
    if version == "draft" || version == "2025-03-26"
    then c.content_type == "text" || (c.content_type == "image" || c.content_type == "audio")
    else if version == "2024-11-05"
    then c.content_type == "text" || c.content_type == "image"
    else c.content_type == "text"

pub data SamplingFailure : Type 0 where
  unsupported_protocol : SamplingFailure
  too_many_tokens : SamplingFailure
  -- The number of the message.
  unsupported_content : ℕ → SamplingFailure
  rate_limit_exceeded : SamplingFailure
  no_audio_support : SamplingFailure
  no_image_support : SamplingFailure
  content_not_in_version : SamplingFailure
  not_sent : SamplingFailure
  timed_out : SamplingFailure
  unparsable : SamplingFailure
  sampling_error : SamplingFailure
  without_result : SamplingFailure
  response_not_in_version : SamplingFailure

abbrev or_false : Option Bool → Bool
or_false none = false
or_false (some b) = b

unfoldable pub first_unsupported :
    ℕ → ProtocolSamplingConfig → List SamplingMessage → Option SamplingFailure
first_unsupported i protocol_config [] = none
first_unsupported i protocol_config (m ∷ ms) =
    if or_false (lookup m.content.content_type protocol_config.supported_content_types)
    then first_unsupported (i + 1) protocol_config ms
    else some (unsupported_content i)

-- `none` where the request is valid.
unfoldable pub validate_for_protocol :
    String → List SamplingMessage → ℕ → SamplingController → Option SamplingFailure
validate_for_protocol protocol messages max_tokens sc =
    elim (lookup protocol sc.config.protocol_defaults) [
      | none ↦ some unsupported_protocol
      | some protocol_config ↦
          if ltb protocol_config.max_tokens max_tokens
          then some too_many_tokens
          else first_unsupported 0 protocol_config messages
    ]

-- The server's sampling configuration and controller.
pub record SamplingSettings : Type 0 where
  pub sampling_config : Option SamplingConfig
  pub sampling_controller : SamplingController

-- What NewServer sets before it applies the options.
unfoldable pub new_sampling_settings : SamplingSettings
new_sampling_settings = record {
  sampling_config = some new_default_sampling_config;
  sampling_controller = new_sampling_controller (some new_default_sampling_config);
}

-- The option WithSamplingConfig.
unfoldable pub sampling_config_option : SamplingConfig → SamplingSettings → SamplingSettings
sampling_config_option config s = elim s.sampling_config [
  | some old ↦ s
  | none ↦ record {
    sampling_config = some config;
    sampling_controller = new_sampling_controller (some config);
  }
]

-- The methods WithSamplingConfig and WithSamplingController.
unfoldable pub with_sampling_config : SamplingConfig → SamplingSettings → SamplingSettings
with_sampling_config config s = record s { sampling_config = some config }

unfoldable pub with_sampling_controller : SamplingController → SamplingSettings → SamplingSettings
with_sampling_controller controller s = record s { sampling_controller = controller }
