-- ===== src/Serving/Requesting.antt =====
-- The attempts of a sampling request and its retries: RequestSamplingWithSessionAndOptions
-- (server/sampling.go) and RequestSamplingWithPriority (server/context.go). What comes of an attempt is
-- given by its number, and `parse` is Go's decoding of a response. Waiting is left out.
use gomcp.Prelude.{
  ℕ, zero, suc, ◌+◌, Bool, Option, none, some, List, [], ◌∷◌, ◌++◌, ◌*◌, String, string_key,
  if◌then◌else◌, Result, err,
}
use gomcp.Serving.Json.{Json}
use gomcp.Serving.Limits.{
  SamplingConfig, RequestSamplingOptions, SamplingMessage, SamplingFailure, one_second, not_sent,
  rate_limit_exceeded, can_process_request, record_request, complete_request, get_request_options,
  SamplingController,
}
use gomcp.Serving.Tracker.{add_request, setup_timeout}
use gomcp.Serving.State.{ServerImpl, Moment, request}
use gomcp.Serving.Sampling.{
  SamplingResponse, Parsed, Arrival, unsent, late, arrived, Verdict, final, retryable, degraded,
  judged, generate_request_id, refusal, tracker_or_new, version_or, closed_off,
}

abbrev pub verdict_of : (Json → Parsed) → String → Option SamplingConfig → Arrival → Verdict
verdict_of parse version config unsent = final (err not_sent)
verdict_of parse version config late = retryable (degraded config)
verdict_of parse version config (arrived response) = judged version (parse response)

abbrev pub settled {ℓ} : {A : Type ℓ} → A × Verdict → A × Result SamplingFailure SamplingResponse
settled (s, final r) = (s, r)
settled (s, retryable r) = (s, r)

abbrev pub continued {ℓ} :
    {A : Type ℓ}
    → (A → A × Result SamplingFailure SamplingResponse)
    → A × Verdict
    → A × Result SamplingFailure SamplingResponse
continued again (s, final r) = (s, r)
continued again (s, retryable r) = again s

-- What of a request does not change in its retries.
pub record SamplingCall : Type 0 where
  pub session_id : String
  pub version : String
  pub messages : List SamplingMessage
  pub max_tokens : ℕ
  pub retry_interval : ℕ
  pub ignore_capability : Bool

module _ {H : Type 0} (parse : Json → Parsed) (moments : ℕ → Moment) (arrivals : ℕ → Arrival)
    (call : SamplingCall) where
  abbrev pub was_sent : Arrival → ℕ → Moment → ServerImpl H → ServerImpl H
  was_sent unsent id at s = s
  was_sent late id at s = record s { sent = s.sent ++ (request id "sampling/createMessage" ∷ []) }
  was_sent (arrived response) id at s = record s {
    sent = s.sent ++ (request id "sampling/createMessage" ∷ []);
  }

  -- The attempt with this number, that passed the checks.
  abbrev pub transmitted : ℕ → ℕ → ServerImpl H → ServerImpl H × Verdict
  transmitted k timeout s =
      let (numbered, id) = generate_request_id (moments k) s in
      let waiting =
        setup_timeout id ((moments k).now + timeout)
          (add_request id (tracker_or_new s.request_tracker)).0 in
      (
        was_sent (arrivals k) id (moments k)
            (record numbered { request_tracker = some (closed_off id (arrivals k) waiting) }),
        verdict_of parse (version_or call.version s) s.sampling.sampling_config (arrivals k),
      )

  abbrev pub attempted_call : Option SamplingFailure → ℕ → ℕ → ServerImpl H → ServerImpl H × Verdict
  attempted_call (some failure) k timeout s = (s, final (err failure))
  attempted_call none k timeout s = transmitted k timeout s

  unfoldable pub attempt : ℕ → ℕ → ServerImpl H → ServerImpl H × Verdict
  attempt k timeout s =
      attempted_call
        (refusal call.session_id call.version call.messages call.max_tokens call.ignore_capability
          s)
        k timeout s

  -- The attempt with this number and its retries, of which so many are left.
  unfoldable pub request_from :
      ℕ → ℕ → ℕ → ServerImpl H → ServerImpl H × Result SamplingFailure SamplingResponse
  request_from zero k timeout s = settled (attempt k timeout s)
  request_from (suc retries) k timeout s =
      continued (request_from retries (k + 1) (timeout + call.retry_interval)) (attempt k timeout s)

abbrev or_default : ℕ → ℕ → ℕ
or_default default zero = default
or_default default (suc n) = suc n

module _ {H : Type 0} (parse : Json → Parsed) (moments : ℕ → Moment) (arrivals : ℕ → Arrival) where
  unfoldable pub request_sampling_with_session_and_options :
      String
      → String
      → List SamplingMessage
      → ℕ
      → RequestSamplingOptions
      → ServerImpl H
      → ServerImpl H × Result SamplingFailure SamplingResponse
  request_sampling_with_session_and_options session_id version messages max_tokens options s =
      let call : SamplingCall = record {
        session_id = session_id;
        version = version;
        messages = messages;
        max_tokens = max_tokens;
        retry_interval = or_default one_second options.retry_interval;
        ignore_capability = options.ignore_capability;
      } in
      request_from parse moments arrivals call options.max_retries 0
        (or_default (30 * one_second) options.timeout) s

  abbrev in_controller : (SamplingController → SamplingController) → ServerImpl H → ServerImpl H
  in_controller change s = record s {
    sampling = record s.sampling { sampling_controller = change s.sampling.sampling_controller };
  }

  abbrev completed :
      String
      → ServerImpl H × Result SamplingFailure SamplingResponse
      → ServerImpl H × Result SamplingFailure SamplingResponse
  completed session_id (s, r) = (in_controller (complete_request session_id) s, r)

  -- With the session of the context, "" where it has none, and the version of the context.
  unfoldable pub request_sampling_with_priority :
      (ℕ → ℕ → ℕ)
      → String
      → String
      → List SamplingMessage
      → ℕ
      → ℕ
      → ServerImpl H
      → ServerImpl H × Result SamplingFailure SamplingResponse
  request_sampling_with_priority scaled session_id version messages max_tokens priority s =
      if can_process_request session_id s.sampling.sampling_controller
      then completed session_id (
          request_sampling_with_session_and_options session_id version messages max_tokens
            (get_request_options scaled priority s.sampling.sampling_controller)
            (in_controller (record_request session_id) s))
      else (s, err rate_limit_exceeded)
