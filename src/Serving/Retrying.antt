-- ===== src/Serving/Retrying.antt =====
-- The retries of a sampling request end, and what they return (server/sampling.go).
use gomcp.Prelude.{
  ℕ, zero, suc, ◌+◌, ◌≤◌, ◌≡◌, refl, ◌∙◌, Bool, true, false, Option, none, some, List, [], subst,
  ◌∷◌, length, length-append, String, string_key, ◌==◌, if◌then◌else◌, Result, ok, err, inl, inr,
  Bool-cases, arith,
}
use gomcp.Serving.Json.{Json}
use gomcp.Serving.Limits.{
  SamplingConfig, SamplingFailure, timed_out, SamplingMessage, RequestSamplingOptions,
  is_valid_for_version,
}
use gomcp.Serving.State.{ServerImpl, Moment}
use gomcp.Serving.Sampling.{
  SamplingResponse, Parsed, garbled, error_response, result_response, Arrival, unsent, late,
  arrived, Verdict, final, retryable, degraded, judged, checked_response, is_retryable,
  generate_request_id, refusal, version_or, client_caps_for_session, fallback_response,
}
use gomcp.Serving.Requesting.{
  SamplingCall, attempt, attempted_call, transmitted, request_from, verdict_of, was_sent, continued,
  settled, request_sampling_with_session_and_options,
}

-- A result that a caller may use: an error, or content of a type that the version has.
abbrev IsFit : String → Result SamplingFailure SamplingResponse → Type 0
IsFit version (err failure) = Unit
IsFit version (ok response) = is_valid_for_version response.content version ≡ true

abbrev IsFitVerdict : String → Verdict → Type 0
IsFitVerdict version (final r) = IsFit version r
IsFitVerdict version (retryable r) = IsFit version r

fallback_response-IsFit :
    (version : String) → is_valid_for_version fallback_response.content version ≡ true
unfolding is_valid_for_version
fallback_response-IsFit version = ground arith

degraded-IsFit :
    (version : String) (config : Option SamplingConfig) → IsFit version (degraded config)
unfolding degraded
degraded-IsFit version none = tt
degraded-IsFit version (some config) = elim (Bool-cases config.graceful_degradation) [
  | inl h ↦ rw h (fallback_response-IsFit version)
  | inr h ↦ rw h tt
]

checked_response-IsFit :
    (version : String) (response : Option SamplingResponse)
    → IsFit version (checked_response version response)
unfolding checked_response
checked_response-IsFit version none = tt
checked_response-IsFit version (some response) =
    elim (Bool-cases (is_valid_for_version response.content version)) [
      | inl h ↦ rw h h
      | inr h ↦ rw h tt
    ]

judged-IsFit : (version : String) (p : Parsed) → IsFitVerdict version (judged version p)
unfolding judged
judged-IsFit version garbled = tt
judged-IsFit version (error_response code message) = elim (Bool-cases (is_retryable code message)) [
  | inl h ↦ rw h tt
  | inr h ↦ rw h tt
]
judged-IsFit version (result_response response) = checked_response-IsFit version response

verdict_of-IsFit :
    (parse : Json → Parsed) (version : String) (config : Option SamplingConfig) (arrival : Arrival)
    → IsFitVerdict version (verdict_of parse version config arrival)
verdict_of-IsFit parse version config unsent = tt
verdict_of-IsFit parse version config late = degraded-IsFit version config
verdict_of-IsFit parse version config (arrived response) = judged-IsFit version (parse response)

module _ {H : Type 0} (parse : Json → Parsed) (moments : ℕ → Moment) (arrivals : ℕ → Arrival)
    (call : SamplingCall) where
  -- What an attempt leaves of the server: at most one request more is sent, and the version stays.
  AtMostOne : ServerImpl H → ServerImpl H → Type 0
  AtMostOne s t = (length t.sent ≤ length s.sent + 1) × (t.protocol_version ≡ s.protocol_version)

  was_sent-AtMostOne :
      (arrival : Arrival) (id : ℕ) (at : Moment) (s : ServerImpl H)
      → AtMostOne s (was_sent parse moments arrivals call arrival id at s)
  unfolding AtMostOne
  was_sent-AtMostOne unsent id at s = (omega arith, refl)
  was_sent-AtMostOne late id at s = (omega (arith, length-append s.sent (_ ∷ [])), refl)
  was_sent-AtMostOne (arrived response) id at s =
      (omega (arith, length-append s.sent (_ ∷ [])), refl)

  attempted_call-AtMostOne :
      (failure : Option SamplingFailure) (k timeout : ℕ) (s : ServerImpl H)
      → AtMostOne s (attempted_call parse moments arrivals call failure k timeout s).0
  unfolding AtMostOne generate_request_id
  attempted_call-AtMostOne none k timeout s = was_sent-AtMostOne (arrivals k) _ (moments k) _
  attempted_call-AtMostOne (some failure) k timeout s = (omega arith, refl)

  attempted_call-IsFit :
      (failure : Option SamplingFailure) (k timeout : ℕ) (s : ServerImpl H)
      → IsFitVerdict
          (version_or call.version s)
          (attempted_call parse moments arrivals call failure k timeout s).1
  attempted_call-IsFit none k timeout s =
      verdict_of-IsFit parse (version_or call.version s) s.sampling.sampling_config (arrivals k)
  attempted_call-IsFit (some failure) k timeout s = tt

  attempt-AtMostOne :
      (k timeout : ℕ) (s : ServerImpl H)
      → AtMostOne s (attempt parse moments arrivals call k timeout s).0
  unfolding attempt
  attempt-AtMostOne k timeout s = attempted_call-AtMostOne _ k timeout s

  attempt-IsFit :
      (k timeout : ℕ) (s : ServerImpl H)
      → IsFitVerdict (version_or call.version s) (attempt parse moments arrivals call k timeout s).1
  unfolding attempt
  attempt-IsFit k timeout s = attempted_call-IsFit _ k timeout s

  -- So many requests more at most, and a fit result.
  Ends : ℕ → ServerImpl H → ServerImpl H × Result SamplingFailure SamplingResponse → Type 0
  Ends n s (t, r) = (length t.sent ≤ length s.sent + n) × IsFit (version_or call.version s) r

  settled-Ends :
      (n : ℕ) (s : ServerImpl H) (p : ServerImpl H × Verdict)
      → AtMostOne s p.0
      → IsFitVerdict (version_or call.version s) p.1
      → Ends (suc n) s (settled p)
  unfolding AtMostOne Ends
  settled-Ends n s (t, final r) (a, e) h = (omega (arith, a), h)
  settled-Ends n s (t, retryable r) (a, e) h = (omega (arith, a), h)

  continued-Ends :
      (n : ℕ) (s : ServerImpl H) (p : ServerImpl H × Verdict)
      (again : ServerImpl H → ServerImpl H × Result SamplingFailure SamplingResponse)
      → AtMostOne s p.0
      → IsFitVerdict (version_or call.version s) p.1
      → ((t : ServerImpl H) → Ends (suc n) t (again t))
      → Ends (suc (suc n)) s (continued again p)
  unfolding AtMostOne Ends
  continued-Ends n s (t, final r) again (a, e) h ends = (omega (arith, a), h)
  continued-Ends n s (t, retryable r) again (a, e) h ends =
      let (b, g) = ends t in
      (
        omega (arith, a, b),
        subst (λ (v : String). IsFit (if call.version == "" then v else call.version) (again t).1) e
            g,
      )

  request_from-Ends :
      (retries k timeout : ℕ) (s : ServerImpl H)
      → Ends (suc retries) s (request_from parse moments arrivals call retries k timeout s)
  unfolding request_from
  request_from-Ends zero k timeout s =
      settled-Ends zero s (attempt parse moments arrivals call k timeout s)
        (attempt-AtMostOne k timeout s) (attempt-IsFit k timeout s)
  request_from-Ends (suc retries) k timeout s =
      continued-Ends retries s (attempt parse moments arrivals call k timeout s)
        (request_from parse moments arrivals call retries (k + 1) (timeout + call.retry_interval))
        (attempt-AtMostOne k timeout s) (attempt-IsFit k timeout s)
        (request_from-Ends retries (k + 1) (timeout + call.retry_interval))

-- However the client and the transport behave, a sampling request ends with a result after at most one
-- request to the client more than the retries it allows, and content that it returns is of a type that
-- its protocol version has.
pub request_sampling-ends :
    {H : Type 0} (parse : Json → Parsed) (moments : ℕ → Moment) (arrivals : ℕ → Arrival)
    (session_id version : String) (messages : List SamplingMessage) (max_tokens : ℕ)
    (options : RequestSamplingOptions) (s : ServerImpl H)
    → (length
          (request_sampling_with_session_and_options parse moments arrivals session_id version
            messages max_tokens options s).0.sent
        ≤ length s.sent + (options.max_retries + 1))
      × ((response : SamplingResponse)
          → (request_sampling_with_session_and_options parse moments arrivals session_id version
              messages max_tokens options s).1
            ≡ ok response
          → is_valid_for_version response.content (version_or version s) ≡ true)
unfolding request_sampling_with_session_and_options Ends
request_sampling-ends parse moments arrivals session_id version messages max_tokens options s =
    let (a, h) = request_from-Ends parse moments arrivals _ options.max_retries 0 _ s in
    (let b = a in omega arith, λ response e. subst (IsFit (version_or version s)) e h)

-- What a timeout gives, by the configuration.
late_result :
    (config : Option SamplingConfig)
    → degraded config ≡ (
        if (elim config [ none ↦ false | some c ↦ c.graceful_degradation ])
        then ok fallback_response
        else err timed_out)
unfolding degraded
late_result none = refl
late_result (some config) = refl

module _ {H : Type 0} (parse : Json → Parsed) (moments : ℕ → Moment) (call : SamplingCall) where
  abbrev checked : ServerImpl H → Option SamplingFailure
  checked s =
      refusal call.session_id call.version call.messages call.max_tokens call.ignore_capability s

  -- An attempt that nobody answers, of a request that passes the checks.
  attempt-late :
      (k timeout : ℕ) (s : ServerImpl H)
      → checked s ≡ none
      → attempt parse moments (λ n. late) call k timeout s
        ≡ transmitted parse moments (λ n. late) call k timeout s
  unfolding attempt
  attempt-late k timeout s h = rw h refl

  checked-late :
      (k timeout : ℕ) (s : ServerImpl H)
      → checked (transmitted parse moments (λ n. late) call k timeout s).0 ≡ checked s
  unfolding refusal client_caps_for_session generate_request_id
  checked-late k timeout s = refl

  -- With the result left to `degraded`.
  late-degraded :
      (retries k timeout : ℕ) (s : ServerImpl H)
      → refusal call.session_id call.version call.messages call.max_tokens call.ignore_capability s
        ≡ none
      → (length (request_from parse moments (λ n. late) call retries k timeout s).0.sent
          ≡ length s.sent + (retries + 1))
        × ((request_from parse moments (λ n. late) call retries k timeout s).1
            ≡ degraded s.sampling.sampling_config)
  unfolding request_from generate_request_id
  late-degraded zero k timeout s h =
      rw (attempt-late k timeout s h) (omega (arith, length-append s.sent (_ ∷ [])), refl)
  late-degraded (suc retries) k timeout s h =
      let after = (transmitted parse moments (λ n. late) call k timeout s).0 in
      let (a, r) =
        late-degraded retries (k + 1) (timeout + call.retry_interval) after
          (checked-late k timeout s ∙ h) in
      rw (attempt-late k timeout s h) (let b = a in omega (arith, length-append s.sent (_ ∷ [])), r)

  -- Whether the server's sampling configuration asks for graceful degradation.
  abbrev pub is_graceful : ServerImpl H → Bool
  is_graceful s = elim s.sampling.sampling_config [
    | none ↦ false
    | some config ↦ config.graceful_degradation
  ]

  -- A request that passes the checks and that the client never answers is sent once and once for each
  -- retry. It ends with the fallback response if the server's sampling configuration has graceful
  -- degradation, and otherwise, or without a configuration, with the error of a timeout.
  pub request_from-late :
      (retries k timeout : ℕ) (s : ServerImpl H)
      → refusal call.session_id call.version call.messages call.max_tokens call.ignore_capability s
        ≡ none
      → (length (request_from parse moments (λ n. late) call retries k timeout s).0.sent
          ≡ length s.sent + (retries + 1))
        × ((request_from parse moments (λ n. late) call retries k timeout s).1
            ≡ (if is_graceful s then ok fallback_response else err timed_out))
  request_from-late retries k timeout s h =
      let (a, r) = late-degraded retries k timeout s h in
      (a, r ∙ late_result s.sampling.sampling_config)
