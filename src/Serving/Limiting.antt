-- ===== src/Serving/Limiting.antt =====
-- What the limits on sampling requests guarantee (server/sampling_config.go, and
-- RequestSamplingWithPriority of server/context.go).
use gomcp.Prelude.{
  ℕ, ◌+◌, ◌≤◌, ◌<◌, ◌≡◌, refl, true, some, String, string_key, Dict, lookup, insert, inl, inr,
  Bool-cases, arith, lookup-insert,
}
use gomcp.Serving.Limits.{
  SamplingConfig, SamplingController, new_sampling_controller, reset_rate_limits, session_key,
  requests_of, can_process_request, record_request, complete_request, get_concurrent_request_count,
  get_request_options, or_zero,
}

-- A controller that is used by one request at a time: each checks and records without another between.
pub data IsSequential (config : SamplingConfig) : SamplingController → Type 0 where
  made : IsSequential config (new_sampling_controller (some config))
  taken :
      (sc : SamplingController) (session_id : String)
      → IsSequential config sc
      → can_process_request session_id sc ≡ true
      → IsSequential config (record_request session_id sc)
  completed :
      (sc : SamplingController) (session_id : String)
      → IsSequential config sc
      → IsSequential config (complete_request session_id sc)
  ticked :
      (sc : SamplingController)
      → IsSequential config sc
      → IsSequential config (reset_rate_limits sc)

-- What the check finds.
can_process_request-below :
    (session_id : String) (sc : SamplingController)
    → can_process_request session_id sc ≡ true
    → (sc.concurrent_count < sc.config.max_concurrent_requests)
      × (sc.config.per_client_rate_limit ≡ true
          → requests_of session_id sc < sc.config.max_requests_per_minute)
unfolding can_process_request
can_process_request-below session_id sc h = ground arith

counted_once :
    (i j : String) (n limit : ℕ) (m : Dict String ℕ)
    → n ≤ limit
    → or_zero (lookup j m) ≤ limit
    → or_zero (lookup j (insert i n m)) ≤ limit
counted_once i j n limit m h g = ground (arith, lookup-insert i j n m)

-- A recorded request of one session counts once for it, and leaves the counts of the others.
record_request-bounded :
    (i : String) (sc : SamplingController) (j : String)
    → (sc.config.per_client_rate_limit ≡ true
        → requests_of i sc < sc.config.max_requests_per_minute)
    → requests_of j sc ≤ sc.config.max_requests_per_minute
    → requests_of j (record_request i sc) ≤ sc.config.max_requests_per_minute
unfolding requests_of record_request
record_request-bounded i sc j below h = elim (Bool-cases sc.config.per_client_rate_limit) [
  | inl e ↦ rw e (
      counted_once (session_key i) (session_key j) (requests_of i sc + 1)
        sc.config.max_requests_per_minute sc.request_count (let b = below e in omega arith) h)
  | inr e ↦ rw e h
]

-- With one request at a time, a controller keeps its configuration, never has more concurrent requests
-- than its maximum, and records for no session more requests between two ticks than the limit per
-- minute.
pub can_process_request-limits :
    (config : SamplingConfig) (sc : SamplingController)
    → IsSequential config sc
    → (sc.config ≡ config)
      × (get_concurrent_request_count sc ≤ config.max_concurrent_requests)
      × ((session_id : String) → requests_of session_id sc ≤ config.max_requests_per_minute)
unfolding get_concurrent_request_count new_sampling_controller record_request complete_request
    reset_rate_limits requests_of lookup
can_process_request-limits config sc made = (refl, omega arith, λ j. omega arith)
can_process_request-limits config sc (taken before i sequential h) =
    let (e, a, b) = can_process_request-limits config before sequential in
    let (c, d) = can_process_request-below i before h in
    (
      e,
      rw (← e) (let g = c in omega arith),
      λ j. rw (← e) (record_request-bounded i before j d (rw e (b j))),
    )
can_process_request-limits config sc (completed before i sequential) =
    let (e, a, b) = can_process_request-limits config before sequential in
    (e, let g = a in omega arith, b)
can_process_request-limits config sc (ticked before sequential) =
    let (e, a, b) = can_process_request-limits config before sequential in (e, a, λ j. omega arith)

-- The check and the record of a request are two steps: two requests that are both checked before
-- either is recorded, where one place was free, exceed the maximum of concurrent requests.
pub record_request-races :
    (sc : SamplingController) (i j : String)
    → get_concurrent_request_count sc + 1 ≡ sc.config.max_concurrent_requests
    → requests_of i sc < sc.config.max_requests_per_minute
    → requests_of j sc < sc.config.max_requests_per_minute
    → (can_process_request i sc ≡ true)
      × (can_process_request j sc ≡ true)
      × (sc.config.max_concurrent_requests
          < get_concurrent_request_count (record_request j (record_request i sc)))
unfolding get_concurrent_request_count can_process_request record_request
record_request-races sc i j e h g = (ground arith, ground arith, omega (arith, e))

-- The timeout of a request is at most the configured maximum, whatever its priority, as long as the
-- default is.
pub get_request_options-capped :
    (scaled : ℕ → ℕ → ℕ) (priority : ℕ) (sc : SamplingController)
    → sc.config.default_timeout ≤ sc.config.max_timeout
    → (get_request_options scaled priority sc).timeout ≤ sc.config.max_timeout
unfolding get_request_options
get_request_options-capped scaled priority sc h = ground arith
