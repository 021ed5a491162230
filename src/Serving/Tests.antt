-- ===== src/Serving/Tests.antt =====
-- The properties of the server's side at concrete inputs.
use gomcp.Prelude.{
  ℕ, zero, suc, leb, ◌++◌, ◌≡◌, ◌≤◌, ◌<◌, ◌+◌, refl, ◌≢◌, Bool, true, false, not, ◌&&◌, ◌||◌,
  Option, none, some, List, [], ◌∷◌, map, String, length, string_key, nat_key, ◌==◌, Dict,
  HasDistinctKeys, ap, lookup, All, ℤ, pos, negsuc, Result, ok, err, arith,
}
use Prim.Native.String.{len, ◌++◌ as join}
use gomcp.Serving.Lists.{page}
use gomcp.Serving.Missing.{follow, Omits, follow-misses}
use gomcp.Serving.Paging.{remaining, after, page-remaining}
use gomcp.Serving.Json.{
  Json, null, number, string, array, object, Items, end, item, Fields, empty, field,
}
use gomcp.Serving.Tracker.{
  RequestTracker, new_request_tracker, add_request, resolve_request, remove_request,
  get_pending_count,
}
use gomcp.Serving.Tracking.{
  IsCareful, started, added, get_pending_count-exact, resolve_request-delivers,
  get_pending_count-drifts,
}
use gomcp.Serving.Limits.{
  SamplingController, new_sampling_controller, new_default_sampling_config, record_request,
  complete_request, can_process_request, requests_of, get_concurrent_request_count,
  default_sampling_options, SamplingMessage, RequestSamplingOptions, is_valid_for_version,
}
use gomcp.Serving.Limiting.{made, taken, can_process_request-limits, record_request-races}
use gomcp.Serving.Subscriptions.{
  is_subscribed, with_subscription, without_subscription, AllDistinct, subscriptions-refine_set,
}
use gomcp.Serving.State.{ServerImpl, Moment, new_server_impl}
use gomcp.Serving.Registry.{register_tool}
use gomcp.Serving.Request.{Request, Method, method_of, new_context}
use gomcp.Serving.Initialize.{ServerSurroundings, extract_protocol_version, process_initialize}
use gomcp.Serving.Handlers.{HandlerResult, answered}
use gomcp.Serving.Dispatch.{Response, tree, handle_message, handle_single_message}
use gomcp.Serving.Answers.{
  Asks, asks_nothing, asking, telling, Carries, id_of, asks, handle_message-batch,
  handle_single_message-answers,
}
use gomcp.Serving.Frames.{IsRequest}
use gomcp.Serving.Histories.{answered_version, Runs, Runs-quiet, handle_message-keeps_version}
use gomcp.Serving.Sampling.{
  Parsed, garbled, error_response, result_response, Arrival, late, arrived, SamplingResponse,
  degraded, fallback_response, version_or, refusal,
}
use gomcp.Serving.Requesting.{SamplingCall, request_from, request_sampling_with_session_and_options}
use gomcp.Serving.Retrying.{request_sampling-ends, request_from-late}

abbrev surroundings : ServerSurroundings
surroundings = record {
  fallback_version = "2025-03-26";
  validated_version = λ v. some v;
  show = λ v. "1";
  unescape = λ path. some path;
  clean = λ path. path;
}

abbrev moment : Moment
moment = record { now = 5; seconds = "20250101000000"; nanos = 7; send_ok = true }

abbrev answer_null : Method → ServerImpl ℕ → Option Json → HandlerResult
answer_null m s params = answered null

abbrev fresh_server : ServerImpl ℕ
fresh_server = new_server_impl moment

abbrev ping_of : ℕ → Json
ping_of n = object (field "id" (number (pos n)) (field "method" (string "ping") empty))

abbrev initialized_message : Json
initialized_message = object (field "method" (string "notifications/initialized") empty)

abbrev ping_request : ℕ → Request
ping_request n = record { id = some (number (pos n)); method = "ping"; params = none }

abbrev initialized_request : Request
initialized_request = record { id = none; method = "notifications/initialized"; params = none }

abbrev two_pings : Items
two_pings = item (ping_of 1) (item initialized_message (item (ping_of 2) end))

ping-decodes : (n : ℕ) → new_context (ping_of n) ≡ some (ping_request n)
unfolding new_context gomcp.Serving.Json.object_of gomcp.Serving.Request.request_fits
    gomcp.Serving.Json.field_fits gomcp.Serving.Json.get gomcp.Serving.Json.has_kind
    gomcp.Serving.Request.context_fits method_of gomcp.Serving.Json.text_of
    gomcp.Serving.Request.request_of gomcp.Serving.Json.value_of
ping-decodes n = refl

initialized-decodes : new_context initialized_message ≡ some initialized_request
unfolding new_context gomcp.Serving.Json.object_of gomcp.Serving.Request.request_fits
    gomcp.Serving.Json.field_fits gomcp.Serving.Json.get gomcp.Serving.Json.has_kind
    gomcp.Serving.Request.context_fits method_of gomcp.Serving.Json.text_of
    gomcp.Serving.Request.note_of gomcp.Serving.Request.request_of gomcp.Serving.Json.value_of
initialized-decodes = refl

ping-asks : asks (method_of "ping") ≡ true
unfolding asks method_of
ping-asks = refl

initialized-tells : asks (method_of "notifications/initialized") ≡ false
unfolding asks method_of gomcp.Serving.Request.note_of
initialized-tells = refl

two_pings-Asks : Asks two_pings (number (pos 1) ∷ (number (pos 2) ∷ []))
two_pings-Asks =
    asking (ping_of 1) _ (ping_request 1) (number (pos 1)) _ (ping-decodes 1) refl ping-asks (
      telling initialized_message _ initialized_request _ initialized-decodes initialized-tells (
        asking (ping_of 2) _ (ping_request 2) (number (pos 2)) _ (ping-decodes 2) refl ping-asks
          asks_nothing))

handle_message-batch_example :
    Carries
      (some (number (pos 1)) ∷ (some (number (pos 2)) ∷ []))
      (handle_message surroundings answer_null
        (λ n. moment)
        (tree (array two_pings))
        fresh_server).1
handle_message-batch_example =
    handle_message-batch surroundings answer_null (λ n. moment) (ping_of 1)
      (item initialized_message (item (ping_of 2) end)) (number (pos 1) ∷ (number (pos 2) ∷ []))
      fresh_server two_pings-Asks

handle_single_message-answers_example :
    (answer : Response) × ((handle_single_message surroundings answer_null moment
        (ping_of 3)
        fresh_server).1
      ≡ some answer)
    × (id_of answer ≡ some (number (pos 3)))
handle_single_message-answers_example =
    (handle_single_message-answers surroundings answer_null moment (ping_of 3) fresh_server).0
      (ping_request 3) (number (pos 3)) (ping-decodes 3) refl ping-asks

abbrev with_tool : ServerImpl ℕ
with_tool = register_tool moment "add" "Adds." 0 null none fresh_server

abbrev after_initialized : ServerImpl ℕ
after_initialized =
    (handle_message surroundings answer_null (λ n. moment) (tree initialized_message) with_tool).0

Runs-quiet_example : (after_initialized.initialized ≡ false) × All IsRequest after_initialized.sent
Runs-quiet_example =
    Runs-quiet surroundings (λ path. true) answer_null after_initialized
      (Runs.message_handled (λ n. moment) (tree initialized_message) with_tool
        (Runs.tool_added moment "add" "Adds." 0 null none fresh_server (Runs.started moment)))

abbrev versioned : ServerImpl ℕ
versioned = record fresh_server { protocol_version = "draft" }

abbrev asked_params : Option Json
asked_params = some (object (field "protocolVersion" (string "2024-11-05") empty))

handle_message-keeps_version_example :
    ((handle_message surroundings answer_null
        (λ n. moment)
        (tree (ping_of 1))
        versioned).0.protocol_version
      ≡ "draft")
    × (answered_version (process_initialize surroundings moment asked_params versioned).1
        ≡ some (string "draft"))
    × ((process_initialize surroundings moment asked_params versioned).0.protocol_version ≡ "draft")
unfolding extract_protocol_version gomcp.Serving.Json.object_of gomcp.Serving.Json.get
handle_message-keeps_version_example =
    handle_message-keeps_version surroundings (λ path. true) answer_null versioned (λ n. moment)
      (tree (ping_of 1)) moment asked_params "2024-11-05"
      (λ e. let f = ap (λ (t : String). t == "") e in let g : false ≡ true = f in cc) refl

abbrev one_waiting : RequestTracker ℕ
one_waiting = (add_request 7 new_request_tracker).0

abbrev one_waiting-IsCareful : IsCareful one_waiting
unfolding lookup
one_waiting-IsCareful = added new_request_tracker 7 started refl

get_pending_count-exact_example :
    HasDistinctKeys one_waiting.requests × (get_pending_count one_waiting ≡ pos 1)
unfolding add_request gomcp.Prelude.insert
get_pending_count-exact_example = get_pending_count-exact one_waiting one_waiting-IsCareful

resolve_request-delivers_example :
    ((resolve_request 7 42 one_waiting).1 ≡ true)
    × (lookup 0 (resolve_request 7 42 one_waiting).0.buffered ≡ some 42)
    × (lookup 7 (resolve_request 7 42 one_waiting).0.timeouts ≡ none)
    × ((j : ℕ)
        → 7 ≢ j
        → lookup j (resolve_request 7 42 one_waiting).0.requests ≡ lookup j one_waiting.requests)
    × ((again : ℕ)
        → resolve_request 7 again (resolve_request 7 42 one_waiting).0
          ≡ ((resolve_request 7 42 one_waiting).0, false))
unfolding lookup add_request gomcp.Prelude.insert
resolve_request-delivers_example = resolve_request-delivers one_waiting 7 0 42 refl refl

get_pending_count-drifts_example :
    get_pending_count (remove_request 8 one_waiting)
    ≢ pos (length (remove_request 8 one_waiting).requests)
unfolding lookup add_request gomcp.Prelude.insert
get_pending_count-drifts_example =
    (get_pending_count-drifts one_waiting 8 0 one_waiting-IsCareful).0 refl

subscriptions-refine_set_example :
    AllDistinct {K = ℕ} (with_subscription 4 (1 ∷ (2 ∷ (3 ∷ []))))
    × AllDistinct {K = ℕ} (without_subscription 4 (1 ∷ (2 ∷ (3 ∷ []))))
    × ((j : ℕ)
        → is_subscribed j (with_subscription 4 (1 ∷ (2 ∷ (3 ∷ []))))
          ≡ (4 == j || is_subscribed j (1 ∷ (2 ∷ (3 ∷ [])))))
    × ((j : ℕ)
        → is_subscribed j (without_subscription 4 (1 ∷ (2 ∷ (3 ∷ []))))
          ≡ (not (4 == j) && is_subscribed j (1 ∷ (2 ∷ (3 ∷ [])))))
unfolding is_subscribed
subscriptions-refine_set_example =
    subscriptions-refine_set {K = ℕ} (1 ∷ (2 ∷ (3 ∷ []))) (refl, (refl, (refl, tt))) 4

abbrev controller : SamplingController
controller = new_sampling_controller (some new_default_sampling_config)

can_process_request-limits_example :
    ((record_request "a" controller).config ≡ new_default_sampling_config)
    × (get_concurrent_request_count (record_request "a" controller) ≤ 10)
    × ((session_id : String) → requests_of session_id (record_request "a" controller) ≤ 120)
unfolding can_process_request new_sampling_controller requests_of lookup
can_process_request-limits_example =
    can_process_request-limits new_default_sampling_config (record_request "a" controller)
      (taken controller "a" made refl)

abbrev nearly_full : SamplingController
nearly_full = record controller { concurrent_count = 9 }

record_request-races_example :
    (can_process_request "a" nearly_full ≡ true)
    × (can_process_request "b" nearly_full ≡ true)
    × (10 < get_concurrent_request_count (record_request "b" (record_request "a" nearly_full)))
unfolding new_sampling_controller get_concurrent_request_count requests_of lookup
record_request-races_example =
    record_request-races nearly_full "a" "b" refl (omega arith) (omega arith)

abbrev sampling_call : SamplingCall
sampling_call = record {
  session_id = "";
  version = "draft";
  messages = [];
  max_tokens = 100;
  retry_interval = 1;
  ignore_capability = false;
}

request_sampling-ends_example :
    (length
        (request_sampling_with_session_and_options
          (λ v. garbled)
          (λ n. moment)
          (λ n. late)
          ""
          "draft"
          []
          100
          default_sampling_options
          fresh_server).0.sent
      ≤ 0 + (0 + 1))
    × ((response : SamplingResponse)
        → (request_sampling_with_session_and_options
            (λ v. garbled)
            (λ n. moment)
            (λ n. late)
            ""
            "draft"
            []
            100
            default_sampling_options
            fresh_server).1
          ≡ ok response
        → is_valid_for_version response.content "draft" ≡ true)
unfolding new_server_impl
request_sampling-ends_example =
    request_sampling-ends (λ v. garbled) (λ n. moment) (λ n. late) "" "draft" [] 100
      default_sampling_options fresh_server

request_from-late_example :
    (length
        (request_from
          (λ v. garbled)
          (λ n. moment)
          (λ n. late)
          sampling_call
          2
          0
          30
          fresh_server).0.sent
      ≡ 0 + (2 + 1))
    × ((request_from (λ v. garbled) (λ n. moment) (λ n. late) sampling_call 2 0 30 fresh_server).1
        ≡ ok fallback_response)
unfolding refusal gomcp.Serving.Limits.validate_for_protocol lookup new_server_impl
    gomcp.Serving.Limits.new_sampling_settings new_sampling_controller
    gomcp.Serving.Limits.first_unsupported gomcp.Serving.Sampling.first_unfit
request_from-late_example =
    request_from-late (λ v. garbled) (λ n. moment) sampling_call 2 0 30 fresh_server refl

-- An order of texts: by their lengths.
abbrev shorter : String → String → Bool
shorter a b = leb (len a) (len b)

shorter_total : (a b : String) → shorter a b ≡ false → shorter b a ≡ true
shorter_total a b h = ground arith

shorter_trans : (a b c : String) → shorter a b ≡ true → shorter b c ≡ true → shorter a c ≡ true
shorter_trans a b c h g = ground arith

abbrev two_names : Dict String ℕ
two_names = ("a", 1) ∷ (("bb", 2) ∷ [])

page-remaining_example :
    remaining shorter (λ v. true) "a" two_names
    ≡ (page shorter (λ v. true) "a" 0 two_names).0
      ++ after shorter (λ v. true) (page shorter (λ v. true) "a" 0 two_names).1 two_names
page-remaining_example =
    page-remaining shorter (λ v. true) shorter_total shorter_trans "a" 0 two_names
      (refl, (refl, tt), (refl, tt, tt))

-- The last of forty-nine entries, the longest names first, is "bb".
abbrev bs : ℕ → String
bs zero = "bb"
bs (suc n) = join "b" (bs n)

abbrev long_names : ℕ → Dict String ℕ
long_names zero = []
long_names (suc n) = (bs n, n) ∷ long_names n

true_of_each : (entries : Dict String ℕ) → All (λ e. true ≡ true) entries
true_of_each [] = tt
true_of_each (e ∷ entries) = (refl, true_of_each entries)

abbrev met_late : Dict String ℕ
met_late = ("a", 1) ∷ []

follow-misses_example :
    (page shorter (λ v. true) "" 0 (long_names 49 ++ ("cc", 2) ∷ met_late)
      ≡ (long_names 49 ++ ("cc", 2) ∷ [], "cc"))
    × All (Omits shorter (λ v. true) "a") (
        follow shorter
          (λ v. true)
          ""
          ((long_names 49 ++ ("cc", 2) ∷ met_late) ∷ (("ddd", 3) ∷ met_late) ∷ []))
unfolding lookup
follow-misses_example =
    follow-misses shorter (λ v. true) shorter_total shorter_trans (long_names 49) met_late "cc" 2
      "a" ((("ddd", 3) ∷ met_late) ∷ []) (true_of_each (long_names 49)) refl refl refl refl refl
