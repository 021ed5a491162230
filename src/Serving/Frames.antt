-- ===== src/Serving/Frames.antt =====
-- What handling a message leaves as it was: whether the server counts as initialized, that it sent
-- only requests, and its protocol version once it has one.
use mathlib.Core.Option.{some-injective}
use gomcp.Prelude.{
  ℕ, ◌+◌, ◌≡◌, refl, sym, ◌∙◌, ◌≢◌, Option, none, some, List, [], ◌∷◌, ◌++◌, All, String,
  string_key, ◌==◌, ==_iff, inl, inr, Bool-cases,
}
use gomcp.Requests.Sessions.{update_session}
use gomcp.Serving.Json.{
  Json, null, boolean, number, string, array, object, Items, end, item, Fields, get,
}
use gomcp.Serving.Request.{
  Request, Method, initialize, shutdown, ping, tools_list, tools_call, resources_list,
  resources_read, resources_subscribe, resources_unsubscribe, templates_list, prompts_list,
  prompts_get, set_level, complete, create_message, roots_list, initialized_note, cancelled_note,
  progress_note, message_note, resources_changed_note, resources_updated_note, tools_changed_note,
  prompts_changed_note, roots_changed_note, unknown, method_of, new_context, params_of,
}
use gomcp.Serving.Subscriptions.{is_subscribed, with_subscription, without_subscription}
use gomcp.Serving.State.{ServerImpl, Moment, Outgoing, request, notification, transport_send}
use gomcp.Serving.Roots.{add_root, add_roots, fetch_workspace_roots}
use gomcp.Serving.Initialize.{
  ServerSurroundings, process_initialize, accept_version, extract_protocol_version,
  validate_protocol_version, initial_roots, after_extraction, after_validation,
}
use gomcp.Serving.Handlers.{
  HandlerResult, process_resource_subscribe, process_resource_unsubscribe, process_cancelled,
  text_field, with_uri, in_default_session, cancel_in, cancelled_params, with_changed_subscriptions,
}
use gomcp.Serving.Dispatch.{
  Message, malformed, tree, process, handle_single_message, process_batch_items,
  handle_batch_message, handle_message, handle_json_rpc_response, handle_request, handle_object,
}

abbrev pub IsRequest : Outgoing → Type 0
IsRequest (request id method) = Unit
IsRequest (notification method) = ⊥

pub All-append {ℓ κ} :
    {A : Type ℓ} (P : A → Type κ) (xs : List A) (y : A) → All P xs → P y → All P (xs ++ (y ∷ []))
All-append P [] y all h = (h, tt)
All-append P (x ∷ xs) y (g, all) h = (g, All-append P xs y all h)

pub validate_protocol_version-enforced :
    (around : ServerSurroundings) (enforced asked : String)
    → enforced ≢ ""
    → validate_protocol_version around enforced asked ≡ some enforced
unfolding validate_protocol_version
validate_protocol_version-enforced around enforced asked h = elim (Bool-cases (enforced == "")) [
  | inl e ↦ absurd (h ((==_iff enforced "").0 e))
  | inr e ↦ rw e refl
]

module _ {H : Type 0} where
  abbrev pub Keeps : ServerImpl H → ServerImpl H → Type 0
  Keeps s t =
      (t.initialized ≡ s.initialized)
      × (All IsRequest s.sent → All IsRequest t.sent)
      × (s.protocol_version ≢ "" → t.protocol_version ≡ s.protocol_version)

  pub Keeps-self : (s : ServerImpl H) → Keeps s s
  Keeps-self s = (refl, λ all. all, λ h. refl)

  pub Keeps-then : (s t u : ServerImpl H) → Keeps s t → Keeps t u → Keeps s u
  Keeps-then s t u (a, b, c) (d, e, f) =
      (d ∙ a, λ all. e (b all), λ h. f (λ g. h (sym (c h) ∙ g)) ∙ c h)

  add_root-Keeps : (path : String) (s : ServerImpl H) → Keeps s (add_root path s)
  unfolding add_root
  add_root-Keeps path s = elim (Bool-cases (is_subscribed path s.roots)) [
    | inl h ↦ rw h (Keeps-self s)
    | inr h ↦ rw h (Keeps-self s)
  ]

  add_roots-Keeps :
      (clean : String → String) (paths : List String) (s : ServerImpl H)
      → Keeps s (add_roots clean paths s)
  unfolding add_roots
  add_roots-Keeps clean [] s = Keeps-self s
  add_roots-Keeps clean (path ∷ paths) s =
      Keeps-then s (add_root (clean path) s) (add_roots clean (path ∷ paths) s)
        (add_root-Keeps (clean path) s) (add_roots-Keeps clean paths (add_root (clean path) s))

  fetch_workspace_roots-Keeps :
      (at : Moment) (s : ServerImpl H) → Keeps s (fetch_workspace_roots at s)
  unfolding fetch_workspace_roots transport_send
  fetch_workspace_roots-Keeps at s = elim (Bool-cases s.has_transport) [
    | inr h ↦ rw h (Keeps-self s)
    | inl h ↦ elim (Bool-cases at.send_ok) [
      | inl g ↦
          rw (h, g)
            (
              refl,
              λ all. All-append IsRequest s.sent (request at.nanos "roots/list") all tt,
              λ e. refl,
            )
      | inr g ↦ rw (h, g) (Keeps-self s)
    ]
  ]

  after_update-Keeps :
      (at : Moment) (s : ServerImpl H) (change : List String → List String) (id : Option String)
      → Keeps s (in_default_session change at s id).0
  after_update-Keeps at s change none = Keeps-self s
  after_update-Keeps at s change (some id) =
      elim (Bool-cases
        (update_session s.session_manager at.now id (with_changed_subscriptions change)).1) [
          | inl h ↦ rw h (Keeps-self s)
          | inr h ↦ rw h (Keeps-self s)
        ]

  with_uri-Keeps :
      (at : Moment) (s : ServerImpl H) (change : String → List String → List String)
      (uri : Option String)
      → Keeps s (with_uri change at s uri).0
  with_uri-Keeps at s change none = Keeps-self s
  with_uri-Keeps at s change (some uri) = elim (Bool-cases (uri == "")) [
    | inl h ↦ rw h (Keeps-self s)
    | inr h ↦ rw h (after_update-Keeps at s (change uri) s.default_session)
  ]

  cancel_in-Keeps : (id : Option String) (s : ServerImpl H) → Keeps s (cancel_in id s)
  cancel_in-Keeps none s = Keeps-self s
  cancel_in-Keeps (some id) s = Keeps-self s

  handle_json_rpc_response-Keeps :
      (m : Fields) (s : ServerImpl H) → Keeps s (handle_json_rpc_response m s)
  unfolding handle_json_rpc_response
  handle_json_rpc_response-Keeps m s = Keeps-self s

  -- An accepted version is the enforced one.
  accept_version-Keeps :
      (around : ServerSurroundings) (at : Moment) (params : Option Json) (s : ServerImpl H)
      (version : String)
      → (s.protocol_version ≢ "" → version ≡ s.protocol_version)
      → Keeps s (accept_version around at params s version).0
  unfolding accept_version
  accept_version-Keeps around at params s version e =
      let named = record s { protocol_version = version } in
      let (a, b, c) = add_roots-Keeps around.clean (initial_roots around params) named in
      (a, b, λ h. c (λ g. h (sym (e h) ∙ g)) ∙ e h)

  after_validation-Keeps :
      (around : ServerSurroundings) (at : Moment) (params : Option Json) (s : ServerImpl H)
      (version : Option String)
      → (s.protocol_version ≢ "" → version ≡ some s.protocol_version)
      → Keeps s (after_validation around at params s version).0
  after_validation-Keeps around at params s none e = Keeps-self s
  after_validation-Keeps around at params s (some version) e =
      accept_version-Keeps around at params s version
        (λ h. some-injective version s.protocol_version (e h))

  pub after_extraction-Keeps :
      (around : ServerSurroundings) (at : Moment) (params : Option Json) (s : ServerImpl H)
      (asked : Option String)
      → Keeps s (after_extraction around at params s asked).0
  after_extraction-Keeps around at params s none = Keeps-self s
  after_extraction-Keeps around at params s (some asked) =
      after_validation-Keeps around at params s
        (validate_protocol_version around s.protocol_version asked)
        (validate_protocol_version-enforced around s.protocol_version asked)

module _ {H : Type 0} (around : ServerSurroundings)
    (answers : Method → ServerImpl H → Option Json → HandlerResult) where
  process-Keeps :
      (at : Moment) (m : Method) (params : Option Json) (s : ServerImpl H)
      → Keeps s (process around answers at m params s).0
  unfolding process process_initialize process_resource_subscribe process_resource_unsubscribe
      process_cancelled
  process-Keeps at initialize params s =
      after_extraction-Keeps around at params s (extract_protocol_version around params)
  process-Keeps at shutdown params s = Keeps-self s
  process-Keeps at ping params s = Keeps-self s
  process-Keeps at tools_list params s = Keeps-self s
  process-Keeps at tools_call params s = Keeps-self s
  process-Keeps at resources_list params s = Keeps-self s
  process-Keeps at resources_read params s = Keeps-self s
  process-Keeps at resources_subscribe params s =
      with_uri-Keeps at s with_subscription (text_field "uri" (params_of params))
  process-Keeps at resources_unsubscribe params s =
      with_uri-Keeps at s without_subscription (text_field "uri" (params_of params))
  process-Keeps at templates_list params s = Keeps-self s
  process-Keeps at prompts_list params s = Keeps-self s
  process-Keeps at prompts_get params s = Keeps-self s
  process-Keeps at set_level params s = Keeps-self s
  process-Keeps at complete params s = Keeps-self s
  process-Keeps at create_message params s = Keeps-self s
  process-Keeps at roots_list params s = Keeps-self s
  process-Keeps at initialized_note params s = Keeps-self s
  process-Keeps at cancelled_note params s = cancel_in-Keeps (cancelled_params params) s
  process-Keeps at progress_note params s = Keeps-self s
  process-Keeps at message_note params s = Keeps-self s
  process-Keeps at resources_changed_note params s = Keeps-self s
  process-Keeps at resources_updated_note params s = Keeps-self s
  process-Keeps at tools_changed_note params s = Keeps-self s
  process-Keeps at prompts_changed_note params s = Keeps-self s
  process-Keeps at roots_changed_note params s = fetch_workspace_roots-Keeps at s
  process-Keeps at unknown params s = Keeps-self s

  handle_request-Keeps :
      (at : Moment) (r : Option Request) (s : ServerImpl H)
      → Keeps s (handle_request around answers at r s).0
  handle_request-Keeps at none s = Keeps-self s
  handle_request-Keeps at (some r) s = process-Keeps at (method_of r.method) r.params s

  handle_single_message-Keeps :
      (at : Moment) (v : Json) (s : ServerImpl H)
      → Keeps s (handle_single_message around answers at v s).0
  unfolding handle_single_message
  handle_single_message-Keeps at v s = handle_request-Keeps at (new_context v) s

  process_batch_items-Keeps :
      (moments : ℕ → Moment) (n : ℕ) (vs : Items) (s : ServerImpl H)
      → Keeps s (process_batch_items around answers moments n vs s).0
  unfolding process_batch_items
  process_batch_items-Keeps moments n end s = Keeps-self s
  process_batch_items-Keeps moments n (item v rest) s =
      Keeps-then s (handle_single_message around answers (moments n) v s).0
        (process_batch_items around answers moments n (item v rest) s).0
        (handle_single_message-Keeps (moments n) v s)
        (process_batch_items-Keeps moments (n + 1) rest
          (handle_single_message around answers (moments n) v s).0)

  handle_batch_message-Keeps :
      (moments : ℕ → Moment) (vs : Items) (s : ServerImpl H)
      → Keeps s (handle_batch_message around answers moments vs s).0
  unfolding handle_batch_message
  handle_batch_message-Keeps moments end s = Keeps-self s
  handle_batch_message-Keeps moments (item v rest) s =
      process_batch_items-Keeps moments 0 (item v rest) s

  handle_object-Keeps :
      (moments : ℕ → Moment) (m : Fields) (method id : Option Json) (s : ServerImpl H)
      → Keeps s (handle_object around answers moments m method id s).0
  handle_object-Keeps moments m none (some id) s = handle_json_rpc_response-Keeps m s
  handle_object-Keeps moments m none none s = handle_single_message-Keeps (moments 0) (object m) s
  handle_object-Keeps moments m (some method) id s =
      handle_single_message-Keeps (moments 0) (object m) s

  pub handle_message-Keeps :
      (moments : ℕ → Moment) (message : Message) (s : ServerImpl H)
      → Keeps s (handle_message around answers moments message s).0
  unfolding handle_message
  handle_message-Keeps moments malformed s = Keeps-self s
  handle_message-Keeps moments (tree (object m)) s =
      handle_object-Keeps moments m (get "method" m) (get "id" m) s
  handle_message-Keeps moments (tree (array vs)) s = handle_batch_message-Keeps moments vs s
  handle_message-Keeps moments (tree null) s = handle_single_message-Keeps (moments 0) null s
  handle_message-Keeps moments (tree (boolean b)) s =
      handle_single_message-Keeps (moments 0) (boolean b) s
  handle_message-Keeps moments (tree (number n)) s =
      handle_single_message-Keeps (moments 0) (number n) s
  handle_message-Keeps moments (tree (string t)) s =
      handle_single_message-Keeps (moments 0) (string t) s
