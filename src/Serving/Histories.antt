-- ===== src/Serving/Histories.antt =====
-- What holds of the server after any sequence of registrations, messages and responses, from the
-- start on: NewServer, Tool, Resource, Prompt, handleMessage and the roots of the client.
use gomcp.Prelude.{
  ℕ, ◌≡◌, refl, ap, ◌∙◌, ◌≢◌, Bool, true, false, Option, none, some, List, [], ◌∷◌, ◌++◌, All,
  insert, String, string_key, ◌==◌, ==_iff, inl, inr, Bool-cases,
}
use gomcp.Serving.Json.{Json, string, object_of}
use gomcp.Serving.Request.{Method}
use gomcp.Serving.Cache.{mark_tools_changed, queue_notification}
use gomcp.Serving.State.{
  ServerImpl, Moment, Outgoing, notification, PromptTemplate, new_server_impl,
}
use gomcp.Serving.Registry.{announce, send_list_changed, register_tool, add_resource, add_prompt}
use gomcp.Serving.Roots.{handle_roots_list_response, roots_list_timeout, with_default_roots}
use gomcp.Serving.Initialize.{
  ServerSurroundings, process_initialize, extract_protocol_version, accept_version, get_in,
}
use gomcp.Serving.Handlers.{HandlerResult}
use gomcp.Serving.Dispatch.{Message, handle_message}
use gomcp.Serving.Frames.{
  IsRequest, handle_message-Keeps, after_extraction-Keeps, validate_protocol_version-enforced,
}

module _ {H : Type 0} where
  IsQuiet : ServerImpl H → Type 0
  IsQuiet s = (s.initialized ≡ false) × All IsRequest s.sent

  announce-queues :
      (at : Moment) (n : Outgoing) (s : ServerImpl H) (b : Bool)
      → b ≡ false
      → announce b at n s ≡ record s { capability_cache = queue_notification n s.capability_cache }
  announce-queues at n s true h = cc
  announce-queues at n s false h = refl

  -- A notification of a server that is not initialized is queued.
  send_list_changed-queues :
      (at : Moment) (n : Outgoing) (s : ServerImpl H)
      → s.initialized ≡ false
      → send_list_changed at n s
        ≡ record s { capability_cache = queue_notification n s.capability_cache }
  unfolding send_list_changed
  send_list_changed-queues at n s e = announce-queues at n s s.initialized e

  send_list_changed-IsQuiet :
      (at : Moment) (n : Outgoing) (s : ServerImpl H)
      → IsQuiet s
      → IsQuiet (send_list_changed at n s)
  unfolding IsQuiet
  send_list_changed-IsQuiet at n s (e, all) = rw (send_list_changed-queues at n s e) (e, all)

-- The version of an answer to initialize.
abbrev pub answered_version : Option Json → Option Json
answered_version none = none
answered_version (some answer) = get_in "protocolVersion" (object_of answer)

module _ {H : Type 0} (around : ServerSurroundings) (template_ok : String → Bool)
    (answers : Method → ServerImpl H → Option Json → HandlerResult) where
  pub data Runs : ServerImpl H → Type 0 where
    started : (at : Moment) → Runs (new_server_impl at)
    tool_added :
        (at : Moment) (name description : String) (handler : H) (schema : Json)
        (annotations : Option Json) (s : ServerImpl H)
        → Runs s
        → Runs (register_tool at name description handler schema annotations s)
    resource_added :
        (at : Moment) (path description : String) (handler : H) (schema : Json) (s : ServerImpl H)
        → Runs s
        → Runs (add_resource template_ok at path description handler schema s)
    prompt_added :
        (at : Moment) (name description : String) (templates : List PromptTemplate)
        (s : ServerImpl H)
        → Runs s
        → Runs (add_prompt at name description templates s)
    message_handled :
        (moments : ℕ → Moment) (message : Message) (s : ServerImpl H)
        → Runs s
        → Runs (handle_message around answers moments message s).0
    roots_received :
        (response : Json) (s : ServerImpl H)
        → Runs s
        → Runs (handle_roots_list_response around.unescape response s)
    roots_given_up : (id : ℕ) (s : ServerImpl H) → Runs s → Runs (roots_list_timeout id s)

  register_tool-IsQuiet :
      (at : Moment) (name description : String) (handler : H) (schema : Json)
      (annotations : Option Json) (s : ServerImpl H)
      → IsQuiet s
      → IsQuiet (register_tool at name description handler schema annotations s)
  unfolding IsQuiet register_tool
  register_tool-IsQuiet at name description handler schema annotations s (e, all) =
      elim (Bool-cases (name == "")) [
        | inl h ↦ rw h (e, all)
        | inr h ↦ rw h (send_list_changed-IsQuiet at _ _ (e, all))
      ]

  add_resource-IsQuiet :
      (at : Moment) (path description : String) (handler : H) (schema : Json) (s : ServerImpl H)
      → IsQuiet s
      → IsQuiet (add_resource template_ok at path description handler schema s)
  unfolding IsQuiet add_resource
  add_resource-IsQuiet at path description handler schema s (e, all) =
      elim (Bool-cases (template_ok path)) [
        | inl h ↦ rw h (send_list_changed-IsQuiet at _ _ (e, all))
        | inr h ↦ rw h (e, all)
      ]

  add_prompt-IsQuiet :
      (at : Moment) (name description : String) (templates : List PromptTemplate) (s : ServerImpl H)
      → IsQuiet s
      → IsQuiet (add_prompt at name description templates s)
  unfolding IsQuiet add_prompt
  add_prompt-IsQuiet at name description [] s (e, all) = elim (Bool-cases (name == "")) [
    | inl h ↦ rw h (e, all)
    | inr h ↦ rw h (e, all)
  ]
  add_prompt-IsQuiet at name description (t ∷ ts) s (e, all) = elim (Bool-cases (name == "")) [
    | inl h ↦ rw h (e, all)
    | inr h ↦ rw h (send_list_changed-IsQuiet at _ _ (e, all))
  ]

  with_default_roots-IsQuiet :
      (id : Option String) (paths : Option (List String)) (s : ServerImpl H)
      → IsQuiet s
      → IsQuiet (with_default_roots id paths s)
  unfolding IsQuiet
  with_default_roots-IsQuiet none paths s quiet = quiet
  with_default_roots-IsQuiet (some id) none s quiet = quiet
  with_default_roots-IsQuiet (some id) (some paths) s quiet = quiet

  -- Whatever is registered and whatever the client sends, the initialized notification included, the
  -- server does not become initialized, and it sends no notification that a list changed: all that it
  -- gives to the transport on its own are requests.
  pub Runs-quiet : (s : ServerImpl H) → Runs s → (s.initialized ≡ false) × All IsRequest s.sent
  unfolding IsQuiet new_server_impl handle_roots_list_response roots_list_timeout
  Runs-quiet s (started at) = (refl, tt)
  Runs-quiet s (tool_added at name description handler schema annotations before runs) =
      register_tool-IsQuiet at name description handler schema annotations before
        (Runs-quiet before runs)
  Runs-quiet s (resource_added at path description handler schema before runs) =
      add_resource-IsQuiet at path description handler schema before (Runs-quiet before runs)
  Runs-quiet s (prompt_added at name description templates before runs) =
      add_prompt-IsQuiet at name description templates before (Runs-quiet before runs)
  Runs-quiet s (message_handled moments message before runs) =
      let (e, all) = Runs-quiet before runs in
      let (a, b, c) = handle_message-Keeps around answers moments message before in (a ∙ e, b all)
  Runs-quiet s (roots_received response before runs) =
      with_default_roots-IsQuiet before.default_session _ before (Runs-quiet before runs)
  Runs-quiet s (roots_given_up id before runs) = Runs-quiet before runs

  -- A tool that is registered before the client is initialized, which a run never ends, adds its
  -- notification to the queue and sends nothing.
  pub register_tool-queues :
      (at : Moment) (name description : String) (handler : H) (schema : Json)
      (annotations : Option Json) (s : ServerImpl H)
      → Runs s
      → name ≢ ""
      → ((register_tool at name description handler schema annotations s).sent ≡ s.sent)
        × ((register_tool at name description handler schema annotations
              s).capability_cache.pending_notifications
            ≡ s.capability_cache.pending_notifications
              ++ (notification "notifications/tools/list_changed" ∷ []))
  unfolding register_tool queue_notification mark_tools_changed
  register_tool-queues at name description handler schema annotations s runs named =
      let queued =
        send_list_changed-queues at _
          (record s {
            tools =
                insert name
                  (record {
                    name = name;
                    description = description;
                    handler = handler;
                    schema = schema;
                    annotations = annotations;
                  })
                  s.tools;
            capability_cache = mark_tools_changed s.capability_cache;
          })
          (Runs-quiet s runs).0 in
      elim (Bool-cases (name == "")) [
        | inl h ↦ absurd (named ((==_iff name "").0 h))
        | inr h ↦ rw h (
          ap (λ (t : ServerImpl H). t.sent) queued,
          ap (λ (t : ServerImpl H). t.capability_cache.pending_notifications) queued,
        )
      ]

  -- After a version was negotiated, no message changes it, and a request to initialize whose
  -- parameters decode is answered by an object with this version, whichever version the client asks
  -- for.
  pub handle_message-keeps_version :
      (s : ServerImpl H) (moments : ℕ → Moment) (message : Message) (at : Moment)
      (params : Option Json) (asked : String)
      → s.protocol_version ≢ ""
      → extract_protocol_version around params ≡ some asked
      → ((handle_message around answers moments message s).0.protocol_version ≡ s.protocol_version)
        × (answered_version (process_initialize around at params s).1
            ≡ some (string s.protocol_version))
        × ((process_initialize around at params s).0.protocol_version ≡ s.protocol_version)
  unfolding process_initialize accept_version object_of gomcp.Serving.Json.get
  handle_message-keeps_version s moments message at params asked h e =
      let valid = validate_protocol_version-enforced around s.protocol_version asked h in
      (
        (handle_message-Keeps around answers moments message s).2 h,
        rw (e, valid) refl,
        (after_extraction-Keeps around at params s (extract_protocol_version around params)).2 h,
      )
