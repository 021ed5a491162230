-- ===== src/Serving/Registry.antt =====
-- Registering tools, resources and prompts, and telling the client of it (server/tool.go,
-- server/resource.go, server/prompt.go, server/server.go). A registration starts a goroutine that
-- sends its notification once the server's lock is free; here it runs at once.
use gomcp.Prelude.{
  Bool, true, false, Option, none, some, List, [], ◌∷◌, String, insert, string_key, ◌==◌,
  if◌then◌else◌, ◌&&◌,
}
use text.Mathlib.Text.{find?}
use gomcp.Serving.Json.{Json}
use gomcp.Serving.Cache.{
  mark_tools_changed, mark_resources_changed, mark_prompts_changed, queue_notification,
  get_pending_notifications, reset_change_flags,
}
use gomcp.Serving.State.{
  ServerImpl, Tool, Resource, Prompt, PromptTemplate, Outgoing, notification, Moment,
  transport_send,
}

-- `strings.Contains`
unfoldable pub contains : String → String → Bool
contains s part = elim (find? s part) [ none ↦ false | some at ↦ true ]

abbrev pub is_empty : List PromptTemplate → Bool
is_empty [] = true
is_empty (t ∷ ts) = false

module _ {H : Type 0} where
  -- The flag says whether the client is initialized.
  abbrev pub announce : Bool → Moment → Outgoing → ServerImpl H → ServerImpl H
  announce true at message s = if s.has_transport then transport_send at message s else s
  announce false at message s = record s {
    capability_cache = queue_notification message s.capability_cache;
  }

  -- The three functions send one of three notifications, and are otherwise the same.
  unfoldable pub send_list_changed : Moment → Outgoing → ServerImpl H → ServerImpl H
  send_list_changed at message s = announce s.initialized at message s

  abbrev pub send_tools_list_changed_notification : Moment → ServerImpl H → ServerImpl H
  send_tools_list_changed_notification at =
      send_list_changed at (notification "notifications/tools/list_changed")

  abbrev pub send_resources_list_changed_notification : Moment → ServerImpl H → ServerImpl H
  send_resources_list_changed_notification at =
      send_list_changed at (notification "notifications/resources/list_changed")

  abbrev pub send_prompts_list_changed_notification : Moment → ServerImpl H → ServerImpl H
  send_prompts_list_changed_notification at =
      send_list_changed at (notification "notifications/prompts/list_changed")

  unfoldable pub register_tool :
      Moment → String → String → H → Json → Option Json → ServerImpl H → ServerImpl H
  register_tool at name description handler schema annotations s =
      if name == ""
      then s
      else let tool : Tool H = record {
        name = name;
        description = description;
        handler = handler;
        schema = schema;
        annotations = annotations;
      } in
        send_tools_list_changed_notification at (record s {
          tools = insert name tool s.tools;
          capability_cache = mark_tools_changed s.capability_cache;
        })

  -- A handler that passed its validation, with the schema found for it; `template_ok` says whether
  -- the URI template of the path parses.
  unfoldable pub add_resource :
      (String → Bool) → Moment → String → String → H → Json → ServerImpl H → ServerImpl H
  add_resource template_ok at path description handler schema s =
      if template_ok path
      then (let resource : Resource H = record {
        path = path;
        description = description;
        handler = handler;
        schema = schema;
        is_template = contains path "{" && contains path "}";
      } in
          send_resources_list_changed_notification at (record s {
            resources = insert path resource s.resources;
            capability_cache = mark_resources_changed s.capability_cache;
          }))
      else s

  unfoldable pub add_prompt :
      Moment → String → String → List PromptTemplate → ServerImpl H → ServerImpl H
  add_prompt at name description templates s =
      if name == ""
      then s
      else if is_empty templates
      then s
      else let prompt : Prompt = record {
        name = name;
        description = description;
        templates = templates;
      } in
        send_prompts_list_changed_notification at (record s {
          prompts = insert name prompt s.prompts;
          capability_cache = mark_prompts_changed s.capability_cache;
        })

  unfoldable pub send_queued : Moment → List Outgoing → ServerImpl H → ServerImpl H
  send_queued at [] s = s
  send_queued at (message ∷ rest) s =
      send_queued at rest (if s.has_transport then transport_send at message s else s)

  -- Up to the fetch of the roots, which `Serving.Roots` adds.
  unfoldable pub initialized_notification : Moment → ServerImpl H → ServerImpl H
  initialized_notification at s =
      let (cache, waiting) = get_pending_notifications s.capability_cache in
      send_queued at waiting
        (record s { initialized = true; capability_cache = reset_change_flags cache })
