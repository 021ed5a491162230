-- ===== src/Serving/Lists.antt =====
-- The pages of tools/list, resources/list, resources/templates/list and prompts/list (server/tool.go,
-- server/resource.go, server/prompt.go). `leb` is Go's `<=` on strings. The order of a map's entries is
-- the one in which the loop meets them, which Go chooses anew each time. "" is no cursor. The arguments
-- of a prompt are left out.
use gomcp.Prelude.{
  ℕ, ◌+◌, Bool, true, not, ◌&&◌, ◌||◌, leb, Option, none, some, List, [], ◌∷◌, map, String,
  string_key, ◌==◌, if◌then◌else◌, Dict,
}
use gomcp.Serving.Json.{Json, string, object, get}
use gomcp.Serving.Request.{params_of}
use gomcp.Serving.Handlers.{text_field}
use gomcp.Serving.State.{ServerImpl, Tool, Resource, Prompt}

abbrev pub max_page_size : ℕ
max_page_size = 50

module _ (le : String → String → Bool) where
  -- An entry that an earlier page may have had.
  unfoldable pub is_before : String → String → Bool
  is_before cursor name = not (cursor == "") && le name cursor

  -- The entries of a page that already has `i`, and the cursor of the next one.
  unfoldable pub page {ℓ} :
      {V : Type ℓ} → (V → Bool) → String → ℕ → Dict String V → Dict String V × String
  page keep cursor i [] = ([], "")
  page keep cursor i ((name, v) ∷ rest) =
      let skipping = page keep cursor i rest in
      let (entries, next) = page keep cursor (i + 1) rest in
      if not (keep v) || is_before cursor name
      then skipping
      else if leb max_page_size (i + 1)
      then ((name, v) ∷ [], name)
      else ((name, v) ∷ entries, next)

-- The cursor of a request; `none` for parameters that do not decode.
unfoldable pub cursor_of : Option Json → Option String
cursor_of none = some ""
cursor_of (some params) = text_field "cursor" (params_of (some params))

pub record ToolInfo : Type 0 where
  pub name : String
  pub description : String
  pub input_schema : Json
  pub annotations : Option Json

pub record ResourceInfo : Type 0 where
  pub uri : String
  pub name : String
  pub description : String
  pub mime_type : String

pub record PromptInfo : Type 0 where
  pub name : String
  pub description : String

abbrev mime_or_default : Option Json → String
mime_or_default (some (string mime)) = if mime == "" then "application/octet-stream" else mime
mime_or_default v = "application/octet-stream"

unfoldable pub mime_type_of : Json → String
mime_type_of (object m) = mime_or_default (get "mimeType" m)
mime_type_of v = "application/octet-stream"

abbrev listed {ℓ κ} :
    {V : Type ℓ} {I : Type κ}
    → (String × V → I)
    → (String → Dict String V × String)
    → Option String
    → Option (List I × String)
listed info paged none = none
listed info paged (some cursor) =
    let (entries, next) = paged cursor in some (map info entries, next)

module _ {H : Type 0} (le : String → String → Bool) where
  abbrev tool_info : String × Tool H → ToolInfo
  tool_info (name, tool) = record {
    name = tool.name;
    description = tool.description;
    input_schema = tool.schema;
    annotations = tool.annotations;
  }

  abbrev resource_info : String × Resource H → ResourceInfo
  resource_info (path, resource) = record {
    uri = resource.path;
    name = if path == "" then resource.path else path;
    description = resource.description;
    mime_type = mime_type_of resource.schema;
  }

  abbrev is_template_of : Resource H → Bool
  is_template_of resource = resource.is_template

  -- `none` is the error of parameters that do not decode.
  unfoldable pub process_tool_list : Option Json → ServerImpl H → Option (List ToolInfo × String)
  process_tool_list params s =
      listed tool_info (λ cursor. page le (λ tool. true) cursor 0 s.tools) (cursor_of params)

  unfoldable pub process_resource_list :
      Option Json → ServerImpl H → Option (List ResourceInfo × String)
  process_resource_list params s =
      listed resource_info
        (λ cursor. page le (λ resource. not (is_template_of resource)) cursor 0 s.resources)
        (cursor_of params)

  unfoldable pub process_resource_templates_list :
      Option Json → ServerImpl H → Option (List ResourceInfo × String)
  process_resource_templates_list params s =
      listed resource_info (λ cursor. page le is_template_of cursor 0 s.resources)
        (cursor_of params)

abbrev prompt_info : String × Prompt → PromptInfo
prompt_info (name, prompt) = record { name = prompt.name; description = prompt.description }

unfoldable pub process_prompt_list :
    {H : Type 0}
    → (String → String → Bool)
    → Option Json
    → ServerImpl H
    → Option (List PromptInfo × String)
process_prompt_list le params s =
    listed prompt_info (λ cursor. page le (λ prompt. true) cursor 0 s.prompts) (cursor_of params)
