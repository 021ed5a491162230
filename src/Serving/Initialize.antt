-- ===== src/Serving/Initialize.antt =====
-- The request initialize (ProcessInitialize, server/server.go; server/protocol.go): the protocol
-- version, the client's roots and the new session. The detector of versions is a record of its two
-- uses; the answer's capabilities are objects of flags.
use gomcp.Prelude.{
  Bool, true, false, not, Option, none, some, List, [], ◌∷◌, ◌++◌, String, string_key, ◌==◌,
  if◌then◌else◌,
}
use gomcp.Requests.Sessions.{create_session, detect_client_capabilities}
use gomcp.Serving.Json.{
  Json, null, boolean, string, array, object, Items, end, item, Fields, empty, field, get,
  object_of,
}
use gomcp.Serving.State.{ServerImpl, ClientInfo, Moment}
use gomcp.Serving.Roots.{uri_to_path, add_roots}

-- What other code gives to the handler: the detector of versions (`none` for its error), Go's `%v`
-- of a decoded value that is not a string, `url.PathUnescape` and `filepath.Clean`.
pub record ServerSurroundings : Type 0 where
  pub fallback_version : String
  pub validated_version : String → Option String
  pub show : Json → String
  pub unescape : String → Option String
  pub clean : String → String

abbrev version_text : ServerSurroundings → Option Json → Option String
version_text around none = some ""
version_text around (some null) = some ""
version_text around (some (string v)) = some v
version_text around (some v) = some (around.show v)

abbrev version_field : ServerSurroundings → Option Fields → Option String
version_field around none = none
version_field around (some m) = version_text around (get "protocolVersion" m)

-- `none` is the error. A null version is empty in the struct, which decodes.
unfoldable pub extract_protocol_version : ServerSurroundings → Option Json → Option String
extract_protocol_version around none = some ""
extract_protocol_version around (some params) = version_field around (object_of params)

unfoldable pub validate_protocol_version : ServerSurroundings → String → String → Option String
validate_protocol_version around enforced client_version =
    if not (enforced == "")
    then some enforced
    else if client_version == ""
    then some around.fallback_version
    else around.validated_version client_version

abbrev member_object : String → Option Json → Option Fields
member_object k (some (object m)) = elim (get k m) [ some (object inner) ↦ some inner | _ ↦ none ]
member_object k v = none

-- The value of a key of an object that a chain of keys led to.
abbrev pub get_in : String → Option Fields → Option Json
get_in k none = none
get_in k (some m) = get k m

abbrev is_yes : Option Json → Bool
is_yes (some (boolean b)) = b
is_yes v = false

abbrev client_roots_flag : Option Fields → Bool
client_roots_flag none = false
client_roots_flag (some capabilities) =
    is_yes (get_in "listChanged" (member_object "roots" (some (object capabilities))))

unfoldable pub client_supports_roots : Option Json → Bool
client_supports_roots params = client_roots_flag (member_object "capabilities" params)

-- The path of a root of the initial list; what is not an object with a `uri` that is a string and
-- gives a path is skipped.
abbrev path_or_nothing : String → List String
path_or_nothing path = if path == "" then [] else path ∷ []

abbrev initial_root : ServerSurroundings → Option Json → List String
initial_root around (some (string uri)) = path_or_nothing (uri_to_path around.unescape uri)
initial_root around v = []

abbrev initial_entry : ServerSurroundings → Json → List String
initial_entry around (object m) = initial_root around (get "uri" m)
initial_entry around v = []

abbrev initial_items : ServerSurroundings → Items → List String
initial_items around end = []
initial_items around (item v rest) = initial_entry around v ++ initial_items around rest

abbrev initial_list : ServerSurroundings → Option Json → List String
initial_list around (some (array vs)) = initial_items around vs
initial_list around v = []

unfoldable pub initial_roots : ServerSurroundings → Option Json → List String
initial_roots around params =
    initial_list around (get_in "roots" (member_object "clientInfo" params))

abbrev when : Bool → String → Fields → Fields → Fields
when true k flags rest = field k (object flags) rest
when false k flags rest = rest

abbrev is_nonempty {ℓ} : {A : Type ℓ} → List A → Bool
is_nonempty [] = false
is_nonempty (x ∷ xs) = true

abbrev list_changed : Fields
list_changed = field "listChanged" (boolean true) empty

module _ {H : Type 0} where
  unfoldable pub capabilities : ServerImpl H → Fields
  capabilities s = field "logging" (object empty) (
      when (is_nonempty s.prompts) "prompts" list_changed (
        when (is_nonempty s.resources) "resources" (field "subscribe" (boolean true) list_changed)
          (when (is_nonempty s.tools) "tools" list_changed empty)))

  -- What the handler does with a version that it accepted. The server's name is left out.
  unfoldable pub accept_version :
      ServerSurroundings → Moment → Option Json → ServerImpl H → String → ServerImpl H × Json
  accept_version around at params s version =
      let paths = initial_roots around params in
      let rooted = add_roots around.clean paths (record s { protocol_version = version }) in
      let info : ClientInfo = record {
        sampling_supported = (detect_client_capabilities version).supported;
        sampling_caps = detect_client_capabilities version;
        protocol_version = version;
        roots = paths;
      } in
      let (manager, session) =
        create_session rooted.session_manager at.now at.seconds info version in
      (
        record rooted {
          needs_root_fetch = if client_supports_roots params then true else s.needs_root_fetch;
          session_manager = manager;
          default_session = some session.id;
        },
        object (
            field "protocolVersion" (string version)
              (field "capabilities" (object (capabilities s)) empty)),
      )

  abbrev pub after_validation :
      ServerSurroundings
      → Moment
      → Option Json
      → ServerImpl H
      → Option String
      → ServerImpl H × Option Json
  after_validation around at params s none = (s, none)
  after_validation around at params s (some version) =
      let (after, answer) = accept_version around at params s version in (after, some answer)

  abbrev pub after_extraction :
      ServerSurroundings
      → Moment
      → Option Json
      → ServerImpl H
      → Option String
      → ServerImpl H × Option Json
  after_extraction around at params s none = (s, none)
  after_extraction around at params s (some client_version) =
      after_validation around at params s
        (validate_protocol_version around s.protocol_version client_version)

  -- `none` is an error, which leaves the server as it was.
  unfoldable pub process_initialize :
      ServerSurroundings → Moment → Option Json → ServerImpl H → ServerImpl H × Option Json
  process_initialize around at params s =
      after_extraction around at params s (extract_protocol_version around params)
