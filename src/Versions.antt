-- ===== src/Versions.antt =====
-- Protocol versions (mcp/version.go). A text is the list of its code points. Decoding a message is
-- the standard library's: `detect_version` takes the version that it finds.
use Prim.Native.Char.{code}
use gomcp.Prelude.{
  ℕ, ◌≡◌, Bool, true, false, not, ◌&&◌, ◌||◌, String, Option, none, some, List, [], ◌∷◌, ◌++◌, map,
  eqb, if◌then◌else◌, Dict, lookup, insert, Key, ◌==◌, Result, ok, err,
}
pub mod Texts
pub mod Negotiation
pub mod Normalization
pub mod Tests
pub use Texts.{Text, runes, text_key}

abbrev pub version_draft : Text
version_draft = runes "draft"

abbrev pub version_20241105 : Text
version_20241105 = runes "2024-11-05"

abbrev pub version_20250326 : Text
version_20250326 = runes "2025-03-26"

abbrev pub supported_versions : List Text
supported_versions = version_20250326 ∷ version_draft ∷ version_20241105 ∷ []

pub record VersionDetector : Type 0 where
  pub default_version : Text
  pub supported : List Text

abbrev pub new_version_detector : VersionDetector
new_version_detector = record { default_version = version_20250326; supported = supported_versions }

pub data VersionError : Type 0 where
  parse_failed unsupported_version no_client_versions : VersionError
  no_server_versions no_common_version no_adapter : VersionError

-- `strings.TrimPrefix(version, "v")`
unfoldable pub trim_prefix : Text → Text
trim_prefix [] = []
trim_prefix (c ∷ cs) = if eqb c b'v' then cs else c ∷ cs

-- The first version that is not the draft; `none` if all are.
unfoldable pub latest_stable : List Text → Option Text
latest_stable [] = none
latest_stable (v ∷ vs) = if v == version_draft then latest_stable vs else some v

-- The special names, after lower case and the prefix; `again` is the call of `NormalizeVersion`.
-- The test for a date leads to the same answer as its failure.
unfoldable pub normalize_trimmed : (Text → Text) → Text → Text
normalize_trimmed again v =
    if v == runes "latest" || v == runes "current"
    then again version_20250326
    else if v == runes "stable"
    then elim (latest_stable supported_versions) [
      | some stable ↦ again stable
      | none ↦ again version_20250326
    ]
    else v

-- `lower` is the standard library's lower case of one code point.
module _ (lower : ℕ → ℕ) where
  -- The body of `NormalizeVersion`, with its own call as an argument.
  unfoldable pub normalize_body : (Text → Text) → Text → Text
  normalize_body again version = normalize_trimmed again (trim_prefix (map lower version))

  -- The calls inside the body are on dates, where it makes no further call.
  unfoldable pub normalize_version : Text → Text
  normalize_version version = normalize_body (normalize_body (λ v. v)) version

  unfoldable pub find_supported : Text → List Text → Option Text
  find_supported normalized [] = none
  find_supported normalized (v ∷ vs) =
      if normalize_version v == normalized then some v else find_supported normalized vs

  abbrev pub or_unsupported : Option Text → Result VersionError Text
  or_unsupported (some v) = ok v
  or_unsupported none = err unsupported_version

  unfoldable pub validate_version : VersionDetector → Text → Result VersionError Text
  validate_version d version =
      or_unsupported (find_supported (normalize_version version) d.supported)

  -- `none` is a message that does not parse, and no version in it the empty text.
  unfoldable pub detect_version : VersionDetector → Option Text → Result VersionError Text
  detect_version d none = err parse_failed
  detect_version d (some []) = ok d.default_version
  detect_version d (some (c ∷ cs)) = validate_version d (c ∷ cs)

  -- The map from normal forms to versions.
  unfoldable pub normalized_versions : List Text → Dict Text Text → Dict Text Text
  normalized_versions [] m = m
  normalized_versions (v ∷ vs) m = normalized_versions vs (insert (normalize_version v) v m)

  -- The inner loop over the keys of the map, up to its `break`.
  unfoldable pub is_key : Text → Dict Text Text → Bool
  is_key normalized [] = false
  is_key normalized ((k, v) ∷ m) = if normalized == k then true else is_key normalized m

  unfoldable pub common_versions : Dict Text Text → List Text → List Text
  common_versions m [] = []
  common_versions m (v ∷ vs) =
      if is_key (normalize_version v) m then v ∷ common_versions m vs else common_versions m vs

  abbrev pub first_common : List Text → Result VersionError Text
  first_common [] = err no_common_version
  first_common (v ∷ vs) = ok v

  unfoldable pub negotiate_version : List Text → List Text → Result VersionError Text
  negotiate_version [] server = err no_client_versions
  negotiate_version (c ∷ cs) [] = err no_server_versions
  negotiate_version (c ∷ cs) (v ∷ vs) =
      first_common (common_versions (normalized_versions (v ∷ vs) []) (c ∷ cs))

  -- Draft against the latest stable version, in either order.
  abbrev pub is_draft_pair : Text → Text → Text → Bool
  is_draft_pair nv1 nv2 stable =
      nv1 == normalize_version version_draft && nv2 == normalize_version stable
      || nv2 == normalize_version version_draft && nv1 == normalize_version stable

  unfoldable pub is_version_compatible : Text → Text → Bool
  is_version_compatible v1 v2 =
      if normalize_version v1 == normalize_version v2
      then true
      else elim (latest_stable supported_versions) [
        | none ↦ false
        | some stable ↦ is_draft_pair (normalize_version v1) (normalize_version v2) stable
      ]

  -- The adapter holds the two versions.
  unfoldable pub get_version_adapter : Text → Text → Result VersionError (Text × Text)
  get_version_adapter from_version to_version =
      if not (is_version_compatible from_version to_version)
      then err no_adapter
      else ok (from_version, to_version)

  unfoldable pub compatible_with : Text → List Text → List Text
  compatible_with v1 [] = []
  compatible_with v1 (v2 ∷ vs) =
      if is_version_compatible v1 v2 then v2 ∷ compatible_with v1 vs else compatible_with v1 vs

  unfoldable pub matrix_rows : List Text → Dict Text (List Text) → Dict Text (List Text)
  matrix_rows [] matrix = matrix
  matrix_rows (v1 ∷ vs) matrix =
      matrix_rows vs (insert v1 (compatible_with v1 supported_versions) matrix)

  unfoldable pub get_compatibility_matrix : Dict Text (List Text)
  get_compatibility_matrix = matrix_rows supported_versions []
