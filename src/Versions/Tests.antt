-- ===== src/Versions/Tests.antt =====
-- The properties of versions at concrete inputs.
use gomcp.Prelude.{ℕ, ◌≡◌, ◌+◌, true, ◌&&◌, leb, if◌then◌else◌, [], ◌∷◌, refl, inl}
use gomcp.Versions.{
  Text, runes, normalize_body, normalize_version, is_version_compatible, version_draft,
  version_20250326, version_20241105, validate_version, new_version_detector, trim_prefix,
  negotiate_version,
}
use gomcp.Versions.Negotiation.{negotiate-AnswersFirst, AnswersFirst}
use gomcp.Versions.Normalization.{normalize_version-normal}

abbrev lower_ascii : ℕ → ℕ
lower_ascii c = if leb b'A' c && leb c b'Z' then c + 32 else c

negotiate-AnswersFirst_example :
    AnswersFirst lower_ascii
      (runes "2023-01-01" ∷ runes "v2024-11-05" ∷ [])
      (version_20241105 ∷ [])
      (negotiate_version lower_ascii
        (runes "2023-01-01" ∷ runes "v2024-11-05" ∷ [])
        (version_20241105 ∷ []))
negotiate-AnswersFirst_example =
    negotiate-AnswersFirst lower_ascii (runes "2023-01-01") version_20241105
      (runes "v2024-11-05" ∷ []) []

normalize_version-normal_example :
    (normalize_version lower_ascii (runes "vStable") ≡ version_20250326)
    × (normalize_version lower_ascii (runes "vStable")
        ≡ normalize_body lower_ascii (normalize_version lower_ascii) (runes "vStable"))
normalize_version-normal_example =
    normalize_version-normal lower_ascii (runes "vStable") (runes "stable") refl (inl refl)

draft_is_compatible : is_version_compatible lower_ascii version_draft version_20250326 ≡ true
unfolding is_version_compatible normalize_version normalize_body gomcp.Versions.normalize_trimmed
    trim_prefix gomcp.Versions.latest_stable
draft_is_compatible = refl
