-- ===== src/Versions/Normalization.antt =====
-- `NormalizeVersion` (mcp/version.go) calls itself; the model unfolds one such call.
use gomcp.Prelude.{
  ℕ, ◌≡◌, ◌≢◌, ◌⊎◌, ◌||◌, map, refl, ap, sym, ◌∙◌, ◌==◌, Bool-cases, inl, inr, [], ◌∷◌, eqb,
  eqb_iff, if◌then◌else◌,
}
use gomcp.Versions.{
  Text, text_key, runes, normalize_trimmed, normalize_body, normalize_version, trim_prefix,
  latest_stable, version_20250326,
}

-- A text is a plain one behind the prefix "v", or it has no such prefix and is plain itself.
abbrev pub IsPlainOf : Text → Text → Type 0
IsPlainOf text plain =
    (text ≡ b'v' ∷ plain) ⊎ ((text ≡ plain) × ((rest : Text) → plain ≢ b'v' ∷ rest))

-- The normal form of a plain text in lower case: a name of the newest version, or the text.
abbrev pub normal_form : Text → Text
normal_form plain =
    if plain == runes "latest" || (plain == runes "current" || plain == runes "stable")
    then version_20250326
    else plain

unprefixed : (plain : Text) → ((rest : Text) → plain ≢ b'v' ∷ rest) → trim_prefix plain ≡ plain
unfolding trim_prefix
unprefixed [] h = refl
unprefixed (c ∷ cs) h = elim (Bool-cases (eqb c b'v')) [
  | inl e ↦ absurd (h cs (ap (λ (d : ℕ). d ∷ cs) ((eqb_iff c b'v').0 e)))
  | inr e ↦ rw e refl
]

trim_prefix-plain : (text plain : Text) → IsPlainOf text plain → trim_prefix text ≡ plain
unfolding trim_prefix
trim_prefix-plain text plain (inl e) = ap trim_prefix e
trim_prefix-plain text plain (inr (e, h)) = ap trim_prefix e ∙ unprefixed plain h

normalize_trimmed-normal :
    (again : Text → Text) (plain : Text)
    → again version_20250326 ≡ version_20250326
    → normalize_trimmed again plain ≡ normal_form plain
unfolding normalize_trimmed latest_stable
normalize_trimmed-normal again plain h = elim (Bool-cases (plain == runes "latest")) [
  | inl e ↦ rw e h
  | inr e ↦ elim (Bool-cases (plain == runes "current")) [
    | inl f ↦ rw (e, f) h
    | inr f ↦ elim (Bool-cases (plain == runes "stable")) [
      | inl g ↦ rw (e, f, g) h
      | inr g ↦ rw (e, f, g) refl
    ]
  ]
]

module _ (lower : ℕ → ℕ) where
  -- A date is its own normal form, whatever the inner call does.
  normalize_body-date :
      (again : Text → Text)
      → map lower version_20250326 ≡ version_20250326
      → normalize_body lower again version_20250326 ≡ version_20250326
  unfolding normalize_body normalize_trimmed trim_prefix latest_stable
  normalize_body-date again h = ap (λ (t : Text). normalize_trimmed again (trim_prefix t)) h

  normalize_body-agrees :
      (f g : Text → Text) (version : Text)
      → f version_20250326 ≡ g version_20250326
      → normalize_body lower f version ≡ normalize_body lower g version
  unfolding normalize_body normalize_trimmed latest_stable
  normalize_body-agrees f g version e = agrees (trim_prefix (map lower version))
    where
      agrees : (v : Text) → normalize_trimmed f v ≡ normalize_trimmed g v
      agrees v = elim (Bool-cases (v == runes "latest" || v == runes "current")) [
        | inl newest ↦ rw newest e
        | inr other ↦ elim (Bool-cases (v == runes "stable")) [
          | inl stable ↦ rw (other, stable) e
          | inr plain ↦ rw (other, plain) refl
        ]
      ]

  -- If the standard library's lower case keeps digits and hyphens as they are, the normal form of a
  -- version is that of its text in lower case without one prefix "v": the newest stable version for
  -- "latest", "current" and "stable", and this text itself for all others; and the model satisfies the
  -- recursive equation of the source.
  pub normalize_version-normal :
      (version plain : Text)
      → map lower version_20250326 ≡ version_20250326
      → IsPlainOf (map lower version) plain
      → (normalize_version lower version ≡ normal_form plain)
        × (normalize_version lower version ≡ normalize_body lower (normalize_version lower) version)
  unfolding normalize_version normalize_body
  normalize_version-normal version plain h is_plain = (
    ap (normalize_trimmed (normalize_body lower (λ v. v)))
          (trim_prefix-plain (map lower version) plain is_plain)
        ∙ normalize_trimmed-normal (normalize_body lower (λ v. v)) plain
            (normalize_body-date (λ v. v) h),
    normalize_body-agrees (normalize_body lower (λ v. v)) (normalize_version lower) version (
        normalize_body-date (λ v. v) h
        ∙ sym (normalize_body-date (normalize_body lower (λ v. v)) h)),
  )
