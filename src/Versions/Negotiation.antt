-- ===== src/Versions/Negotiation.antt =====
-- What negotiation and compatibility answer.
use gomcp.Prelude.{
  ℕ, ◌≡◌, Bool, true, false, ◌||◌, Option, none, some, List, [], ◌∷◌, ◌++◌, refl, if◌then◌else◌,
  Dict, insert, ◌==◌, ==_iff, Result, ok, err, arith, Bool-cases, inl, inr, ◌⊎◌, ◌↔◌, All, sym, ◌∙◌,
  ap,
}
use gomcp.Versions.{
  Text, text_key, VersionDetector, VersionError, unsupported_version, no_common_version,
  normalize_version, find_supported, or_unsupported, validate_version, normalized_versions, is_key,
  common_versions, negotiate_version, first_common, is_draft_pair, is_version_compatible,
  latest_stable, supported_versions,
}

module _ (lower : ℕ → ℕ) where
  -- Some version of the list has this normal form.
  abbrev pub HasForm : Text → List Text → Type 0
  HasForm n [] = ⊥
  HasForm n (v ∷ vs) = (normalize_version lower v ≡ n) ⊎ HasForm n vs

  is_key-insert :
      (n k v : Text) (m : Dict Text Text)
      → is_key lower n (insert k v m) ≡ (n == k || is_key lower n m)
  unfolding is_key insert
  is_key-insert n k v [] = ground arith
  is_key-insert n k v ((j, w) ∷ m) =
      ground (arith, ==_iff j k, ==_iff n k, ==_iff n j, is_key-insert n k v m)

  no_key : (n : Text) → is_key lower n [] ≡ true → ⊥
  unfolding is_key
  no_key n h = cc

  key_or : (n k : Text) (b : Bool) → ((n == k || b) ≡ true) ↔ ((k ≡ n) ⊎ (b ≡ true))
  key_or n k b = elim (Bool-cases (n == k)) [
    | inl same ↦ (λ h. inl (sym ((==_iff n k).0 same)), λ h. rw same refl)
    | inr other ↦ (
      λ h. inr (rw other at h),
      λ h. rw other (elim h [ inl e ↦ (let f = (==_iff n k).1 (sym e) in cc) | inr e ↦ e ]),
    )
  ]

  -- The map of normal forms has the forms of the versions, and those that it had.
  is_key-normalized :
      (n : Text) (vs : List Text) (m : Dict Text Text)
      → (is_key lower n (normalized_versions lower vs m) ≡ true)
        ↔ (HasForm n vs ⊎ (is_key lower n m ≡ true))
  unfolding normalized_versions
  is_key-normalized n [] m = ((λ h. inr h), λ h. elim h [ inl e ↦ absurd e | inr e ↦ e ])
  is_key-normalized n (v ∷ vs) m =
      let k = normalize_version lower v in
      let ih = is_key-normalized n vs (insert k v m) in
      let step = key_or n k (is_key lower n m) in
      let same = is_key-insert n k v m in
      (
        λ h. elim (ih.0 h) [
          | inl f ↦ inl (inr f)
          | inr e ↦ elim (step.0 (sym same ∙ e)) [ inl f ↦ inl (inl f) | inr g ↦ inr g ]
        ],
        λ h. ih.1 (elim h [
          | inl (inl f) ↦ inr (same ∙ step.1 (inl f))
          | inl (inr f) ↦ inl f
          | inr g ↦ inr (same ∙ step.1 (inr g))
        ]),
      )

  -- No version of the list has the form of this one.
  abbrev pub IsUnknownTo : List Text → Text → Type 0
  IsUnknownTo servers w = HasForm (normalize_version lower w) servers → ⊥

  -- The answer for these versions: the first of the client's that some version of the server
  -- matches in normal form, or an error when there is none.
  abbrev pub AnswersFirst : List Text → List Text → Result VersionError Text → Type 0
  AnswersFirst clients servers result =
      ((v : Text) × (before : List Text) × (after : List Text) × (clients ≡ before ++ v ∷ after)
        × All (IsUnknownTo servers) before
        × HasForm (normalize_version lower v) servers
        × (result ≡ ok v))
      ⊎ (All (IsUnknownTo servers) clients × (result ≡ err no_common_version))

  common-AnswersFirst :
      (clients servers : List Text)
      → AnswersFirst clients servers (
          first_common lower (common_versions lower (normalized_versions lower servers []) clients))
  unfolding common_versions
  common-AnswersFirst [] servers = inr (tt, refl)
  common-AnswersFirst (w ∷ clients) servers =
      let m = normalized_versions lower servers [] in
      elim (Bool-cases (is_key lower (normalize_version lower w) m)) [
        | inl known ↦ inl (w, [], clients, refl, tt, has_form w known, rw known refl)
        | inr unknown ↦ elim (common-AnswersFirst clients servers) [
          | inl (v, before, after, e, none_before, form, result) ↦ inl (
            v,
            w ∷ before,
            after,
            ap (◌∷◌ w) e,
            (has_no_form w unknown, none_before),
            form,
            rw unknown result,
          )
          | inr (none_known, result) ↦ inr ((has_no_form w unknown, none_known), rw unknown result)
        ]
      ]
    where
      has_form :
          (x : Text)
          → is_key lower (normalize_version lower x) (normalized_versions lower servers []) ≡ true
          → HasForm (normalize_version lower x) servers
      has_form x known = elim ((is_key-normalized (normalize_version lower x) servers []).0 known) [
        | inl f ↦ f
        | inr e ↦ absurd (no_key (normalize_version lower x) e)
      ]

      has_no_form :
          (x : Text)
          → is_key lower (normalize_version lower x) (normalized_versions lower servers []) ≡ false
          → IsUnknownTo servers x
      has_no_form x unknown f =
          let known = (is_key-normalized (normalize_version lower x) servers []).1 (inl f) in cc

  -- Negotiation answers the first version of the client whose normal form is that of some version
  -- of the server, in the client's spelling, or an error when no version has one. Both sides give
  -- at least one version.
  pub negotiate-AnswersFirst :
      (c s : Text) (clients servers : List Text)
      → AnswersFirst
          (c ∷ clients)
          (s ∷ servers)
          (negotiate_version lower (c ∷ clients) (s ∷ servers))
  unfolding negotiate_version
  negotiate-AnswersFirst c s clients servers = common-AnswersFirst (c ∷ clients) (s ∷ servers)

  draft_pair-swap :
      (a b : Text) (stable : Option Text)
      → (if a == b
          then true
          else elim stable as (λ _. Bool) [ none ↦ false | some v ↦ is_draft_pair lower a b v ])
        ≡ (if b == a
            then true
            else elim stable as (λ _. Bool) [ none ↦ false | some v ↦ is_draft_pair lower b a v ])
  draft_pair-swap a b none = ground (arith, ==_iff a b, ==_iff b a)
  draft_pair-swap a b (some v) = ground (arith, ==_iff a b, ==_iff b a)

  -- Compatibility does not depend on the order of the two versions, and every version is
  -- compatible with every spelling of itself.
  pub is_version_compatible-symmetric :
      (v1 v2 : Text)
      → (is_version_compatible lower v1 v2 ≡ is_version_compatible lower v2 v1)
        × (normalize_version lower v1 ≡ normalize_version lower v2
            → is_version_compatible lower v1 v2 ≡ true)
  unfolding is_version_compatible
  is_version_compatible-symmetric v1 v2 = (
    draft_pair-swap (normalize_version lower v1) (normalize_version lower v2)
        (latest_stable supported_versions),
    λ e. rw ((==_iff (normalize_version lower v1) (normalize_version lower v2)).1 e) refl,
  )

  find_supported-cases :
      (n : Text) (vs : List Text)
      → ((v : Text) × (before : List Text) × (after : List Text) × (vs ≡ before ++ v ∷ after)
          × (normalize_version lower v ≡ n)
          × (find_supported lower n vs ≡ some v))
        ⊎ ((HasForm n vs → ⊥) × (find_supported lower n vs ≡ none))
  unfolding find_supported
  find_supported-cases n [] = inr ((λ f. f), refl)
  find_supported-cases n (v ∷ vs) = elim (Bool-cases (normalize_version lower v == n)) [
    | inl same ↦ inl (v, [], vs, refl, (==_iff (normalize_version lower v) n).0 same, rw same refl)
    | inr other ↦ elim (find_supported-cases n vs) [
      | inl (u, before, after, e, form, found) ↦
          inl (u, v ∷ before, after, ap (◌∷◌ v) e, form, rw other found)
      | inr (unknown, missing) ↦ inr (
        (λ f. elim f [
          | inl e ↦ (let g = (==_iff (normalize_version lower v) n).1 e in cc)
          | inr f ↦ unknown f
        ]),
        rw other missing,
      )
    ]
  ]

  -- The answer is the supported version `v` of the same normal form, or an error.
  abbrev pub ValidatesTo : VersionDetector → Text → Type 0
  ValidatesTo d version =
      ((v : Text) × (before : List Text) × (after : List Text) × (d.supported ≡ before ++ v ∷ after)
        × (normalize_version lower v ≡ normalize_version lower version)
        × (validate_version lower d version ≡ ok v))
      ⊎ ((HasForm (normalize_version lower version) d.supported → ⊥)
          × (validate_version lower d version ≡ err unsupported_version))

  -- A version is validated to a supported one of the same normal form, in the detector's spelling,
  -- and refused exactly when there is none.
  pub validate_version-cases : (d : VersionDetector) (version : Text) → ValidatesTo d version
  unfolding validate_version
  validate_version-cases d version =
      elim (find_supported-cases (normalize_version lower version) d.supported) [
        | inl (v, before, after, e, form, found) ↦
            inl (v, before, after, e, form, ap (or_unsupported lower) found)
        | inr (unknown, missing) ↦ inr (unknown, ap (or_unsupported lower) missing)
      ]
