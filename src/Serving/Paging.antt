-- ===== src/Serving/Paging.antt =====
-- What the pages of a list cover (server/tool.go, server/resource.go, server/prompt.go).
use gomcp.Prelude.{
  ℕ, ◌+◌, ◌≤◌, ◌≡◌, refl, sym, ap, ◌∙◌, Bool, true, false, not, ◌||◌, leb, inl, inr, Bool-cases,
  subst, arith, [], ◌∷◌, ◌++◌, String, string_key, ◌==◌, if◌then◌else◌, Dict, length, All,
}
use gomcp.Serving.Lists.{max_page_size, is_before, page}

module _ {ℓ} {V : Type ℓ} (le : String → String → Bool) (keep : V → Bool) where
  -- The entries to list that come after the cursor.
  unfoldable pub remaining : String → Dict String V → Dict String V
  remaining cursor [] = []
  remaining cursor ((name, v) ∷ rest) =
      if not (keep v) || is_before le cursor name
      then remaining cursor rest
      else (name, v) ∷ remaining cursor rest

  -- A page has at most 50 entries, all of them after its cursor and to be listed.
  abbrev pub IsListed : String → String × V → Type 0
  IsListed cursor (name, v) = (keep v ≡ true) × (is_before le cursor name ≡ false)

  pub page-IsListed :
      (cursor : String) (i : ℕ) (entries : Dict String V)
      → All (IsListed cursor) (page le keep cursor i entries).0
  unfolding page
  page-IsListed cursor i [] = tt
  page-IsListed cursor i ((name, v) ∷ rest) =
      ground (arith, page-IsListed cursor i rest, page-IsListed cursor (i + 1) rest)

  pub length-page :
      (cursor : String) (i : ℕ) (entries : Dict String V)
      → i + 1 ≤ max_page_size
      → length (page le keep cursor i entries).0 + i ≤ max_page_size
  unfolding page
  length-page cursor i [] h = omega arith
  length-page cursor i ((name, v) ∷ rest) h =
      ground (arith, length-page cursor i rest, length-page cursor (i + 1) rest)

  -- Names that stand in increasing order, none of them empty.
  abbrev pub IsSorted : Dict String V → Type 0
  IsSorted [] = Unit
  IsSorted ((name, v) ∷ rest) =
      ((name == "") ≡ false) × All (λ e. le e.0 name ≡ false) rest × IsSorted rest

  -- What is left after a next cursor; an empty one ends the list.
  abbrev pub after : String → Dict String V → Dict String V
  after next entries = if next == "" then [] else remaining next entries

  module _ (total : (a b : String) → le a b ≡ false → le b a ≡ true)
      (trans : (a b c : String) → le a b ≡ true → le b c ≡ true → le a c ≡ true) where
    reflexive : (a : String) → le a a ≡ true
    reflexive a = elim (Bool-cases (le a a)) [ inl h ↦ h | inr h ↦ total a a h ]

    -- The next cursor is a name of the entries, or there is none.
    next-All :
        (P : String → Type 0) (cursor : String) (i : ℕ) (entries : Dict String V)
        → All (λ e. P e.0) entries
        → P ""
        → P (page le keep cursor i entries).1
    unfolding page
    next-All P cursor i [] all h = h
    next-All P cursor i ((name, v) ∷ rest) (g, all) h =
        elim (Bool-cases (not (keep v) || is_before le cursor name)) [
          | inl e ↦ rw e (next-All P cursor i rest all h)
          | inr e ↦ elim (Bool-cases (leb max_page_size (i + 1))) [
            | inl f ↦ rw (e, f) g
            | inr f ↦ rw (e, f) (next-All P cursor (i + 1) rest all h)
          ]
        ]

    above :
        (name : String) (rest : Dict String V)
        → All (λ e. le e.0 name ≡ false) rest
        → All (λ e. ((e.0 == "") || le name e.0) ≡ true) rest
    above name [] all = tt
    above name ((n, v) ∷ rest) (h, all) =
        (let t = total n name h in ground arith, above name rest all)

    after-skips :
        (name : String) (v : V) (rest : Dict String V) (next : String)
        → ((next == "") || le name next) ≡ true
        → after next ((name, v) ∷ rest) ≡ after next rest
    unfolding remaining is_before
    after-skips name v rest next h = ground arith

    next-above :
        (name cursor : String) (i : ℕ) (rest : Dict String V)
        → All (λ e. le e.0 name ≡ false) rest
        → (((page le keep cursor i rest).1 == "") || le name (page le keep cursor i rest).1) ≡ true
    next-above name cursor i rest all =
        next-All (λ n. ((n == "") || le name n) ≡ true) cursor i rest (above name rest all) refl

    -- Beyond a name after the cursor, both leave the same entries.
    remaining-later :
        (cursor name : String) (rest : Dict String V)
        → (name == "") ≡ false
        → is_before le cursor name ≡ false
        → All (λ e. le e.0 name ≡ false) rest
        → remaining cursor rest ≡ remaining name rest
    unfolding remaining is_before
    remaining-later cursor name [] nonempty h all = refl
    remaining-later cursor name ((n, v) ∷ rest) nonempty h (g, all) =
        let ih = remaining-later cursor name rest nonempty h all in
        let t = total n name g in let u = trans name n cursor t in ground (arith, ih)

    page-skip :
        (cursor : String) (i : ℕ) (name : String) (v : V) (rest : Dict String V)
        → (not (keep v) || is_before le cursor name) ≡ true
        → page le keep cursor i ((name, v) ∷ rest) ≡ page le keep cursor i rest
    unfolding page
    page-skip cursor i name v rest e = rw e refl

    page-last :
        (cursor : String) (i : ℕ) (name : String) (v : V) (rest : Dict String V)
        → (not (keep v) || is_before le cursor name) ≡ false
        → leb max_page_size (i + 1) ≡ true
        → page le keep cursor i ((name, v) ∷ rest) ≡ ((name, v) ∷ [], name)
    unfolding page
    page-last cursor i name v rest e f = rw (e, f) refl

    page-more :
        (cursor : String) (i : ℕ) (name : String) (v : V) (rest : Dict String V)
        → (not (keep v) || is_before le cursor name) ≡ false
        → leb max_page_size (i + 1) ≡ false
        → page le keep cursor i ((name, v) ∷ rest)
          ≡ ((name, v) ∷ (page le keep cursor (i + 1) rest).0, (page le keep cursor (i + 1) rest).1)
    unfolding page
    page-more cursor i name v rest e f = rw (e, f) refl

    Covers : String → Dict String V → Dict String V × String → Type ℓ
    Covers cursor entries (listed, next) = remaining cursor entries ≡ listed ++ after next entries

    remaining-keeps :
        (cursor name : String) (v : V) (rest : Dict String V)
        → (not (keep v) || is_before le cursor name) ≡ false
        → remaining cursor ((name, v) ∷ rest) ≡ (name, v) ∷ remaining cursor rest
    unfolding remaining
    remaining-keeps cursor name v rest e = rw e refl

    remaining-skips :
        (cursor name : String) (v : V) (rest : Dict String V)
        → (not (keep v) || is_before le cursor name) ≡ true
        → remaining cursor ((name, v) ∷ rest) ≡ remaining cursor rest
    unfolding remaining
    remaining-skips cursor name v rest e = rw e refl

    -- The last entry of a full page.
    after-last :
        (cursor name : String) (v : V) (rest : Dict String V)
        → (name == "") ≡ false
        → is_before le cursor name ≡ false
        → All (λ e. le e.0 name ≡ false) rest
        → remaining cursor rest ≡ after name ((name, v) ∷ rest)
    unfolding remaining is_before
    after-last cursor name v rest nonempty h all =
        let later = remaining-later cursor name rest nonempty h all in
        let r = reflexive name in ground (arith, later)

    not_before :
        (cursor name : String) (v : V)
        → (not (keep v) || is_before le cursor name) ≡ false
        → is_before le cursor name ≡ false
    not_before cursor name v h = ground arith

    -- Of names in increasing order, the page of a cursor and what is left after its next cursor are
    -- together what is left after the cursor, in order and without repetition or omission.
    pub page-remaining :
        (cursor : String) (i : ℕ) (entries : Dict String V)
        → IsSorted entries
        → remaining cursor entries
          ≡ (page le keep cursor i entries).0 ++ after (page le keep cursor i entries).1 entries
    unfolding page Covers remaining
    page-remaining cursor i [] sorted = refl
    page-remaining cursor i ((name, v) ∷ rest) (nonempty, all, sorted) =
        elim (Bool-cases (not (keep v) || is_before le cursor name)) [
          | inl e ↦
              subst (Covers cursor ((name, v) ∷ rest)) (sym (page-skip cursor i name v rest e)) (
                remaining-skips cursor name v rest e
                ∙ page-remaining cursor i rest sorted
                ∙ ap (◌++◌ (page le keep cursor i rest).0) (
                    sym (
                      after-skips name v rest (page le keep cursor i rest).1
                        (next-above name cursor i rest all))))
          | inr e ↦ elim (Bool-cases (leb max_page_size (i + 1))) [
            | inl f ↦
                subst (Covers cursor ((name, v) ∷ rest)) (sym (page-last cursor i name v rest e f))
                  (remaining-keeps cursor name v rest e
                    ∙ ap (◌∷◌ (name, v))
                        (after-last cursor name v rest nonempty (not_before cursor name v e) all))
            | inr f ↦
                subst (Covers cursor ((name, v) ∷ rest)) (sym (page-more cursor i name v rest e f))
                  (remaining-keeps cursor name v rest e
                    ∙ ap (◌∷◌ (name, v)) (
                        page-remaining cursor (i + 1) rest sorted
                        ∙ ap (◌++◌ (page le keep cursor (i + 1) rest).0) (
                            sym (
                              after-skips name v rest (page le keep cursor (i + 1) rest).1
                                (next-above name cursor (i + 1) rest all)))))
          ]
        ]
