-- ===== src/Serving/Missing.antt =====
-- What the lists miss when the map is not met in the order of its names (server/tool.go,
-- server/resource.go, server/prompt.go).
use gomcp.Prelude.{
  ℕ, ◌+◌, ◌≤◌, ◌≡◌, ◌⊎◌, refl, sym, ◌∙◌, Bool, true, false, not, ◌||◌, leb, inl, inr, Bool-cases,
  arith, [], ◌∷◌, ◌++◌, List, none, String, string_key, ◌==◌, if◌then◌else◌, Dict, lookup, length,
  All, ==_iff,
}
use gomcp.Serving.Lists.{max_page_size, is_before, page}
use gomcp.Serving.Paging.{IsListed, page-IsListed, length-page}

module _ {ℓ} {V : Type ℓ} (le : String → String → Bool) (keep : V → Bool) where
  -- The pages that a client gets which asks for a cursor and then follows the next cursors; the map is
  -- met in another order for each.
  unfoldable pub follow : String → List (Dict String V) → List (Dict String V)
  follow cursor [] = []
  follow cursor (order ∷ orders) =
      let rest = follow (page le keep cursor 0 order).1 orders in
      (page le keep cursor 0 order).0 ∷ (if (page le keep cursor 0 order).1 == "" then [] else rest)

  -- With less than a page before it, an entry that fills the page is its last one and its cursor.
  page-fills :
      (i : ℕ) (before rest : Dict String V) (name : String) (v : V)
      → All (λ e. keep e.1 ≡ true) before
      → keep v ≡ true
      → length before + i + 1 ≡ max_page_size
      → page le keep "" i (before ++ (name, v) ∷ rest) ≡ (before ++ (name, v) ∷ [], name)
  unfolding page is_before
  page-fills i [] rest name v all kept full = ground arith
  page-fills i ((n, w) ∷ before) rest name v (k, all) kept full =
      let ih = page-fills (i + 1) before rest name v all kept (omega arith) in ground (arith, ih)

  absent :
      (cursor missed : String) (entries : Dict String V)
      → (cursor == "") ≡ false
      → le missed cursor ≡ true
      → All (IsListed le keep cursor) entries
      → lookup missed entries ≡ none
  unfolding lookup is_before
  absent cursor missed [] h g all = refl
  absent cursor missed ((n, v) ∷ rest) h g ((kept, f), all) =
      let ih = absent cursor missed rest h g all in
      elim (Bool-cases (n == missed)) [
        | inl e ↦ let q : le n cursor ≡ true = rw ((==_iff n missed).0 e) g in absurd (ground arith)
        | inr e ↦ rw e ih
      ]

  -- The next cursor is empty or comes after the cursor.
  next-after :
      (cursor : String) (i : ℕ) (entries : Dict String V)
      → (((page le keep cursor i entries).1 == "") ≡ true)
        ⊎ (is_before le cursor (page le keep cursor i entries).1 ≡ false)
  unfolding page
  next-after cursor i [] = inl refl
  next-after cursor i ((name, v) ∷ rest) =
      elim (Bool-cases (not (keep v) || is_before le cursor name)) [
        | inl e ↦ rw e (next-after cursor i rest)
        | inr e ↦ elim (Bool-cases (leb max_page_size (i + 1))) [
          | inl f ↦ inr (rw (e, f) (let g = e in ground arith))
          | inr f ↦ rw (e, f) (next-after cursor (i + 1) rest)
        ]
      ]

  -- A page of at most 50 entries, without the name.
  abbrev pub Omits : String → Dict String V → Type ℓ
  Omits missed entries = (length entries ≤ max_page_size) × (lookup missed entries ≡ none)

  page-bound :
      (cursor : String) (entries : Dict String V)
      → length (page le keep cursor 0 entries).0 ≤ max_page_size
  page-bound cursor entries =
      let h = length-page le keep cursor 0 entries (omega arith) in omega arith

  module _ (total : (a b : String) → le a b ≡ false → le b a ≡ true)
      (trans : (a b c : String) → le a b ≡ true → le b c ≡ true → le a c ≡ true) where
    follow-Omits :
        (cursor missed : String) (orders : List (Dict String V))
        → (cursor == "") ≡ false
        → le missed cursor ≡ true
        → All (Omits missed) (follow cursor orders)
    unfolding follow is_before
    follow-Omits cursor missed [] h g = tt
    follow-Omits cursor missed (order ∷ orders) h g = (
      (
        page-bound cursor order,
        absent cursor missed (page le keep cursor 0 order).0 h g
            (page-IsListed le keep cursor 0 order),
      ),
      elim (Bool-cases ((page le keep cursor 0 order).1 == "")) [
        | inl e ↦ rw e tt
        | inr e ↦
            let next = (page le keep cursor 0 order).1 in
            let later : le next cursor ≡ false = elim (next-after cursor 0 order) [
              | inl f ↦ let k : true ≡ false = sym f ∙ e in cc
              | inr f ↦ ground arith
            ] in
            rw e (
              follow-Omits next missed orders e
                (trans missed cursor next g (total next cursor later)))
      ],
    )

    -- If the loop of the first page meets 50 entries to be listed before an entry whose name is at
    -- most that of the fiftieth, then neither this page, which has exactly the 50, nor any page that
    -- the client gets by following the next cursors lists that entry, in whatever orders the map is
    -- met for them; and no page has more than 50 entries.
    pub follow-misses :
        (before rest : Dict String V) (name : String) (v : V) (missed : String)
        (orders : List (Dict String V))
        → All (λ e. keep e.1 ≡ true) before
        → keep v ≡ true
        → length before + 1 ≡ max_page_size
        → (name == "") ≡ false
        → le missed name ≡ true
        → lookup missed (before ++ (name, v) ∷ []) ≡ none
        → (page le keep "" 0 (before ++ (name, v) ∷ rest) ≡ (before ++ (name, v) ∷ [], name))
          × All (Omits missed) (follow "" ((before ++ (name, v) ∷ rest) ∷ orders))
    unfolding follow
    follow-misses before rest name v missed orders all kept full named least unlisted =
        let filled = page-fills 0 before rest name v all kept (omega arith) in
        (
          filled,
          (
            (page-bound "" (before ++ (name, v) ∷ rest), rw filled unlisted),
            rw (filled, named) (follow-Omits name missed orders named least),
          ),
        )
