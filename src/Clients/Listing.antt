-- ===== src/Clients/Listing.antt =====
-- The client's lists (ListTools, ListResources and ListPrompts of client/client.go): requests for one
-- page after the other, until a page has no cursor. `request` is the server's answer to a cursor, `none`
-- where the request fails or its answer does not decode. The loop has no bound of its own; here it has
-- `rounds`, and ends as `unfinished` where they are not enough.
use gomcp.Prelude.{
  ℕ, zero, suc, ◌+◌, ◌<◌, ◌≡◌, refl, sym, ap, ◌∙◌, Bool, true, false, inl, inr, Bool-cases, arith,
  Option, none, some, List, [], ◌∷◌, ◌++◌, append_assoc, append-nil, String, string_key, ◌==◌,
  if◌then◌else◌, Dict, length, length-append, not, ◌||◌, leb,
}
use gomcp.Serving.Lists.{page, is_before, max_page_size}
use gomcp.Serving.Paging.{IsSorted, remaining, page-remaining}

pub data Listing {ℓ} (A : Type ℓ) : Type ℓ where
  complete_list : List A → Listing A
  request_failed : Listing A
  unfinished : Listing A

module _ {ℓ} {A : Type ℓ} where
  abbrev pub next_page :
      List A → (List A → String → Listing A) → Option (List A × String) → Listing A
  next_page gathered next none = request_failed
  next_page gathered next (some (items, cursor)) =
      if cursor == "" then complete_list (gathered ++ items) else next (gathered ++ items) cursor

  unfoldable pub list_from : ℕ → (String → Option (List A × String)) → List A → String → Listing A
  list_from zero request gathered cursor = unfinished
  list_from (suc rounds) request gathered cursor =
      next_page gathered (list_from rounds request) (request cursor)

  -- A server that answers every cursor with another cursor is asked without end.
  pub list_from-endless :
      (rounds : ℕ) (request : String → Option (List A × String)) (gathered : List A)
      (cursor : String)
      → ((c : String)
          → (items : List A) × (n : String) × (request c ≡ some (items, n)) × ((n == "") ≡ false))
      → list_from rounds request gathered cursor ≡ unfinished
  unfolding list_from
  list_from-endless zero request gathered cursor h = refl
  list_from-endless (suc rounds) request gathered cursor h =
      let (items, n, e, f) = h cursor in
      rw (e, f) (list_from-endless rounds request (gathered ++ items) n h)

module _ {ℓ} {V : Type ℓ} (le : String → String → Bool) (keep : V → Bool)
    (total : (a b : String) → le a b ≡ false → le b a ≡ true)
    (trans : (a b c : String) → le a b ≡ true → le b c ≡ true → le a c ≡ true)
    (entries : Dict String V) where
  -- A page with a next cursor has an entry.
  page-nonempty :
      (cursor : String) (i : ℕ) (rest : Dict String V)
      → ((page le keep cursor i rest).1 == "") ≡ false
      → 0 < length (page le keep cursor i rest).0
  unfolding page
  page-nonempty cursor i [] h = let e : true ≡ false = h in cc
  page-nonempty cursor i ((name, v) ∷ rest) h =
      elim (Bool-cases (not (keep v) || is_before le cursor name)) [
        | inl e ↦ rw e (page-nonempty cursor i rest (rw e at h))
        | inr e ↦ elim (Bool-cases (leb max_page_size (i + 1))) [
          | inl f ↦ rw (e, f) (omega arith)
          | inr f ↦ rw (e, f) (omega arith)
        ]
      ]

  abbrev pub answer : String → Option (Dict String V × String)
  answer cursor = some (page le keep cursor 0 entries)

  list_from-remaining :
      (rounds : ℕ) (gathered : Dict String V) (cursor : String)
      → IsSorted le keep entries
      → length (remaining le keep cursor entries) < rounds
      → list_from rounds answer gathered cursor
        ≡ complete_list (gathered ++ remaining le keep cursor entries)
  unfolding list_from
  list_from-remaining zero gathered cursor sorted h = absurd (omega arith)
  list_from-remaining (suc rounds) gathered cursor sorted h =
      let p = page le keep cursor 0 entries in
      let covers = page-remaining le keep total trans cursor 0 entries sorted in
      elim (Bool-cases (p.1 == "")) [
        | inl e ↦ rw e (
            ap complete_list (
              ap (◌++◌ gathered) (
                sym (
                  covers
                  ∙ ap (λ (b : Bool). p.0 ++ (if b then [] else remaining le keep p.1 entries)) e
                  ∙ append-nil p.0))))
        | inr e ↦
            let split : remaining le keep cursor entries ≡ p.0 ++ remaining le keep p.1 entries =
              covers
              ∙ ap (λ (b : Bool). p.0 ++ (if b then [] else remaining le keep p.1 entries)) e in
            let shorter : length (remaining le keep p.1 entries) < rounds = omega (
              arith,
              ap length split,
              length-append p.0 (remaining le keep p.1 entries),
              page-nonempty cursor 0 entries e,
            ) in
            rw e (
              list_from-remaining rounds (gathered ++ p.0) p.1 sorted shorter
              ∙ ap complete_list (
                  append_assoc gathered p.0 (remaining le keep p.1 entries)
                  ∙ ap (◌++◌ gathered) (sym split)))
      ]

  -- Against a server that meets its map in increasing order of the names, the client's loop ends: one
  -- request more than there are entries is enough for it to return every entry to be listed, in order
  -- and once.
  pub list_from-answer :
      IsSorted le keep entries
      → list_from (length (remaining le keep "" entries) + 1) answer [] ""
        ≡ complete_list (remaining le keep "" entries)
  list_from-answer sorted = list_from-remaining _ [] "" sorted (omega arith)
