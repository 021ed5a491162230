-- ===== src/Prelude/Dicts.antt =====
-- Go maps as association lists with distinct keys. A new key goes to the end; the order of the
-- list is the order in which a `range` loop meets the entries, which no theorem fixes.
use Prim.Native.Nat.{◌+◌, ◌≤◌}
use mathlib.Core.Path.{◌≡◌, refl}
use mathlib.Core.Option.{Option, none, some, some-injective}
use mathlib.Core.Logic.{◌≢◌, inl, inr}
use mathlib.Core.List.{List, [], ◌∷◌}
use native.Mathlib.Omega.{arith}
use gomcp.Prelude.Tests.{if◌then◌else◌, Bool-cases}
use gomcp.Prelude.Lists.{length, All}
use gomcp.Prelude.Keys.{Key, ◌==◌, ==_iff, ==_refl, nat_key}

abbrev pub Dict {ℓ κ} : Type ℓ → Type κ → Type (ℓ ⊔ κ)
Dict K V = List (K × V)

module _ {ℓ κ} {K : Type ℓ} {V : Type κ} ⦃key : Key K⦄ where
  unfoldable pub lookup : K → Dict K V → Option V
  lookup k [] = none
  lookup k ((j, v) ∷ rest) = if j == k then some v else lookup k rest

  unfoldable pub insert : K → V → Dict K V → Dict K V
  insert k v [] = (k, v) ∷ []
  insert k v ((j, w) ∷ rest) = if j == k then (j, v) ∷ rest else (j, w) ∷ insert k v rest

  unfoldable pub erase : K → Dict K V → Dict K V
  erase k [] = []
  erase k ((j, w) ∷ rest) = if j == k then erase k rest else (j, w) ∷ erase k rest

  abbrev pub HasDistinctKeys : Dict K V → Type κ
  HasDistinctKeys [] = Unit
  HasDistinctKeys ((k, v) ∷ rest) = (lookup k rest ≡ none) × HasDistinctKeys rest

  pub lookup-insert :
      (k j : K) (v : V) (rest : Dict K V)
      → lookup j (insert k v rest) ≡ (if k == j then some v else lookup j rest)
  unfolding lookup insert
  lookup-insert k j v [] = refl
  lookup-insert k j v ((i, w) ∷ rest) =
      ground (arith, ==_iff k j, ==_iff i k, ==_iff i j, lookup-insert k j v rest)

  pub lookup-erase :
      (k j : K) (rest : Dict K V)
      → lookup j (erase k rest) ≡ (if k == j then none else lookup j rest)
  unfolding lookup erase
  lookup-erase k j [] = ground arith
  lookup-erase k j ((i, w) ∷ rest) =
      ground (arith, ==_iff k j, ==_iff i k, ==_iff i j, lookup-erase k j rest)

  pub lookup-insert_self : (k : K) (v : V) (rest : Dict K V) → lookup k (insert k v rest) ≡ some v
  lookup-insert_self k v rest = ground (arith, lookup-insert k k v rest, ==_refl k)

  pub lookup-erase_self : (k : K) (rest : Dict K V) → lookup k (erase k rest) ≡ none
  lookup-erase_self k rest = ground (arith, lookup-erase k k rest, ==_refl k)

  pub lookup-insert_ne :
      (k j : K) (v : V) (rest : Dict K V) → k ≢ j → lookup j (insert k v rest) ≡ lookup j rest
  lookup-insert_ne k j v rest h = ground (arith, lookup-insert k j v rest, ==_iff k j)

  pub lookup-erase_ne :
      (k j : K) (rest : Dict K V) → k ≢ j → lookup j (erase k rest) ≡ lookup j rest
  lookup-erase_ne k j rest h = ground (arith, lookup-erase k j rest, ==_iff k j)

  pub erase-absent : (k : K) (rest : Dict K V) → lookup k rest ≡ none → erase k rest ≡ rest
  unfolding lookup erase
  erase-absent k [] h = refl
  erase-absent k ((j, w) ∷ rest) h = ground (arith, erase-absent k rest)

  pub insert-HasDistinctKeys :
      (k : K) (v : V) (rest : Dict K V) → HasDistinctKeys rest → HasDistinctKeys (insert k v rest)
  unfolding insert lookup
  insert-HasDistinctKeys k v [] d = (refl, d)
  insert-HasDistinctKeys k v ((j, w) ∷ rest) (fresh, d) =
      ground
        (arith, lookup-insert k j v rest, ==_iff j k, ==_iff k j, insert-HasDistinctKeys k v rest d)

  pub erase-HasDistinctKeys :
      (k : K) (rest : Dict K V) → HasDistinctKeys rest → HasDistinctKeys (erase k rest)
  unfolding erase
  erase-HasDistinctKeys k [] d = d
  erase-HasDistinctKeys k ((j, w) ∷ rest) (fresh, d) =
      ground (arith, lookup-erase k j rest, erase-HasDistinctKeys k rest d)

  pub length-insert_new :
      (k : K) (v : V) (rest : Dict K V)
      → lookup k rest ≡ none
      → length (insert k v rest) ≡ length rest + 1
  unfolding lookup insert
  length-insert_new k v [] h = omega arith
  length-insert_new k v ((j, w) ∷ rest) h = ground (arith, length-insert_new k v rest)

  pub length-insert_old :
      (k : K) (v w : V) (rest : Dict K V)
      → lookup k rest ≡ some w
      → length (insert k v rest) ≡ length rest
  unfolding lookup insert
  length-insert_old k v w [] h = cc
  length-insert_old k v w ((j, u) ∷ rest) h = ground (arith, length-insert_old k v w rest)

  pub length-erase-le : (k : K) (rest : Dict K V) → length (erase k rest) ≤ length rest
  unfolding erase
  length-erase-le k [] = omega arith
  length-erase-le k ((j, w) ∷ rest) = ground (arith, length-erase-le k rest)

  pub insert-All {μ} :
      (P : K × V → Type μ) (k : K) (v : V) (rest : Dict K V)
      → P (k, v)
      → All P rest
      → All P (insert k v rest)
  unfolding insert
  insert-All P k v [] p all = (p, tt)
  insert-All P k v ((j, w) ∷ rest) p (q, all) = elim (Bool-cases (j == k)) [
    | inl same ↦ rw same (rw ((==_iff j k).0 same) p, all)
    | inr other ↦ rw other (q, insert-All P k v rest p all)
  ]

  pub erase-All {μ} :
      (P : K × V → Type μ) (k : K) (rest : Dict K V) → All P rest → All P (erase k rest)
  unfolding erase
  erase-All P k [] all = tt
  erase-All P k ((j, w) ∷ rest) (q, all) = elim (Bool-cases (j == k)) [
    | inl same ↦ rw same (erase-All P k rest all)
    | inr other ↦ rw other (q, erase-All P k rest all)
  ]

  lookup-All-here {μ} :
      (P : K × V → Type μ) (j k : K) (w v : V) → j ≡ k → w ≡ v → P (j, w) → P (k, v)
  lookup-All-here P j k w v p q h = rw (← p, ← q) h

  pub lookup-All {μ} :
      (P : K × V → Type μ) (k : K) (v : V) (rest : Dict K V)
      → All P rest
      → lookup k rest ≡ some v
      → P (k, v)
  unfolding lookup
  lookup-All P k v [] all h = cc
  lookup-All P k v ((j, w) ∷ rest) (q, all) h = elim (Bool-cases (j == k)) [
    | inl same ↦
        lookup-All-here P j k w v ((==_iff j k).0 same) (some-injective w v (rw same at h)) q
    | inr other ↦ lookup-All P k v rest all (rw other at h)
  ]
