-- ===== src/Prelude/Pigeonhole.antt =====
-- A map with distinct keys below `n` has at most `n` entries, and with `n` entries it has them all.
use Prim.Native.Nat.{ℕ, zero, suc, ◌+◌, ◌≤◌, ◌<◌}
use mathlib.Core.Path.{◌≡◌, ◌∙◌}
use mathlib.Core.Option.{some}
use mathlib.Core.Logic.{inl, inr}
use mathlib.Core.List.{[], ◌∷◌}
use native.Mathlib.Omega.{arith}
use gomcp.Prelude.Tests.{Bool-cases, Option-cases, eqb, eqb_iff}
use gomcp.Prelude.Lists.{length, All}
use gomcp.Prelude.Keys.{nat_key}
use gomcp.Prelude.Dicts.{
  Dict, lookup, insert, erase, HasDistinctKeys, erase-HasDistinctKeys, insert-HasDistinctKeys,
  length-insert_new, insert-All, lookup-erase_ne, length-erase-le, erase-absent,
}

module _ {ℓ} {V : Type ℓ} where
  abbrev pub KeysBelow : ℕ → Dict ℕ V → Type 0
  KeysBelow n = All (λ e. e.0 < n)

  -- Without the key `n` the keys below `n + 1` are below `n`.
  erase-KeysBelow : (n : ℕ) (m : Dict ℕ V) → KeysBelow (suc n) m → KeysBelow n (erase n m)
  unfolding erase
  erase-KeysBelow n [] b = tt
  erase-KeysBelow n ((j, v) ∷ m) (h, b) = elim (Bool-cases (eqb j n)) [
    | inl same ↦ rw same (erase-KeysBelow n m b)
    | inr other ↦ rw other (ground (arith, eqb_iff j n), erase-KeysBelow n m b)
  ]

  pub length-erase_distinct :
      (k : ℕ) (m : Dict ℕ V) → HasDistinctKeys m → length m ≤ length (erase k m) + 1
  unfolding erase
  length-erase_distinct k [] d = omega arith
  length-erase_distinct k ((j, v) ∷ m) (fresh, d) =
      ground (arith, length-erase_distinct k m d, erase-absent k m, eqb_iff j k)

  pub length-le-keys : (n : ℕ) (m : Dict ℕ V) → HasDistinctKeys m → KeysBelow n m → length m ≤ n
  length-le-keys zero [] d b = omega arith
  length-le-keys zero ((j, v) ∷ m) d b = absurd (omega arith)
  length-le-keys (suc n) m d b = omega (
    arith,
    length-erase_distinct n m d,
    length-le-keys n (erase n m) (erase-HasDistinctKeys n m d) (erase-KeysBelow n m b),
  )

  -- A full map has every key.
  pub lookup_of_full :
      (n : ℕ) (m : Dict ℕ V) (i : ℕ)
      → HasDistinctKeys m
      → KeysBelow n m
      → length m ≡ n
      → i < n
      → (v : V) × (lookup i m ≡ some v)
  lookup_of_full n [] i d b e h = absurd (omega arith)
  lookup_of_full n ((j, v) ∷ m) i d b e h = elim (Option-cases (lookup i ((j, v) ∷ m))) [
    | inr found ↦ found
    | inl missing ↦ absurd (
        omega (
          arith,
          length-insert_new i v ((j, v) ∷ m) missing,
          length-le-keys n (insert i v ((j, v) ∷ m)) (insert-HasDistinctKeys i v ((j, v) ∷ m) d)
              (insert-All (λ e'. e'.0 < n) i v ((j, v) ∷ m) h b),
        ))
  ]

  pub length-erase_present :
      (k : ℕ) (w : V) (m : Dict ℕ V) → lookup k m ≡ some w → length (erase k m) + 1 ≤ length m
  unfolding lookup erase
  length-erase_present k w [] e = cc
  length-erase_present k w ((j, v) ∷ m) e = elim (Bool-cases (eqb j k)) [
    | inl same ↦ rw same (omega (arith, length-erase-le k m))
    | inr other ↦ rw other (omega (arith, length-erase_present k w m (rw other at e)))
  ]

  -- A map that has every key below `n` has at least `n` entries.
  pub keys-le-length :
      (n : ℕ) (m : Dict ℕ V) → ((i : ℕ) → i < n → (v : V) × (lookup i m ≡ some v)) → n ≤ length m
  keys-le-length zero m h = omega arith
  keys-le-length (suc n) m h = omega (
    arith,
    length-erase_present n (h n (omega arith)).0 m (h n (omega arith)).1,
    keys-le-length n (erase n m) (λ i b.
        let found = h i (omega arith) in
        (found.0, lookup-erase_ne n i m (λ e. omega (arith, e)) ∙ found.1)),
  )
