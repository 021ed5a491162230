-- ===== src/Prelude/Keys.antt =====
-- Keys that are compared by a Boolean test: the `==` of Go on integers and strings.
use Prim.Native.Nat.{ℕ}
use Prim.Native.String.{String}
use mathlib.Core.Path.{◌≡◌, refl}
use mathlib.Core.Bool.{Bool, true}
use mathlib.Core.Logic.{◌↔◌}
use text.Mathlib.Text.{◌==◌ as same_text}
use text.Mathlib.TextEquality.{eq_iff as same_text_iff}
use gomcp.Prelude.Tests.{eqb, eqb_iff}

-- A type of keys: the test, and that it decides equality.
pub record Key {ℓ} (K : Type ℓ) : Type ℓ where
  pub same : K → K → Bool
  pub decides : (k j : K) → (same k j ≡ true) ↔ (k ≡ j)

instance abbrev pub string_key : Key String
string_key = record { same = same_text; decides = same_text_iff }

instance abbrev pub nat_key : Key ℕ
nat_key = record { same = eqb; decides = eqb_iff }

module _ {ℓ} {K : Type ℓ} ⦃key : Key K⦄ where
  infix 50 ◌==◌
  abbrev pub ◌==◌ : K → K → Bool
  k == j = key.same k j

  pub ==_iff : (k j : K) → ((k == j) ≡ true) ↔ (k ≡ j)
  ==_iff k j = key.decides k j

  pub ==_refl : (k : K) → (k == k) ≡ true
  ==_refl k = (key.decides k k).1 refl
