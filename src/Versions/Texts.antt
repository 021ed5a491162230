-- ===== src/Versions/Texts.antt =====
-- Texts as lists of code points, with the equality of Go's strings.
use Prim.Native.Char.{code}
use gomcp.Prelude.{
  ℕ, ◌≡◌, Bool, true, false, ◌&&◌, String, List, [], ◌∷◌, eqb, eqb_iff, Key, ◌↔◌, refl, arith,
  subst, Bool-cases, inl, inr,
}

abbrev pub Text : Type 0
Text = List ℕ

abbrev pub runes : String → Text
runes String.[] = []
runes (String.◌∷◌ c s) = code c ∷ runes s

abbrev pub same_runes : Text → Text → Bool
same_runes [] [] = true
same_runes [] (y ∷ ys) = false
same_runes (x ∷ xs) [] = false
same_runes (x ∷ xs) (y ∷ ys) = eqb x y && same_runes xs ys

same_runes_refl : (xs : Text) → same_runes xs xs ≡ true
same_runes_refl [] = refl
same_runes_refl (x ∷ xs) = ground (arith, eqb_iff x x, same_runes_refl xs)

same_runes_sound : (xs ys : Text) → same_runes xs ys ≡ true → xs ≡ ys
same_runes_sound [] [] h = refl
same_runes_sound [] (y ∷ ys) h = cc
same_runes_sound (x ∷ xs) [] h = cc
same_runes_sound (x ∷ xs) (y ∷ ys) h = elim (Bool-cases (eqb x y)) [
  | inl same ↦ let e = (eqb_iff x y).0 same in let f = same_runes_sound xs ys (rw same at h) in cc
  | inr other ↦ let f : false ≡ true = rw other at h in cc
]

pub same_runes_iff : (xs ys : Text) → (same_runes xs ys ≡ true) ↔ (xs ≡ ys)
same_runes_iff xs ys =
    (same_runes_sound xs ys, λ e. subst (λ zs. same_runes xs zs ≡ true) e (same_runes_refl xs))

instance abbrev pub text_key : Key Text
text_key = record { same = same_runes; decides = same_runes_iff }
