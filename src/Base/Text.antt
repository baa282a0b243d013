-- ===== src/Base/Text.antt =====
-- Strings, as the lists of their characters, and their equality.
use key_value_distributed_sy.Base.{
  ℕ, ◌≡◌, refl, ap, Bool, true, false, List, [], ◌∷◌, ◌==◌, if◌then◌else◌, arith, Bool-cases, inl,
  inr, ==_iff,
}

abbrev pub Text : Type 0
Text = List ℕ

-- `==` on strings.
unfoldable pub same_text : Text → Text → Bool
same_text [] [] = true
same_text [] (y ∷ ys) = false
same_text (x ∷ xs) [] = false
same_text (x ∷ xs) (y ∷ ys) = let rest = same_text xs ys in if x == y then rest else false

pub same_text_sound : (s t : Text) → same_text s t ≡ true → s ≡ t
unfolding same_text
same_text_sound [] [] e = refl
same_text_sound [] (y ∷ ys) e = cc
same_text_sound (x ∷ xs) [] e = cc
same_text_sound (x ∷ xs) (y ∷ ys) e = elim (Bool-cases (x == y)) [
  | inl t ↦ cc ((==_iff x y).0 t, same_text_sound xs ys (ground (arith, e, t)))
  | inr t ↦ ground (arith, e, t)
]

pub same_text_refl : (s : Text) → same_text s s ≡ true
unfolding same_text
same_text_refl [] = refl
same_text_refl (x ∷ xs) = ground (arith, same_text_refl xs)

pub same_text_flip : (s t : Text) → same_text s t ≡ false → same_text t s ≡ false
same_text_flip s t e = elim (Bool-cases (same_text t s)) [
  | inr f ↦ f
  | inl f ↦ let q = same_text_sound t s f in cc (e, same_text_refl s, ap (same_text s) q)
]
