-- ===== src/Linearizability/Models/Keys.antt =====
-- The partition of a history by key.
use key_value_distributed_sy.Base.{
  ◌≡◌, refl, ap, subst, false, List, [], ◌∷◌, ◌++◌, if◌then◌else◌, arith, All, Bool-cases, inl, inr,
}
use key_value_distributed_sy.Base.Text.{Text, same_text, same_text_sound, same_text_refl}
use key_value_distributed_sy.Linearizability.Model.{EqualIsSound}
use key_value_distributed_sy.Linearizability.Models.{kv_model, Groups, push_group, values}

-- States of the model that compare equal are equal.
pub kv_model-EqualIsSound : EqualIsSound kv_model
kv_model-EqualIsSound = same_text_sound

module _ {A : Type 0} where
  -- What a map has at a key; a key that is not in it has nothing.
  abbrev pub group_at : Text → Groups A → List A
  group_at k [] = []
  group_at k (g ∷ gs) = let rest = group_at k gs in if same_text k g.0 then g.1 else rest

  abbrev IsAbsent : Text → Groups A → Type 0
  IsAbsent k = All (λ g. same_text g.0 k ≡ false)

  -- The keys of a map differ.
  abbrev pub IsDistinct : Groups A → Type 0
  IsDistinct [] = Unit
  IsDistinct (g ∷ gs) = IsAbsent g.0 gs × IsDistinct gs

  pub group_at-push_other :
      (k key : Text) (a : A) (gs : Groups A)
      → same_text k key ≡ false
      → group_at k (push_group key a gs) ≡ group_at k gs
  unfolding push_group
  group_at-push_other k key a [] e = rw e refl
  group_at-push_other k key a (g ∷ gs) e = elim (Bool-cases (same_text key g.0)) [
    | inl t ↦ let q = same_text_sound key g.0 t in ground (arith, t, e, ap (same_text k) q)
    | inr t ↦ ground (arith, t, e, group_at-push_other k key a gs e)
  ]

  pub group_at-push :
      (key : Text) (a : A) (gs : Groups A)
      → group_at key (push_group key a gs) ≡ group_at key gs ++ a ∷ []
  unfolding push_group
  group_at-push key a [] = rw (same_text_refl key) refl
  group_at-push key a (g ∷ gs) = elim (Bool-cases (same_text key g.0)) [
    | inl t ↦ ground (arith, t)
    | inr t ↦ ground (arith, t, group_at-push key a gs)
  ]

  IsAbsent-push :
      (k key : Text) (a : A) (gs : Groups A)
      → same_text key k ≡ false
      → IsAbsent k gs
      → IsAbsent k (push_group key a gs)
  unfolding push_group
  IsAbsent-push k key a [] e w = (e, tt)
  IsAbsent-push k key a (g ∷ gs) e w = elim (Bool-cases (same_text key g.0)) [
    | inl t ↦ rw t w
    | inr t ↦ rw t (w.0, IsAbsent-push k key a gs e w.1)
  ]

  pub IsDistinct-push :
      (key : Text) (a : A) (gs : Groups A) → IsDistinct gs → IsDistinct (push_group key a gs)
  unfolding push_group
  IsDistinct-push key a [] w = (tt, tt)
  IsDistinct-push key a (g ∷ gs) w = elim (Bool-cases (same_text key g.0)) [
    | inl t ↦ rw t w
    | inr t ↦ rw t (IsAbsent-push g.0 key a gs t w.0, IsDistinct-push key a gs w.1)
  ]

  -- What holds of each key of a map holds of its values.
  pub values-All :
      (P : Text → List A → Type 0) (gs : Groups A)
      → IsDistinct gs
      → ((k : Text) → P k (group_at k gs))
      → All (λ g. P g.0 g.1) gs
  values-All P [] w p = tt
  values-All P (g ∷ gs) w p =
      let here : group_at g.0 (g ∷ gs) ≡ g.1 = rw (same_text_refl g.0) refl in
      let rest =
        values-All (λ k xs. same_text k g.0 ≡ false → P k xs) gs w.1
          (λ k e.
            let skip : group_at k (g ∷ gs) ≡ group_at k gs = rw e refl in subst (P k) skip (p k)) in
      (subst (P g.0) here (p g.0), both g.0 gs rest w.0)
    where
      both :
          (k : Text) (hs : Groups A)
          → All (λ h. same_text h.0 k ≡ false → P h.0 h.1) hs
          → IsAbsent k hs
          → All (λ h. P h.0 h.1) hs
      both k [] a b = tt
      both k (h ∷ hs) a b = (a.0 b.0, both k hs a.1 b.1)

  pub at-All :
      (P : List A → Type 0) (gs : Groups A) (k : Text)
      → P []
      → All P (values gs)
      → P (group_at k gs)
  at-All P [] k p a = p
  at-All P (g ∷ gs) k p a = elim (Bool-cases (same_text k g.0)) [
    | inl t ↦ rw t a.0
    | inr t ↦ rw t (at-All P gs k p a.1)
  ]
