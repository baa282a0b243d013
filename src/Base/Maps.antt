-- ===== src/Base/Maps.antt =====
-- A map as a list of pairs, for `BTreeMap` and `HashMap`. The order of the pairs is the order of first
-- insertion.
use key_value_distributed_sy.Base.{
  ◌≡◌, refl, ap, Bool, true, false, Option, none, some, List, [], ◌∷◌, if◌then◌else◌, arith, All,
  ◌==◌, ==_iff, Bool-cases, inl, inr,
}
use key_value_distributed_sy.Base.Text.{same_text, same_text_sound, same_text_refl}

-- A test for equality of keys.
pub record IsTest {K : Type 0} (same : K → K → Bool) : Type 0 where
  pub sound : (a b : K) → same a b ≡ true → a ≡ b
  pub reflexive : (a : K) → same a a ≡ true

pub same_text-IsTest : IsTest same_text
same_text-IsTest = record { sound = same_text_sound; reflexive = same_text_refl }

pub ==-IsTest : IsTest (λ a b. a == b)
==-IsTest = record { sound = λ a b e. (==_iff a b).0 e; reflexive = λ a. (==_iff a a).1 refl }

module _ {K : Type 0} (same : K → K → Bool) (t : IsTest same) where
  pub flip : (a b : K) → same a b ≡ false → same b a ≡ false
  flip a b e = elim (Bool-cases (same b a)) [
    | inr f ↦ f
    | inl f ↦ let q = t.sound b a f in cc (e, t.reflexive a, ap (same a) q)
  ]

module _ {K V : Type 0} (same : K → K → Bool) where
  unfoldable pub lookup : K → List (K × V) → Option V
  lookup k [] = none
  lookup k (p ∷ m) = let rest = lookup k m in if same k p.0 then some p.1 else rest

  unfoldable pub insert : K → V → List (K × V) → List (K × V)
  insert k v [] = (k, v) ∷ []
  insert k v (p ∷ m) = let rest = p ∷ insert k v m in if same k p.0 then (p.0, v) ∷ m else rest

  unfoldable pub erase : K → List (K × V) → List (K × V)
  erase k [] = []
  erase k (p ∷ m) = let rest = erase k m in if same k p.0 then rest else p ∷ rest

  abbrev pub IsAbsent : K → List (K × V) → Type 0
  IsAbsent k = All (λ p. same p.0 k ≡ false)

  -- No key stands twice.
  abbrev pub IsMap : List (K × V) → Type 0
  IsMap [] = Unit
  IsMap (p ∷ m) = IsAbsent p.0 m × IsMap m

  module _ (t : IsTest same) where
    pub lookup-insert : (k : K) (v : V) (m : List (K × V)) → lookup k (insert k v m) ≡ some v
    unfolding lookup insert
    lookup-insert k v [] = rw (t.reflexive k) refl
    lookup-insert k v (p ∷ m) = elim (Bool-cases (same k p.0)) [
      | inl e ↦ ground (arith, e)
      | inr e ↦ ground (arith, e, lookup-insert k v m)
    ]

    pub lookup-insert_other :
        (j k : K) (v : V) (m : List (K × V))
        → same j k ≡ false
        → lookup j (insert k v m) ≡ lookup j m
    unfolding lookup insert
    lookup-insert_other j k v [] n = rw n refl
    lookup-insert_other j k v (p ∷ m) n = elim (Bool-cases (same k p.0)) [
      | inl e ↦ let q = t.sound k p.0 e in ground (arith, e, n, ap (same j) q)
      | inr e ↦ ground (arith, e, n, lookup-insert_other j k v m n)
    ]

    pub lookup-erase : (k : K) (m : List (K × V)) → lookup k (erase k m) ≡ none
    unfolding lookup erase
    lookup-erase k [] = refl
    lookup-erase k (p ∷ m) = elim (Bool-cases (same k p.0)) [
      | inl e ↦ ground (arith, e, lookup-erase k m)
      | inr e ↦ ground (arith, e, lookup-erase k m)
    ]

    pub lookup-erase_other :
        (j k : K) (m : List (K × V)) → same j k ≡ false → lookup j (erase k m) ≡ lookup j m
    unfolding lookup erase
    lookup-erase_other j k [] n = refl
    lookup-erase_other j k (p ∷ m) n = elim (Bool-cases (same k p.0)) [
      | inl e ↦
          let q = t.sound k p.0 e in ground (arith, e, n, ap (same j) q, lookup-erase_other j k m n)
      | inr e ↦ ground (arith, e, n, lookup-erase_other j k m n)
    ]

    IsAbsent-insert :
        (j k : K) (v : V) (m : List (K × V))
        → same k j ≡ false
        → IsAbsent j m
        → IsAbsent j (insert k v m)
    unfolding insert
    IsAbsent-insert j k v [] n a = (n, tt)
    IsAbsent-insert j k v (p ∷ m) n a = elim (Bool-cases (same k p.0)) [
      | inl e ↦ rw e a
      | inr e ↦ rw e (a.0, IsAbsent-insert j k v m n a.1)
    ]

    pub IsMap-insert : (k : K) (v : V) (m : List (K × V)) → IsMap m → IsMap (insert k v m)
    unfolding insert
    IsMap-insert k v [] w = (tt, tt)
    IsMap-insert k v (p ∷ m) w = elim (Bool-cases (same k p.0)) [
      | inl e ↦ rw e w
      | inr e ↦ rw e (IsAbsent-insert p.0 k v m e w.0, IsMap-insert k v m w.1)
    ]

    IsAbsent-erase : (j k : K) (m : List (K × V)) → IsAbsent j m → IsAbsent j (erase k m)
    unfolding erase
    IsAbsent-erase j k [] a = tt
    IsAbsent-erase j k (p ∷ m) a = elim (Bool-cases (same k p.0)) [
      | inl e ↦ rw e (IsAbsent-erase j k m a.1)
      | inr e ↦ rw e (a.0, IsAbsent-erase j k m a.1)
    ]

    pub IsMap-erase : (k : K) (m : List (K × V)) → IsMap m → IsMap (erase k m)
    unfolding erase
    IsMap-erase k [] w = tt
    IsMap-erase k (p ∷ m) w = elim (Bool-cases (same k p.0)) [
      | inl e ↦ rw e (IsMap-erase k m w.1)
      | inr e ↦ rw e (IsAbsent-erase p.0 k m w.0, IsMap-erase k m w.1)
    ]

    pub erase-absent :
        (k : K) (m : List (K × V)) → IsAbsent k m → (erase k m ≡ m) × (lookup k m ≡ none)
    unfolding erase lookup
    erase-absent k [] a = (refl, refl)
    erase-absent k (p ∷ m) a =
        let n = flip same t p.0 k a.0 in
        let (e, l) = erase-absent k m a.1 in (ground (arith, n, e), ground (arith, n, l))
