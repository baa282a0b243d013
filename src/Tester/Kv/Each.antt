-- ===== src/Tester/Kv/Each.antt =====
-- What a loop keeps, and what one of its turns brings about.
use key_value_distributed_sy.Base.{
  ◌>>=◌, ℕ, ◌≡◌, refl, sym, subst, true, Option, none, some, some_inj, List, [], ◌∷◌, inl, inr,
  ◌==◌, ==_iff, Bool-cases, has, arith,
}
use key_value_distributed_sy.Tester.Kv.{each_of}

pub bind-some :
    {A B : Type 0} (o : Option A) (f : A → Option B) (b : B)
    → (o >>= f) ≡ some b
    → (a : A) × (o ≡ some a) × (f a ≡ some b)
bind-some none f b e = absurd cc
bind-some (some a) f b e = (a, refl, e)

module _ {S : Type 0} (R : S → Type 0) (f : ℕ → S → Option S) where
  -- Each turn for an element of `js` keeps `R`.
  abbrev pub IsKeeping : List ℕ → Type 0
  IsKeeping js = (j : ℕ) → has j js ≡ true → (s s' : S) → f j s ≡ some s' → R s → R s'

  tail : (j : ℕ) (js : List ℕ) → IsKeeping (j ∷ js) → IsKeeping js
  tail j js keeps k h = keeps k (ground (arith, h))

  pub each_of-keeps :
      (js : List ℕ) → IsKeeping js → (s s' : S) → each_of js f s ≡ some s' → R s → R s'
  each_of-keeps [] keeps s s' e r = subst R (some_inj e) r
  each_of-keeps (j ∷ js) keeps s s' e r =
      let (mid, first, rest) = bind-some (f j s) (each_of js f) s' e in
      each_of-keeps js (tail j js keeps) mid s' rest (keeps j (ground arith) s mid first r)

  pub each_of-hits :
      (k : ℕ) (js : List ℕ)
      → has k js ≡ true
      → IsKeeping js
      → ((s s' : S) → f k s ≡ some s' → R s')
      → (s s' : S) → each_of js f s ≡ some s'
      → R s'
  each_of-hits k [] h keeps hits s s' e = absurd cc
  each_of-hits k (j ∷ js) h keeps hits s s' e =
      let (mid, first, rest) = bind-some (f j s) (each_of js f) s' e in
      elim (Bool-cases (k == j)) [
        | inl q ↦
            let at = (==_iff k j).0 q in
            each_of-keeps js (tail j js keeps) mid s' rest
              (hits s mid (subst (λ j. f j s ≡ some mid) (sym at) first))
        | inr q ↦ each_of-hits k js (ground (arith, q, h)) (tail j js keeps) hits mid s' rest
      ]
