-- ===== src/Base/Decimal.antt =====
-- Numbers in decimal, for `format!("{}", n)`.
use key_value_distributed_sy.Base.{
  ℕ, zero, suc, ◌+◌, ◌-◌, ◌*◌, ◌/◌, ◌%◌, ◌≤◌, ◌≡◌, ◌≢◌, refl, ap, ◌∙◌, sym, [], ◌∷◌, ◌++◌, ltb,
  if◌then◌else◌, Bool-cases, inl, inr, arith,
}
use key_value_distributed_sy.Base.Text.{Text}

-- The digits of a number, with as much fuel as the number.
abbrev digits : ℕ → ℕ → Text
digits zero n = (48 + n) ∷ []
digits (suc fuel) n =
    let rest = digits fuel (n / 10) in
    if ltb n 10 then (48 + n) ∷ [] else rest ++ (48 + n % 10) ∷ []

unfoldable pub to_string : ℕ → Text
to_string n = digits n n

abbrev value_from : ℕ → Text → ℕ
value_from v [] = v
value_from v (c ∷ cs) = value_from (v * 10 + (c - 48)) cs

value_from-last :
    (v : ℕ) (cs : Text) (c : ℕ) → value_from v (cs ++ c ∷ []) ≡ value_from v cs * 10 + (c - 48)
value_from-last v [] c = refl
value_from-last v (d ∷ cs) c = value_from-last (v * 10 + (d - 48)) cs c

value_from-digits : (fuel n : ℕ) → n ≤ fuel → value_from 0 (digits fuel n) ≡ n
value_from-digits zero n h = omega arith
value_from-digits (suc fuel) n h = elim (Bool-cases (ltb n 10)) [
  | inl e ↦ rw e (omega arith)
  | inr e ↦
      let big : 10 ≤ n = ground (arith, e) in
      let r = value_from-digits fuel (n / 10) (omega arith) in
      rw (e, value_from-last 0 (digits fuel (n / 10)) (48 + n % 10), r) (omega arith)
]

-- Different numbers are written differently.
pub to_string_inj : (m n : ℕ) → to_string m ≡ to_string n → m ≡ n
unfolding to_string
to_string_inj m n e =
    sym (value_from-digits m m (omega arith))
    ∙ ap (value_from 0) e
    ∙ value_from-digits n n (omega arith)

not_last : (cs : Text) (c : ℕ) → cs ++ c ∷ [] ≢ []
not_last [] c e = absurd cc
not_last (d ∷ cs) c e = absurd cc

pub to_string-nonempty : (n : ℕ) → to_string n ≢ []
unfolding to_string
to_string-nonempty n = nonempty n n
  where
    nonempty : (fuel n : ℕ) → digits fuel n ≢ []
    nonempty zero n e = absurd cc
    nonempty (suc fuel) n e = elim (Bool-cases (ltb n 10)) [
      | inl t ↦ absurd (ground (arith, e, t))
      | inr t ↦ not_last (digits fuel (n / 10)) (48 + n % 10) (rw t at e)
    ]
