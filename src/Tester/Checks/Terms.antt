-- ===== src/Tester/Checks/Terms.antt =====
-- What `check_terms` accepts.
use key_value_distributed_sy.Base.{
  ℕ, zero, suc, ◌<◌, ◌≤◌, ◌≡◌, ◌≢◌, ◌↔◌, refl, ap, ◌∙◌, sym, subst, Bool, true, false, Option, none,
  some, some_inj, inl, inr, ◌==◌, ==_iff, Bool-cases, Option-cases, arith,
}
use key_value_distributed_sy.Tester.Checks.{each_until, compare_term, term_turn, check_terms}
use key_value_distributed_sy.Tester.Kv.Each.{bind-some}

module _ (connected : ℕ → Bool) (terms : ℕ → Option ℕ) where
  -- The connected servers from `m` on and below `k` have the term `t`.
  abbrev pub HaveTerm : ℕ → ℕ → ℕ → Type 0
  HaveTerm m k t = (i : ℕ) → m ≤ i → i < k → connected i ≡ true → terms i ≡ some t

  -- The connected servers below `k` have the term 0 up to one of them, and from there on the term
  -- `t`, which is not 0; or all of them have the term 0.
  pub data IsAgreed (k : ℕ) (t : ℕ) : Type 0 where
    unset : t ≡ 0 → HaveTerm 0 k 0 → IsAgreed k t
    set_at :
        (m : ℕ)
        → m < k
        → connected m ≡ true
        → t ≢ 0
        → HaveTerm 0 m 0
        → HaveTerm m k t
        → IsAgreed k t

  HaveTerm-suc :
      (m k t : ℕ) → HaveTerm m k t → (connected k ≡ true → terms k ≡ some t) → HaveTerm m (suc k) t
  HaveTerm-suc m k t below at i h l c = elim (Bool-cases (i == k)) [
    | inl e ↦ let same = (==_iff i k).0 e in ap terms same ∙ at (sym (ap connected same) ∙ c)
    | inr e ↦ below i h (ground (arith, e, l)) c
  ]

  turn-off : (k term : ℕ) → connected k ≡ false → term_turn connected terms k term ≡ some term
  turn-off k term c = rw (c, term_turn) refl

  turn-on :
      (k term x : ℕ)
      → connected k ≡ true
      → terms k ≡ some x
      → term_turn connected terms k term ≡ compare_term x term
  turn-on k term x c e = rw (c, e, term_turn) refl

  IsAgreed-off : (k t : ℕ) → connected k ≡ false → IsAgreed k t → IsAgreed (suc k) t
  IsAgreed-off k t c (unset z all) = unset z (HaveTerm-suc 0 k 0 all (λ d. absurd cc))
  IsAgreed-off k t c (set_at m h d nz zeros rest) =
      set_at m (omega arith) d nz zeros (HaveTerm-suc m k t rest (λ d. absurd cc))

  -- A turn for a server with the term `x`.
  IsAgreed-on :
      (k t' t x : ℕ)
      → connected k ≡ true
      → terms k ≡ some x
      → compare_term x t' ≡ some t
      → IsAgreed k t'
      → IsAgreed (suc k) t
  IsAgreed-on k t' t x c e g (unset z all) =
      let same : x ≡ t = ground (arith, g, z) in
      elim (Bool-cases (x == 0)) [
        | inl y ↦
            let at = (==_iff x 0).0 y in
            unset (sym same ∙ at) (HaveTerm-suc 0 k 0 all (λ d. e ∙ ap some at))
        | inr y ↦
            set_at k (omega arith) c (λ w. ground (arith, y, same, w)) all
              (HaveTerm-suc k k t (λ i h l d. absurd (omega arith)) (λ d. e ∙ ap some same))
      ]
  IsAgreed-on k t' t x c e g (set_at m h d nz zeros rest) =
      let nonzero : (t' == 0) ≡ false = elim (Bool-cases (t' == 0)) [
        | inl y ↦ absurd (nz ((==_iff t' 0).0 y))
        | inr y ↦ y
      ] in
      elim (Bool-cases (t' == x)) [
        | inr y ↦ absurd (ground (arith, g, nonzero, y))
        | inl y ↦
            let same : t' ≡ t = ground (arith, g, nonzero, y) in
            let at = (==_iff t' x).0 y in
            subst (IsAgreed (suc k)) same (
              set_at m (omega arith) d nz zeros
                (HaveTerm-suc m k t' rest (λ d. e ∙ ap some (sym at))))
      ]

  agreed : (k t : ℕ) → each_until k (term_turn connected terms) 0 ≡ some t → IsAgreed k t
  agreed zero t e = unset (sym (some_inj e)) (λ i h l. absurd (omega arith))
  agreed (suc k) t e =
      let (t', before, turn) =
        bind-some (each_until k (term_turn connected terms) 0) (term_turn connected terms k) t e in
      let w = agreed k t' before in
      elim (Bool-cases (connected k)) [
        | inr c ↦
            subst (IsAgreed (suc k)) (some_inj (sym (turn-off k t' c) ∙ turn))
              (IsAgreed-off k t' c w)
        | inl c ↦ elim (Option-cases (terms k)) [
          | inl f ↦
              let at : term_turn connected terms k t' ≡ none = rw (c, f, term_turn) refl in
              absurd cc
          | inr (x, f) ↦ IsAgreed-on k t' t x c f (sym (turn-on k t' x c f) ∙ turn) w
        ]
      ]

  one_more :
      (k t' t : ℕ)
      → each_until k (term_turn connected terms) 0 ≡ some t'
      → term_turn connected terms k t' ≡ some t
      → each_until (suc k) (term_turn connected terms) 0 ≡ some t
  one_more k t' t e turn = rw e turn

  -- The turn for a server that agrees already.
  turn_agrees :
      (k t : ℕ) → (connected k ≡ true → terms k ≡ some t) → term_turn connected terms k t ≡ some t
  turn_agrees k t has_it = elim (Bool-cases (connected k)) [
    | inr c ↦ turn-off k t c
    | inl c ↦
        turn-on k t t c (has_it c)
        ∙ elim (Bool-cases (t == 0)) [ inl z ↦ ground (arith, z) | inr z ↦ ground (arith, z) ]
  ]

  accepted : (k t : ℕ) → IsAgreed k t → each_until k (term_turn connected terms) 0 ≡ some t
  accepted zero t (unset z all) = ap some (sym z)
  accepted zero t (set_at m h d nz zeros rest) = absurd (omega arith)
  accepted (suc k) t (unset z all) =
      let before = accepted k 0 (unset refl (λ i h l. all i h (omega arith))) in
      one_more k 0 t before
        (turn_agrees k 0 (λ c. all k (omega arith) (omega arith) c) ∙ ap some (sym z))
  accepted (suc k) t (set_at m h d nz zeros rest) = elim (Bool-cases (m == k)) [
    | inl e ↦
        let at = (==_iff m k).0 e in
        let before = accepted k 0 (unset refl (subst (λ m. HaveTerm 0 m 0) at zeros)) in
        let c : connected k ≡ true = sym (ap connected at) ∙ d in
        one_more k 0 t before (turn-on k 0 t c (rest k (omega arith) (omega arith) c))
    | inr e ↦
        let before =
          accepted k t
            (set_at m (ground (arith, e, h)) d nz zeros (λ i a l. rest i a (omega arith))) in
        one_more k t t before (turn_agrees k t (λ c. rest k (omega arith) (omega arith) c))
  ]

  -- `check_terms` answers `t` exactly when the connected servers have the term 0 up to one of them,
  -- and that one and those behind it have the term `t`, which is not 0, or when all of them have the
  -- term 0 and `t` is 0; in all other cases it panics.
  pub check_terms_iff : (n t : ℕ) → (check_terms n connected terms ≡ some t) ↔ IsAgreed n t
  unfolding check_terms
  check_terms_iff n t = (agreed n t, accepted n t)
