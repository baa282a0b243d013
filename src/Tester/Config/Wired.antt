-- ===== src/Tester/Config/Wired.antt =====
-- The endpoint from server i to server j is enabled when both are connected.
use key_value_distributed_sy.Base.{
  ℕ, ◌<◌, ◌≡◌, refl, ap, ◌∙◌, sym, subst, Bool, true, false, ◌&&◌, some, [], ◌⊎◌, inl, inr, ◌==◌,
  Bool-cases, arith,
}
use key_value_distributed_sy.Base.Decimal.{to_string, to_string_inj, to_string-nonempty}
use key_value_distributed_sy.Base.Loops.{each, put}
use key_value_distributed_sy.Base.Text.{Text}
use key_value_distributed_sy.Labrpc.Network.{NetworkCore}
use key_value_distributed_sy.Tester.Config.{Config, enable_if}
use key_value_distributed_sy.Tester.Config.Ends.{is_enabled, Effect, hit, missed, each-Effect}

-- Of the servers in `row`, which have been started: their endpoints have names of their own, and are
-- enabled when both servers are connected. The names of the others are empty.
pub record IsWired {N : Type 0} (row : ℕ → Bool) (c : Config N) : Type 0 where
  pub ids : ℕ → ℕ → ℕ
  pub inside : (i : ℕ) → row i ≡ true → i < c.n
  pub named : (i j : ℕ) → row i ≡ true → j < c.n → c.endnames i j ≡ to_string (ids i j)
  pub old : (i j : ℕ) → row i ≡ true → j < c.n → ids i j < c.next_id
  pub apart :
      (i j k l : ℕ)
      → row i ≡ true
      → j < c.n
      → row k ≡ true
      → l < c.n
      → ids i j ≡ ids k l
      → (i ≡ k) × (j ≡ l)
  pub unnamed : (i j : ℕ) → row i ≡ false → c.endnames i j ≡ []
  pub wired :
      (i j : ℕ)
      → row i ≡ true
      → j < c.n
      → is_enabled c.net (c.endnames i j) ≡ some (c.connected i && c.connected j)

module _ {on : Bool} {n : ℕ} {chosen : ℕ → Bool} {names : ℕ → Text} {before after : NetworkCore}
    {name : Text} where
  pub untouched :
      Effect on n chosen names before after name
      → ((k : ℕ) → k < n → chosen k ≡ true → names k ≡ name → ⊥)
      → is_enabled after name ≡ is_enabled before name
  untouched (hit k h d e w) f = absurd (f k h d e)
  untouched (missed m w) f = w

  pub touched :
      Effect on n chosen names before after name
      → (((k : ℕ) × (k < n) × (chosen k ≡ true) × (names k ≡ name))
          ⊎ (is_enabled before name ≡ some on))
      → is_enabled after name ≡ some on
  touched (hit k h d e w) f = w
  touched (missed m w) (inl (k, h, d, e)) = absurd (m k h d e)
  touched (missed m w) (inr e) = w ∙ e

module _ {N : Type 0} (row : ℕ → Bool) (c : Config N) (w : IsWired row c) where
  -- No other endpoint has the name of one of a server that was started.
  same_end :
      (i j k l : ℕ)
      → row i ≡ true
      → j < c.n
      → l < c.n
      → c.endnames k l ≡ c.endnames i j
      → (k ≡ i) × (l ≡ j)
  same_end i j k l r hj hl e = elim (Bool-cases (row k)) [
    | inl s ↦
        w.apart k l i j s hl r hj
          (to_string_inj (w.ids k l) (w.ids i j) (sym (w.named k l s hl) ∙ e ∙ w.named i j r hj))
    | inr s ↦
        absurd (to_string-nonempty (w.ids i j) (sym (w.named i j r hj) ∙ sym e ∙ w.unnamed k l s))
  ]

  module _ (a : ℕ) (inside : a < c.n) where
    -- After the two loops over the endpoints from and to server `a`.
    unfoldable pub looped : Bool → (ℕ → Bool) → NetworkCore
    looped on chosen =
        each c.n (λ j. enable_if (chosen j) on (c.endnames j a))
          (each c.n (λ j. enable_if (chosen j) on (c.endnames a j)) c.net)

    pub looped-other :
        (on : Bool) (chosen : ℕ → Bool) (i j : ℕ)
        → row i ≡ true
        → j < c.n
        → ((i ≡ a) → chosen j ≡ true → ⊥)
        → ((j ≡ a) → chosen i ≡ true → ⊥)
        → is_enabled (looped on chosen) (c.endnames i j) ≡ is_enabled c.net (c.endnames i j)
    unfolding looped
    looped-other on chosen i j r hj f g =
        let mid = each c.n (λ j. enable_if (chosen j) on (c.endnames a j)) c.net in
        untouched (each-Effect on c.n chosen (λ j. c.endnames j a) mid (c.endnames i j)) (λ k h d e.
          let (p, q) = same_end i j k a r hj inside e in
          g (sym q) (subst (λ k. chosen k ≡ true) p d))
        ∙ untouched (each-Effect on c.n chosen (λ j. c.endnames a j) c.net (c.endnames i j))
            (λ k h d e.
              let (p, q) = same_end i j a k r hj h e in
              f (sym p) (subst (λ k. chosen k ≡ true) q d))

    pub looped-hit :
        (on : Bool) (chosen : ℕ → Bool) (i j : ℕ)
        → row i ≡ true
        → j < c.n
        → (((i ≡ a) × (chosen j ≡ true)) ⊎ ((j ≡ a) × (chosen i ≡ true)))
        → is_enabled (looped on chosen) (c.endnames i j) ≡ some on
    unfolding looped
    looped-hit on chosen i j r hj (inr (q, d)) =
        let mid = each c.n (λ j. enable_if (chosen j) on (c.endnames a j)) c.net in
        touched (each-Effect on c.n chosen (λ j. c.endnames j a) mid (c.endnames i j))
          (inl (i, w.inside i r, d, ap (c.endnames i) (sym q)))
    looped-hit on chosen i j r hj (inl (p, d)) =
        let mid = each c.n (λ j. enable_if (chosen j) on (c.endnames a j)) c.net in
        let first : is_enabled mid (c.endnames i j) ≡ some on =
          touched (each-Effect on c.n chosen (λ j. c.endnames a j) c.net (c.endnames i j))
            (inl (j, hj, d, ap (λ i. c.endnames i j) (sym p))) in
        touched (each-Effect on c.n chosen (λ j. c.endnames j a) mid (c.endnames i j)) (inr first)

pub put-same : {A : Type 0} (f : ℕ → A) (i : ℕ) (a : A) (k : ℕ) → k ≡ i → put f i a k ≡ a
put-same f i a k e = rw e (ground arith)

pub put-other :
    {A : Type 0} (f : ℕ → A) (i : ℕ) (a : A) (k : ℕ) → (k == i) ≡ false → put f i a k ≡ f k
put-other f i a k e = rw e refl
