-- ===== src/Tester/Config/Joined.antt =====
-- What `connect` and `disconnect` do to the endpoints.
use key_value_distributed_sy.Base.{
  ℕ, ◌<◌, ◌≡◌, refl, ap, ◌∙◌, sym, Bool, true, false, ◌&&◌, some, inl, inr, ◌==◌, ==_iff,
  Bool-cases, arith,
}
use key_value_distributed_sy.Base.Loops.{put}
use key_value_distributed_sy.Tester.Config.{Config, disconnect, connect}
use key_value_distributed_sy.Tester.Config.Ends.{is_enabled}
use key_value_distributed_sy.Tester.Config.Wired.{
  IsWired, looped, looped-other, looped-hit, put-same, put-other,
}

other-false : (i a : ℕ) → (i == a) ≡ false → (i ≡ a) → ⊥
other-false i a e p = absurd (ground (arith, e, p))

and-false : (a : Bool) → (a && false) ≡ false
and-false true = refl
and-false false = refl

module _ {N : Type 0} (row : ℕ → Bool) (c : Config N) (w : IsWired row c) (a : ℕ)
    (inside : a < c.n) where
  disconnected :
      (i j : ℕ)
      → row i ≡ true
      → j < c.n
      → is_enabled (looped row c w a inside false (λ _. true)) (c.endnames i j)
        ≡ some (put c.connected a false i && put c.connected a false j)
  disconnected i j r h = elim (Bool-cases (i == a)) [
    | inl p ↦
        let at = (==_iff i a).0 p in
        looped-hit row c w a inside false (λ _. true) i j r h (inl (at, refl))
        ∙ ap (λ b. some (b && put c.connected a false j)) (sym (put-same c.connected a false i at))
    | inr p ↦ elim (Bool-cases (j == a)) [
      | inl q ↦
          let at = (==_iff j a).0 q in
          looped-hit row c w a inside false (λ _. true) i j r h (inr (at, refl))
          ∙ ap some (sym (and-false (put c.connected a false i)))
          ∙ ap (λ b. some (put c.connected a false i && b))
              (sym (put-same c.connected a false j at))
      | inr q ↦
          looped-other row c w a inside false (λ _. true) i j r h (λ e _. other-false i a p e)
            (λ e _. other-false j a q e)
          ∙ w.wired i j r h
          ∙ ap (λ b. some (b && c.connected j)) (sym (put-other c.connected a false i p))
          ∙ ap (λ b. some (put c.connected a false i && b))
              (sym (put-other c.connected a false j q))
    ]
  ]

  pub disconnect-IsWired : IsWired row (disconnect a c)
  unfolding disconnect looped
  disconnect-IsWired = record {
    ids = w.ids;
    inside = w.inside;
    named = w.named;
    old = w.old;
    apart = w.apart;
    unnamed = w.unnamed;
    wired = disconnected;
  }

  -- What is left of the rows and columns of a server that comes back.
  reconnected :
      (i j : ℕ)
      → row i ≡ true
      → j < c.n
      → is_enabled (looped row c w a inside true (put c.connected a true)) (c.endnames i j)
        ≡ some (put c.connected a true i && put c.connected a true j)
  reconnected i j r h =
      let connected' = put c.connected a true in
      let loop = looped row c w a inside true connected' in
      elim (Bool-cases (i == a)) [
        | inl p ↦
            let at = (==_iff i a).0 p in
            let i_on : connected' i ≡ true = put-same c.connected a true i at in
            elim (Bool-cases (connected' j)) [
              | inl d ↦
                  rw (looped-hit row c w a inside true connected' i j r h (inl (at, d)), i_on, d)
                    refl
              | inr d ↦ elim (Bool-cases (j == a)) [
                | inl q ↦
                    let j_on : connected' j ≡ true =
                      put-same c.connected a true j ((==_iff j a).0 q) in
                    absurd cc
                | inr q ↦
                    let off : c.connected j ≡ false = sym (put-other c.connected a true j q) ∙ d in
                    looped-other row c w a inside true connected' i j r h (λ e t. absurd cc)
                      (λ e t. other-false j a q e)
                    ∙ w.wired i j r h
                    ∙ ap (λ b. some (c.connected i && b)) off
                    ∙ ap some (and-false (c.connected i))
                    ∙ ap some (sym (and-false (connected' i)))
                    ∙ ap (λ b. some (connected' i && b)) (sym d)
              ]
            ]
        | inr p ↦
            let same = put-other c.connected a true i p in
            elim (Bool-cases (j == a)) [
              | inl q ↦
                  let at = (==_iff j a).0 q in
                  let j_on : connected' j ≡ true = put-same c.connected a true j at in
                  elim (Bool-cases (connected' i)) [
                    | inl d ↦
                        rw
                          (
                            looped-hit row c w a inside true connected' i j r h (inr (at, d)),
                            d,
                            j_on,
                          )
                          refl
                    | inr d ↦
                        looped-other row c w a inside true connected' i j r h
                          (λ e t. other-false i a p e) (λ e t. absurd cc)
                        ∙ w.wired i j r h
                        ∙ ap (λ b. some (b && c.connected j)) (sym same ∙ d)
                        ∙ ap (λ b. some (b && connected' j)) (sym d)
                  ]
              | inr q ↦
                  looped-other row c w a inside true connected' i j r h (λ e t. other-false i a p e)
                    (λ e t. other-false j a q e)
                  ∙ w.wired i j r h
                  ∙ ap (λ b. some (b && c.connected j)) (sym same)
                  ∙ ap (λ b. some (connected' i && b)) (sym (put-other c.connected a true j q))
            ]
      ]

  pub connect-IsWired : IsWired row (connect a c)
  unfolding connect looped
  connect-IsWired = record {
    ids = w.ids;
    inside = w.inside;
    named = w.named;
    old = w.old;
    apart = w.apart;
    unnamed = w.unnamed;
    wired = reconnected;
  }
