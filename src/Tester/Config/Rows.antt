-- ===== src/Tester/Config/Rows.antt =====
-- The endpoints of all servers after one was started.
use key_value_distributed_sy.Base.{
  ℕ, ◌+◌, ◌<◌, ◌≡◌, refl, ap, ◌∙◌, sym, subst, Bool, true, false, ◌&&◌, some, [], inl, inr, ◌==◌,
  ==_iff, Bool-cases, if◌then◌else◌, arith,
}
use key_value_distributed_sy.Base.Decimal.{to_string, to_string_inj}
use key_value_distributed_sy.Base.Loops.{put}
use key_value_distributed_sy.Tester.Config.{Config}
use key_value_distributed_sy.Tester.Config.Ends.{is_enabled, each-Effect}
use key_value_distributed_sy.Tester.Config.Wired.{IsWired, untouched, touched, put-same, put-other}
use key_value_distributed_sy.Tester.Config.Starts.{IsStarted}

module _ {N : Type 0} (row : ℕ → Bool) (i : ℕ) (c d : Config N) (w : IsWired row c)
    (s : IsStarted i c d) (inside : i < c.n) (apart : c.connected i ≡ false) where
  started_row : ℕ → Bool
  started_row = put row i true

  started_ids : ℕ → ℕ → ℕ
  started_ids r j = if r == i then j + c.next_id else w.ids r j

  fresh_id : (r j : ℕ) → r ≡ i → started_ids r j ≡ j + c.next_id
  unfolding started_ids
  fresh_id r j e = rw e (ground arith)

  old_id : (r j : ℕ) → (r == i) ≡ false → started_ids r j ≡ w.ids r j
  unfolding started_ids
  old_id r j e = rw e refl

  old_row : (r : ℕ) → (r == i) ≡ false → started_row r ≡ row r
  unfolding started_row
  old_row r e = put-other row i true r e

  started-named :
      (r j : ℕ) → started_row r ≡ true → j < d.n → d.endnames r j ≡ to_string (started_ids r j)
  started-named r j e h =
      let h' : j < c.n = subst (λ m. j < m) s.same_n h in
      elim (Bool-cases (r == i)) [
        | inl p ↦
            let at = (==_iff r i).0 p in
            ap (λ r. d.endnames r j) at ∙ s.fresh j h' ∙ ap to_string (sym (fresh_id r j at))
        | inr p ↦
            ap (λ f. f j) (s.others r p)
            ∙ w.named r j (sym (old_row r p) ∙ e) h'
            ∙ ap to_string (sym (old_id r j p))
      ]

  started-unnamed : (r j : ℕ) → started_row r ≡ false → d.endnames r j ≡ []
  unfolding started_row
  started-unnamed r j e = elim (Bool-cases (r == i)) [
    | inl p ↦ let on : started_row r ≡ true = put-same row i true r ((==_iff r i).0 p) in absurd cc
    | inr p ↦ ap (λ f. f j) (s.others r p) ∙ w.unnamed r j (sym (old_row r p) ∙ e)
  ]

  started-old : (r j : ℕ) → started_row r ≡ true → j < c.n → started_ids r j < c.n + c.next_id
  started-old r j e h = elim (Bool-cases (r == i)) [
    | inl p ↦ subst (λ m. m < c.n + c.next_id) (sym (fresh_id r j ((==_iff r i).0 p))) (omega arith)
    | inr p ↦
        let less = w.old r j (sym (old_row r p) ∙ e) h in
        subst (λ m. m < c.n + c.next_id) (sym (old_id r j p)) (omega arith)
  ]

  started-apart :
      (r j k l : ℕ)
      → started_row r ≡ true
      → j < c.n
      → started_row k ≡ true
      → l < c.n
      → started_ids r j ≡ started_ids k l
      → (r ≡ k) × (j ≡ l)
  started-apart r j k l e hj f hl g = elim (Bool-cases (r == i)) [
    | inl p ↦
        let at = (==_iff r i).0 p in
        elim (Bool-cases (k == i)) [
          | inl q ↦
              let at' = (==_iff k i).0 q in
              let same = sym (fresh_id r j at) ∙ g ∙ fresh_id k l at' in (at ∙ sym at', omega arith)
          | inr q ↦
              let less = w.old k l (sym (old_row k q) ∙ f) hl in
              let same = sym (fresh_id r j at) ∙ g ∙ old_id k l q in absurd (omega arith)
        ]
    | inr p ↦ elim (Bool-cases (k == i)) [
      | inl q ↦
          let less = w.old r j (sym (old_row r p) ∙ e) hj in
          let same = sym (old_id r j p) ∙ g ∙ fresh_id k l ((==_iff k i).0 q) in
          absurd (omega arith)
      | inr q ↦
          w.apart r j k l (sym (old_row r p) ∙ e) hj (sym (old_row k q) ∙ f) hl
            (sym (old_id r j p) ∙ g ∙ old_id k l q)
    ]
  ]

  -- The new endpoints are disabled, and the others keep their names and what they were.
  started-wired :
      (r j : ℕ)
      → started_row r ≡ true
      → j < c.n
      → is_enabled d.net (d.endnames r j) ≡ some (d.connected r && d.connected j)
  started-wired r j e h =
      let effect = each-Effect false c.n (λ _. true) (λ j. d.endnames i j) c.net (d.endnames r j) in
      rw s.same_connected (
        s.disabled (d.endnames r j) ∙ elim (Bool-cases (r == i)) [
          | inl p ↦
              let at = (==_iff r i).0 p in
              touched effect (inl (j, h, refl, ap (λ r. d.endnames r j) (sym at)))
              ∙ ap (λ b. some (b && c.connected j)) (sym (ap c.connected at ∙ apart))
          | inr p ↦
              let on : row r ≡ true = sym (old_row r p) ∙ e in
              let same : d.endnames r j ≡ c.endnames r j = ap (λ f. f j) (s.others r p) in
              untouched effect (λ k hk t z.
                let less = w.old r j on h in
                let equal =
                  to_string_inj (k + c.next_id) (w.ids r j)
                    (sym (s.fresh k hk) ∙ z ∙ same ∙ w.named r j on h) in
                absurd (omega arith))
              ∙ ap (is_enabled c.net) same
              ∙ w.wired r j on h
        ])

  pub IsStarted-IsWired : IsWired (put row i true) d
  unfolding started_row
  IsStarted-IsWired = record {
    ids = started_ids;
    inside = λ r e.
        subst (λ m. r < m) (sym s.same_n)
          (elim (Bool-cases (r == i)) [
            | inl p ↦ subst (λ r. r < c.n) (sym ((==_iff r i).0 p)) inside
            | inr p ↦ w.inside r (sym (old_row r p) ∙ e)
          ]);
    named = started-named;
    old = λ r j e h.
        subst (λ m. started_ids r j < m) (sym s.next)
          (started-old r j e (subst (λ m. j < m) s.same_n h));
    apart = λ r j k l e hj f hl.
        started-apart r j k l e (subst (λ m. j < m) s.same_n hj) f (subst (λ m. l < m) s.same_n hl);
    unnamed = started-unnamed;
    wired = λ r j e h. started-wired r j e (subst (λ m. j < m) s.same_n h);
  }
