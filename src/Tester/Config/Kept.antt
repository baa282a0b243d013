-- ===== src/Tester/Config/Kept.antt =====
-- What an old instance of a server writes after a crash is not in the persisters of the servers.
use key_value_distributed_sy.Base.{
  ℕ, zero, suc, ◌<◌, ◌≡◌, refl, ap, ◌∙◌, sym, subst, false, List, [], inl, inr, ◌==◌, ==_iff,
  Bool-cases, arith,
}
use key_value_distributed_sy.Base.Loops.{each, put}
use key_value_distributed_sy.Base.Text.{Text}
use key_value_distributed_sy.Tester.Config.{
  Config, disconnect, crash1, name_end, make_client, start1_ext, save_new,
}
use key_value_distributed_sy.Tester.Config.Wired.{put-same, put-other}

module _ {N : Type 0} where
  -- The first `k` servers have persisters of their own.
  pub record IsKept (k : ℕ) (c : Config N) : Type 0 where
    pub old : (r : ℕ) → r < k → c.saved r < c.persisters.next
    pub apart : (r s : ℕ) → r < k → s < k → c.saved r ≡ c.saved s → r ≡ s

  -- Server `i` gets the persister at the next address.
  abbrev pub IsRenewed : ℕ → Config N → Config N → Type 0
  IsRenewed i c d =
      (d.saved ≡ put c.saved i c.persisters.next) × (d.persisters.next ≡ suc c.persisters.next)

  pub IsRenewed-IsKept :
      (k k' i : ℕ) (c d : Config N)
      → IsRenewed i c d
      → IsKept k c
      → ((r : ℕ) → r < k' → (r == i) ≡ false → r < k)
      → IsKept k' d
  IsRenewed-IsKept k k' i c d (e, f) w below = record {
    old = λ r h.
        rw (e, f)
          (elim (Bool-cases (r == i)) [
            | inl p ↦
                subst (λ m. m < suc c.persisters.next)
                  (sym (put-same c.saved i c.persisters.next r ((==_iff r i).0 p))) (omega arith)
            | inr p ↦
                let less = w.old r (below r h p) in
                subst (λ m. m < suc c.persisters.next)
                  (sym (put-other c.saved i c.persisters.next r p)) (omega arith)
          ]);
    apart = λ r s h l g.
        let same : put c.saved i c.persisters.next r ≡ put c.saved i c.persisters.next s =
          ap (λ f. f r) (sym e) ∙ g ∙ ap (λ f. f s) e in
        elim (Bool-cases (r == i)) [
          | inl p ↦
              let at = (==_iff r i).0 p in
              elim (Bool-cases (s == i)) [
                | inl q ↦ at ∙ sym ((==_iff s i).0 q)
                | inr q ↦
                    let less = w.old s (below s l q) in
                    let equal =
                      sym (put-same c.saved i c.persisters.next r at)
                      ∙ same
                      ∙ put-other c.saved i c.persisters.next s q in
                    absurd (omega arith)
              ]
          | inr p ↦ elim (Bool-cases (s == i)) [
            | inl q ↦
                let less = w.old r (below r h p) in
                let equal =
                  sym (put-other c.saved i c.persisters.next r p)
                  ∙ same
                  ∙ put-same c.saved i c.persisters.next s ((==_iff s i).0 q) in
                absurd (omega arith)
            | inr q ↦ w.apart r s (below r h p) (below s l q) (
                sym (put-other c.saved i c.persisters.next r p)
                ∙ same
                ∙ put-other c.saved i c.persisters.next s q)
          ]
        ];
  }

  save_new-IsKept : (k : ℕ) (c : Config N) → IsKept k c → IsKept (suc k) (save_new k c)
  save_new-IsKept k c w =
      IsRenewed-IsKept k (suc k) k c (save_new k c) (refl, refl) w (λ r h p. ground (arith, p, h))

  pub each-save_new : (k : ℕ) (c : Config N) → IsKept k (each k save_new c)
  each-save_new zero c = record {
    old = λ r h. absurd (omega arith);
    apart = λ r s h l g. absurd (omega arith);
  }
  each-save_new (suc k) c = save_new-IsKept k (each k save_new c) (each-save_new k c)

  pub crash1-IsRenewed : (i : ℕ) (c : Config N) → IsRenewed i c (crash1 i c)
  unfolding crash1 disconnect
  crash1-IsRenewed i c = (refl, refl)

  -- The persisters are those of `c`.
  IsUnsaved : Config N → Config N → Type 0
  IsUnsaved c d = (d.saved ≡ c.saved) × (d.persisters ≡ c.persisters)

  each-name_end-IsUnsaved : (i k : ℕ) (c : Config N) → IsUnsaved c (each k (name_end i) c)
  unfolding IsUnsaved
  each-name_end-IsUnsaved i zero c = (refl, refl)
  each-name_end-IsUnsaved i (suc k) c = each-name_end-IsUnsaved i k c

  each-make_client-IsUnsaved : (i k : ℕ) (c : Config N) → IsUnsaved c (each k (make_client i) c)
  unfolding IsUnsaved
  each-make_client-IsUnsaved i zero c = (refl, refl)
  each-make_client-IsUnsaved i (suc k) c = each-make_client-IsUnsaved i k c

  start1_ext-IsUnsaved :
      (make : List Text → ℕ → ℕ → N) (i : ℕ) (c : Config N)
      → IsUnsaved (crash1 i c) (start1_ext make i c)
  unfolding start1_ext crash1 disconnect IsUnsaved
  start1_ext-IsUnsaved make i c =
      let crashed = crash1 i c in
      let cleared : Config N = record crashed { endnames = put crashed.endnames i (λ _. []) } in
      let (a, b) = each-name_end-IsUnsaved i c.n cleared in
      let (d, e) = each-make_client-IsUnsaved i c.n (each c.n (name_end i) cleared) in
      (d ∙ a, e ∙ b)

  pub start1_ext-IsRenewed :
      (make : List Text → ℕ → ℕ → N) (i : ℕ) (c : Config N) → IsRenewed i c (start1_ext make i c)
  unfolding IsUnsaved
  start1_ext-IsRenewed make i c =
      let (a, b) = start1_ext-IsUnsaved make i c in
      let (d, e) = crash1-IsRenewed i c in (a ∙ d, ap (λ p. p.next) b ∙ e)
