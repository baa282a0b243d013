-- ===== src/Tester/Kv/Names.antt =====
-- The names of the endpoints after the tester was made and after what a test does.
use key_value_distributed_sy.Base.{
  ℕ, ◌+◌, ◌<◌, ◌≡◌, refl, ap, ◌∙◌, sym, subst, false, ◌==◌, ==_iff, Bool-cases, inl, inr,
  if◌then◌else◌, arith,
}
use key_value_distributed_sy.Base.Decimal.{to_string, to_string_inj}
use key_value_distributed_sy.Base.Loops.{put}
use key_value_distributed_sy.Tester.Config.Wired.{put-same, put-other}
use key_value_distributed_sy.Tester.Kv.{KvConfig, fresh_names, ends_of}
use key_value_distributed_sy.Tester.Kv.Loops.{IsApart}

module _ {N : Type 0} where
  -- The endpoints of the first `k` of `n` servers have names of their own.
  pub record IsNamed (n k : ℕ) (c : KvConfig N) : Type 0 where
    pub size : c.n ≡ n
    pub ids : ℕ → ℕ → ℕ
    pub named : (i j : ℕ) → i < k → c.endnames i j ≡ to_string (ids i j)
    pub old : (i j : ℕ) → i < k → j < n → ids i j < c.next_id
    pub apart :
        (i j r l : ℕ) → i < k → j < n → r < k → l < n → ids i j ≡ ids r l → (i ≡ r) × (j ≡ l)

  pub IsNamed-IsApart : (n : ℕ) (c : KvConfig N) → IsNamed n n c → IsApart (ends_of c)
  IsNamed-IsApart n c w i j r l hi hj hr hl e =
      let below : (m : ℕ) → m < c.n → m < n = λ m. subst (λ n. m < n) w.size in
      w.apart i j r l (below i hi) (below j hj) (below r hr) (below l hl) (
        to_string_inj (w.ids i j) (w.ids r l)
          (sym (w.named i j (below i hi)) ∙ e ∙ w.named r l (below r hr)))

  -- What the names depend on is as it was.
  abbrev pub IsSame : KvConfig N → KvConfig N → Type 0
  IsSame c d = (d.n ≡ c.n) × (d.endnames ≡ c.endnames) × (d.next_id ≡ c.next_id)

  pub IsSame-IsNamed : (n k : ℕ) (c d : KvConfig N) → IsSame c d → IsNamed n k c → IsNamed n k d
  IsSame-IsNamed n k c d (e, f, g) w = record {
    size = e ∙ w.size;
    ids = w.ids;
    named = λ i j h. ap (λ f. f i j) f ∙ w.named i j h;
    old = λ i j h l. subst (λ m. w.ids i j < m) (sym g) (w.old i j h l);
    apart = w.apart;
  }

  -- Server `i` has new names.
  abbrev pub IsRenamed : ℕ → KvConfig N → KvConfig N → Type 0
  IsRenamed i c d =
      (d.n ≡ c.n)
      × (d.endnames ≡ put c.endnames i (fresh_names c.next_id))
      × (d.next_id ≡ c.next_id + c.n)

  module _ (n k k' i : ℕ) (c d : KvConfig N) (s : IsRenamed i c d) (w : IsNamed n k c)
      (below : (r : ℕ) → r < k' → (r == i) ≡ false → r < k) where
    new_ids : ℕ → ℕ → ℕ
    new_ids r j = if r == i then c.next_id + j else w.ids r j

    new_id : (r j : ℕ) → r ≡ i → new_ids r j ≡ c.next_id + j
    unfolding new_ids
    new_id r j e = rw e (ground arith)

    old_id : (r j : ℕ) → (r == i) ≡ false → new_ids r j ≡ w.ids r j
    unfolding new_ids
    old_id r j e = rw e refl

    pub IsRenamed-IsNamed : IsNamed n k' d
    IsRenamed-IsNamed = record {
      size = s.0 ∙ w.size;
      ids = new_ids;
      named = λ r j h. ap (λ f. f r j) s.1 ∙ elim (Bool-cases (r == i)) [
        | inl p ↦
            let at = (==_iff r i).0 p in
            ap (λ f. f j) (put-same c.endnames i (fresh_names c.next_id) r at)
            ∙ ap to_string (sym (new_id r j at))
        | inr p ↦
            ap (λ f. f j) (put-other c.endnames i (fresh_names c.next_id) r p)
            ∙ w.named r j (below r h p)
            ∙ ap to_string (sym (old_id r j p))
      ];
      old = λ r j h l.
          let next = s.2 in
          let size = w.size in
          elim (Bool-cases (r == i)) [
            | inl p ↦ let at = new_id r j ((==_iff r i).0 p) in omega arith
            | inr p ↦ let at = old_id r j p in let less = w.old r j (below r h p) l in omega arith
          ];
      apart = λ r j q l hr hj hq hl e. elim (Bool-cases (r == i)) [
        | inl p ↦
            let at = (==_iff r i).0 p in
            let id = new_id r j at in
            elim (Bool-cases (q == i)) [
              | inl p' ↦
                  let at' = (==_iff q i).0 p' in
                  let id' = new_id q l at' in (at ∙ sym at', omega arith)
              | inr p' ↦
                  let id' = old_id q l p' in
                  let less = w.old q l (below q hq p') hl in absurd (omega arith)
            ]
        | inr p ↦
            let id = old_id r j p in
            let less = w.old r j (below r hr p) hj in
            elim (Bool-cases (q == i)) [
              | inl p' ↦ let id' = new_id q l ((==_iff q i).0 p') in absurd (omega arith)
              | inr p' ↦
                  w.apart r j q l (below r hr p) hj (below q hq p') hl (sym id ∙ e ∙ old_id q l p')
            ]
      ];
    }
