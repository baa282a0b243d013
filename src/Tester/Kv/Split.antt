-- ===== src/Tester/Kv/Split.antt =====
-- The groups that `make_partition` makes.
use key_value_distributed_sy.Base.{
  ℕ, zero, suc, ◌+◌, ◌/◌, ◌<◌, ◌≤◌, ◌≡◌, refl, ◌∙◌, sym, Bool, true, false, ◌&&◌, ◌||◌, not, Option,
  none, some, some_inj, List, [], ◌∷◌, ◌++◌, ltb, ◌==◌, Bool-cases, Option-cases, ◌⊎◌, inl, inr,
  if◌then◌else◌, length, has, arith,
}
use key_value_distributed_sy.Base.Loops.{each}
use key_value_distributed_sy.Tester.Kv.{claims, leader_before, place, make_partition}

has-append : (i y : ℕ) (xs : List ℕ) → has i (xs ++ y ∷ []) ≡ (has i xs || (i == y))
has-append i y [] = ground arith
has-append i y (x ∷ xs) =
    let rest = has-append i y xs in
    elim (Bool-cases (i == x)) [ inl e ↦ rw e refl | inr e ↦ rw (e, rest) refl ]

length-append : (y : ℕ) (xs : List ℕ) → length (xs ++ y ∷ []) ≡ length xs + 1
length-append y [] = refl
length-append y (x ∷ xs) = let rest = length-append y xs in omega arith

-- The groups after the turns for the servers below `k`.
record IsPlaced (n l k : ℕ) (g : List ℕ × List ℕ) : Type 0 where
  pub somewhere : (i : ℕ) → (has i g.0 || has i g.1) ≡ (ltb i k && not (i == l))
  pub once : (i : ℕ) → (has i g.0 && has i g.1) ≡ false
  pub total : length g.0 + length g.1 + (if ltb l k then 1 else 0) ≡ k
  pub filled : (length g.0 ≤ n / 2 + 1) × ((length g.1 ≡ 0) ⊎ (length g.0 ≡ n / 2 + 1))

module _ (n l k : ℕ) where
  place-IsPlaced : (g : List ℕ × List ℕ) → IsPlaced n l k g → IsPlaced n l (suc k) (place n l k g)
  place-IsPlaced (p1, p2) w = elim (Bool-cases (k == l)) [
    | inl e ↦ rw e (record {
      somewhere = λ i. let s = w.somewhere i in ground (arith, s, e);
      once = w.once;
      total = let t = w.total in ground (arith, t, e);
      filled = w.filled;
    })
    | inr e ↦ elim (Bool-cases (ltb (length p1) (n / 2 + 1))) [
      | inl f ↦
          rw (e, f)
            (record {
              somewhere =
                  λ i. let s = w.somewhere i in rw (has-append i k p1) (ground (arith, s, e));
              once = λ i.
                  let o = w.once i in
                  let s = w.somewhere i in rw (has-append i k p1) (ground (arith, s, o, e));
              total = let t = w.total in rw (length-append k p1) (ground (arith, t, e));
              filled =
                  let (at_most, full) = w.filled in
                  (
                    rw (length-append k p1) (ground (arith, f)),
                    elim full [ inl z ↦ inl z | inr z ↦ absurd (ground (arith, f, z)) ],
                  );
            })
      | inr f ↦
          rw (e, f)
            (record {
              somewhere =
                  λ i. let s = w.somewhere i in rw (has-append i k p2) (ground (arith, s, e));
              once = λ i.
                  let o = w.once i in
                  let s = w.somewhere i in rw (has-append i k p2) (ground (arith, s, o, e));
              total = let t = w.total in rw (length-append k p2) (ground (arith, t, e));
              filled =
                  let (at_most, full) = w.filled in (at_most, inr (ground (arith, f, at_most)));
            })
    ]
  ]

each-IsPlaced : (n l k : ℕ) → IsPlaced n l k (each k (place n l) ([], []))
each-IsPlaced n l zero = record {
  somewhere = λ i. ground arith;
  once = λ i. refl;
  total = ground arith;
  filled = (omega arith, inl refl);
}
each-IsPlaced n l (suc k) = place-IsPlaced n l k (each k (place n l) ([], [])) (each-IsPlaced n l k)

-- The groups for a leader `l` of `n` servers: each server is in one of them, and the leader in the
-- second.
pub record IsSplit (n l : ℕ) (g : List ℕ × List ℕ) : Type 0 where
  pub everywhere : (i : ℕ) → (has i g.0 || has i g.1) ≡ ltb i n
  pub once : (i : ℕ) → (has i g.0 && has i g.1) ≡ false
  pub leads : has l g.1 ≡ true
  pub total : length g.0 + length g.1 ≡ n
  pub majority : 3 ≤ n → length g.0 ≡ n / 2 + 1

-- For at least one server, and a leader among the servers, each server is in one of the groups,
-- and the leader in the second; of at least three servers, the first group has more than a half.
pub make_partition-IsSplit : (n l : ℕ) → l < n → IsSplit n l (make_partition n l)
unfolding make_partition
make_partition-IsSplit n l h =
    let w = each-IsPlaced n l n in
    let (q1, q2) = each n (place n l) ([], []) in
    record {
      everywhere = λ i. let s = w.somewhere i in rw (has-append i l q2) (ground (arith, s, h));
      once = λ i.
          let s = w.somewhere i in
          let o = w.once i in rw (has-append i l q2) (ground (arith, s, o));
      leads = rw (has-append l l q2) (ground arith);
      total = let t = w.total in rw (length-append l q2) (ground (arith, t, h));
      majority = λ m.
          let t = w.total in
          let (at_most, full) = w.filled in
          elim full [
            | inl z ↦ let sum : length q1 + length q2 + 1 ≡ n = ground (arith, t, h) in omega arith
            | inr z ↦ z
          ];
    }

pub leader_before-lt :
    {N : Type 0} (is_leader : N → Bool) (kvservers : ℕ → Option N) (k i : ℕ)
    → leader_before is_leader kvservers k ≡ some i
    → i < k
leader_before-lt is_leader kvservers zero i e = absurd cc
leader_before-lt is_leader kvservers (suc k) i e =
    elim (Option-cases (leader_before is_leader kvservers k)) [
      | inl z ↦ elim (Bool-cases (claims is_leader kvservers (kvservers k))) [
        | inl c ↦
            let at : some k ≡ some i = sym (rw (z, c) refl) ∙ e in
            let same = some_inj at in omega arith
        | inr c ↦ let at : none ≡ some i = sym (rw (z, c) refl) ∙ e in absurd cc
      ]
      | inr (j, z) ↦
          let less = leader_before-lt is_leader kvservers k j z in
          let at : some j ≡ some i = sym (rw z refl) ∙ e in let same = some_inj at in omega arith
    ]
