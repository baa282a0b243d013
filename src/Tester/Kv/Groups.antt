-- ===== src/Tester/Kv/Groups.antt =====
-- What `partition` does to the endpoints.
use key_value_distributed_sy.Base.{
  ℕ, ◌<◌, ◌≡◌, refl, subst, Bool, true, false, ◌&&◌, ◌||◌, Option, some, List, inl, inr, Bool-cases,
  if◌then◌else◌, has, arith,
}
use key_value_distributed_sy.Labrpc.Network.{NetworkCore}
use key_value_distributed_sy.Tester.Config.Ends.{is_enabled}
use key_value_distributed_sy.Tester.Kv.{each_of, Ends, isolate}
use key_value_distributed_sy.Tester.Kv.{partition}
use key_value_distributed_sy.Tester.Kv.Each.{bind-some, each_of-keeps, each_of-hits}
use key_value_distributed_sy.Tester.Kv.Loops.{
  IsApart, Touches, Fits, isolate-keeps, isolate-connects, isolate-disconnects,
}

-- No server is in both groups.
abbrev pub IsDisjoint : List ℕ → List ℕ → Type 0
IsDisjoint p1 p2 = (i : ℕ) → has i p1 ≡ true → has i p2 ≡ true → ⊥

-- What the endpoint from one server to another, which was `before`, is after the partition.
abbrev pub linked : List ℕ → List ℕ → ℕ → ℕ → Option Bool → Option Bool
linked p1 p2 a b before =
    if (has a p1 && has b p1) || (has a p2 && has b p2)
    then some true
    else if (has a p1 && has b p2) || (has a p2 && has b p1)
    then some false
    else before

module _ (ends : Ends) (apart : IsApart ends) (p1 p2 : List ℕ) (disjoint : IsDisjoint p1 p2)
    (a b : ℕ) (a_in : a < ends.n) (b_in : b < ends.n) where
  abbrev at : NetworkCore → Option Bool
  at net = is_enabled net (ends.endnames a b)

  -- `v` is what the groups say of the endpoint, as far as they say anything.
  record IsVerdict (v : Option Bool) : Type 0 where
    pub inside : ((has a p1 && has b p1) || (has a p2 && has b p2)) ≡ true → v ≡ some true
    pub outside : ((has a p1 && has b p2) || (has a p2 && has b p1)) ≡ true → v ≡ some false

  touched-has :
      (v : Option Bool) (x y : List ℕ) (i j : ℕ)
      → Touches ends apart a b a_in b_in v i j
      → has i x ≡ true
      → has j y ≡ true
      → ((has a x && has b y) || (has a y && has b x)) ≡ true
  touched-has v x y i j (inl (p, q)) h k =
      let ha : has a x ≡ true = subst (λ i. has i x ≡ true) p h in
      let hb : has b y ≡ true = subst (λ j. has j y ≡ true) q k in rw (ha, hb) refl
  touched-has v x y i j (inr (p, q)) h k =
      let ha : has a y ≡ true = subst (λ j. has j y ≡ true) p k in
      let hb : has b x ≡ true = subst (λ i. has i x ≡ true) q h in
      elim (Bool-cases (has a x && has b y)) [ inl e ↦ rw e refl | inr e ↦ rw (e, ha, hb) refl ]

  only_one : (i : ℕ) → (has i p1 && has i p2) ≡ false
  only_one i = elim (Bool-cases (has i p1)) [
    | inr e ↦ rw e refl
    | inl e ↦ elim (Bool-cases (has i p2)) [
      | inr f ↦ rw (e, f) refl
      | inl f ↦ absurd (disjoint i e f)
    ]
  ]

  not_both :
      ((has a p1 && has b p1) || (has a p2 && has b p2)) ≡ true
      → ((has a p1 && has b p2) || (has a p2 && has b p1)) ≡ true
      → ⊥
  not_both h k =
      let one_a = only_one a in
      let one_b = only_one b in absurd (ground (arith, h, k, one_a, one_b))

  module _ (v : Option Bool) (w : IsVerdict v) where
    first-Fits : (i : ℕ) → has i p1 ≡ true → Fits ends apart a b a_in b_in v i p1 true
    first-Fits i h j k t =
        let in_p1 = touched-has v p1 p1 i j t h k in w.inside (ground (arith, in_p1))

    first-keeps :
        (i : ℕ)
        → has i p1 ≡ true
        → (net net' : NetworkCore) → isolate ends p1 p2 i net ≡ some net'
        → at net ≡ v
        → at net' ≡ v
    first-keeps i h net net' =
        isolate-keeps ends apart a b a_in b_in v p1 p2 i net net' (first-Fits i h)
          (λ j k t. w.outside (touched-has v p1 p2 i j t h k))

    second-keeps :
        (i : ℕ)
        → has i p2 ≡ true
        → (net net' : NetworkCore) → isolate ends p2 p1 i net ≡ some net'
        → at net ≡ v
        → at net' ≡ v
    second-keeps i h net net' =
        isolate-keeps ends apart a b a_in b_in v p2 p1 i net net'
          (λ j k t. let in_p2 = touched-has v p2 p2 i j t h k in w.inside (ground (arith, in_p2)))
          (λ j k t.
            let in_both = touched-has v p2 p1 i j t h k in w.outside (ground (arith, in_both)))

    second_loop-keeps :
        (net net' : NetworkCore)
        → each_of p2 (isolate ends p2 p1) net ≡ some net'
        → at net ≡ v
        → at net' ≡ v
    second_loop-keeps net net' =
        each_of-keeps (λ net. at net ≡ v) (isolate ends p2 p1) p2 (λ i. second-keeps i) net net'

    first_loop-keeps :
        (net net' : NetworkCore)
        → each_of p1 (isolate ends p1 p2) net ≡ some net'
        → at net ≡ v
        → at net' ≡ v
    first_loop-keeps net net' =
        each_of-keeps (λ net. at net ≡ v) (isolate ends p1 p2) p1 (λ i. first-keeps i) net net'

    first_loop-hits :
        (k : ℕ)
        → has k p1 ≡ true
        → ((net net' : NetworkCore) → isolate ends p1 p2 k net ≡ some net' → at net' ≡ v)
        → (net net' : NetworkCore) → each_of p1 (isolate ends p1 p2) net ≡ some net'
        → at net' ≡ v
    first_loop-hits k h hits net net' =
        each_of-hits (λ net. at net ≡ v) (isolate ends p1 p2) k p1 h (λ i. first-keeps i) hits net
          net'

    second_loop-hits :
        (k : ℕ)
        → has k p2 ≡ true
        → ((net net' : NetworkCore) → isolate ends p2 p1 k net ≡ some net' → at net' ≡ v)
        → (net net' : NetworkCore) → each_of p2 (isolate ends p2 p1) net ≡ some net'
        → at net' ≡ v
    second_loop-hits k h hits net net' =
        each_of-hits (λ net. at net ≡ v) (isolate ends p2 p1) k p2 h (λ i. second-keeps i) hits net
          net'

  module _ (net mid net' : NetworkCore) (first : each_of p1 (isolate ends p1 p2) net ≡ some mid)
      (second : each_of p2 (isolate ends p2 p1) mid ≡ some net') where
    together : ((has a p1 && has b p1) || (has a p2 && has b p2)) ≡ true → at net' ≡ some true
    together h =
        let w : IsVerdict (some true) = record {
          inside = λ _. refl;
          outside = λ k. absurd (not_both h k);
        } in
        elim (Bool-cases (has a p1 && has b p1)) [
          | inl e ↦ second_loop-keeps (some true) w mid net' second (
              first_loop-hits (some true) w a (ground (arith, e))
                (λ s s'.
                  isolate-connects ends apart a b a_in b_in p1 p2 a s s'
                    (inl (refl, ground (arith, e))))
                net mid first)
          | inr e ↦
              second_loop-hits (some true) w a (ground (arith, e, h))
                (λ s s'.
                  isolate-connects ends apart a b a_in b_in p2 p1 a s s'
                    (inl (refl, ground (arith, e, h))))
                mid net' second
        ]

    separated : ((has a p1 && has b p2) || (has a p2 && has b p1)) ≡ true → at net' ≡ some false
    separated h =
        let w : IsVerdict (some false) = record {
          inside = λ k. absurd (not_both k h);
          outside = λ _. refl;
        } in
        elim (Bool-cases (has a p1 && has b p2)) [
          | inl e ↦ second_loop-keeps (some false) w mid net' second (
              first_loop-hits (some false) w a (ground (arith, e))
                (λ s s'.
                  isolate-disconnects ends apart a b a_in b_in p1 p2 a s s'
                    (inl (refl, ground (arith, e)))
                    (first-Fits (some false) w a (ground (arith, e))))
                net mid first)
          | inr e ↦ second_loop-keeps (some false) w mid net' second (
              first_loop-hits (some false) w b (ground (arith, e, h))
                (λ s s'.
                  isolate-disconnects ends apart a b a_in b_in p1 p2 b s s'
                    (inr (refl, ground (arith, e, h)))
                    (first-Fits (some false) w b (ground (arith, e, h))))
                net mid first)
        ]

    linked-loops : at net' ≡ linked p1 p2 a b (at net)
    linked-loops = elim (Bool-cases ((has a p1 && has b p1) || (has a p2 && has b p2))) [
      | inl e ↦ rw e (together e)
      | inr e ↦ elim (Bool-cases ((has a p1 && has b p2) || (has a p2 && has b p1))) [
        | inl f ↦ rw (e, f) (separated f)
        | inr f ↦
            let w : IsVerdict (at net) = record {
              inside = λ k. absurd cc;
              outside = λ k. absurd cc;
            } in
            rw (e, f)
              (second_loop-keeps (at net) w mid net' second
                (first_loop-keeps (at net) w net mid first refl))
      ]
    ]

-- A partition into two groups without a server in common, of servers whose endpoints have names of
-- their own: if no index is out of bounds, the endpoints within each group are enabled then, those
-- from one group to the other are disabled, and those of the other servers are as they were.
pub partition-linked :
    (ends : Ends) (p1 p2 : List ℕ) (net net' : NetworkCore)
    → IsApart ends
    → IsDisjoint p1 p2
    → partition ends p1 p2 net ≡ some net'
    → (a b : ℕ) → a < ends.n
    → b < ends.n
    → is_enabled net' (ends.endnames a b) ≡ linked p1 p2 a b (is_enabled net (ends.endnames a b))
unfolding partition
partition-linked ends p1 p2 net net' apart disjoint e a b a_in b_in =
    let (mid, first, second) =
      bind-some (each_of p1 (isolate ends p1 p2) net) (each_of p2 (isolate ends p2 p1)) net' e in
    linked-loops ends apart p1 p2 disjoint a b a_in b_in net mid net' first second
