-- ===== src/Linearizability/Nodes/Lift.antt =====
-- `lift` takes an entry and its match out of the list, and `unlift` undoes it cell for cell.
use key_value_distributed_sy.Base.{
  ◌>>=◌, ◌≡◌, ◌≢◌, refl, ap, ◌∙◌, sym, subst, true, false, Option, none, some, List, [], ◌∷◌, ◌==◌,
  ◌&&◌, not, Bool-cases, inl, inr, arith, has, IsNodup,
}
use key_value_distributed_sy.Linearizability.Nodes.{
  Ptr, Heap, take_out, take_out_match, put_back, put_back_match, lift, unlift,
}
use key_value_distributed_sy.Linearizability.Nodes.Chain.{
  Chain, cut, join, IsLinked, join-cut, cut-links, without, Cut, Cut-out,
}

apart_test : (p x : Ptr) → p ≢ x → (x == p) ≡ false
apart_test p x d = ground arith

module _ {V : Type 0} where
  take_out-cut :
      (h : Heap V) (x p n : Ptr) → IsLinked h p x (some n) → take_out x h ≡ some (cut p (some n) h)
  unfolding take_out
  take_out-cut h x p n l = rw (l.before, apart_test p x l.apart, l.after)

  take_out_match-cut :
      (h : Heap V) (x p : Ptr) (o : Option Ptr)
      → IsLinked h p x o
      → take_out_match x h ≡ some (cut p o h)
  unfolding take_out_match
  take_out_match-cut h x p none l = rw (l.before, apart_test p x l.apart, l.after)
  take_out_match-cut h x p (some n) l = rw (l.before, apart_test p x l.apart, l.after)

  put_back-join :
      (h : Heap V) (x p n : Ptr)
      → p ≢ x
      → h.prev x ≡ some p
      → h.next x ≡ some n
      → put_back x h ≡ some (join p x (some n) h)
  unfolding put_back
  put_back-join h x p n d b a = rw (b, apart_test p x d, a)

  put_back_match-join :
      (h : Heap V) (x p : Ptr) (o : Option Ptr)
      → p ≢ x
      → h.prev x ≡ some p
      → h.next x ≡ o
      → put_back_match x h ≡ some (join p x o h)
  unfolding put_back_match
  put_back_match-join h x p none d b a = rw (b, apart_test p x d, a)
  put_back_match-join h x p (some n) d b a = rw (b, apart_test p x d, a)

bind_some :
    {A B : Type 0} {o : Option A} {a : A} (f : A → Option B) {r : Option B}
    → o ≡ some a
    → f a ≡ r
    → (o >>= f) ≡ r
bind_some f e q = rw e q

has-without : (x y : Ptr) (xs : List Ptr) → has y (without x xs) ≡ (has y xs && not (y == x))
has-without x y [] = refl
has-without x y (z ∷ zs) = ground (arith, has-without x y zs)

pub IsNodup-without : (x : Ptr) (xs : List Ptr) → IsNodup xs → IsNodup (without x xs)
IsNodup-without x [] d = tt
IsNodup-without x (y ∷ ys) d = elim (Bool-cases (y == x)) [
  | inl e ↦
      let q : without x (y ∷ ys) ≡ without x ys = ground (arith, e) in
      subst IsNodup (sym q) (IsNodup-without x ys d.1)
  | inr e ↦
      let q : without x (y ∷ ys) ≡ y ∷ without x ys = ground (arith, e) in
      subst IsNodup (sym q) (ground (arith, has-without x y ys, d.0), IsNodup-without x ys d.1)
]

module _ {V : Type 0} where
  -- Everything of the cells but their links.
  pub record SameNodes (h g : Heap V) : Type 0 where
    pub fresh : g.fresh ≡ h.fresh
    pub value : g.value ≡ h.value
    pub matched : g.matched ≡ h.matched
    pub id : g.id ≡ h.id

  cut-SameNodes : (h : Heap V) (p : Ptr) (o : Option Ptr) → SameNodes h (cut p o h)
  cut-SameNodes h p none = record { fresh = refl; value = refl; matched = refl; id = refl }
  cut-SameNodes h p (some n) = record { fresh = refl; value = refl; matched = refl; id = refl }

  SameNodes-trans : {h g k : Heap V} → SameNodes h g → SameNodes g k → SameNodes h k
  SameNodes-trans a b = record {
    fresh = b.fresh ∙ a.fresh;
    value = b.value ∙ a.value;
    matched = b.matched ∙ a.matched;
    id = b.id ∙ a.id;
  }

  -- What `lift` makes of a chain with an entry and its match in it, and what `unlift` makes of that.
  pub record Lifted (h : Heap V) (head e m : Ptr) (xs : List Ptr) : Type 0 where
    pub after : Heap V
    pub lifts : lift e h ≡ some after
    pub restores : unlift e after ≡ some h
    pub chain : Chain after head (without m (without e xs))
    pub nodes : SameNodes h after

  lifted :
      (h : Heap V) (head e m n : Ptr) (xs : List Ptr)
      → h.matched e ≡ some m
      → (c : Cut h head e xs) → c.right ≡ some n
      → Cut (cut c.left (some n) h) head m (without e xs)
      → Lifted h head e m xs
  unfolding lift unlift
  lifted h head e m n xs k c r d =
      let l : IsLinked h c.left e (some n) = subst (IsLinked h c.left e) r c.linked in
      let h1 = cut c.left (some n) h in
      let h2 = cut d.left d.right h1 in
      let s = cut-SameNodes h1 d.left d.right in
      let b1 = cut-links h1 d.left m d.right d.linked in
      let b0 = cut-links h c.left e (some n) l in
      record {
        after = h2;
        lifts =
            bind_some _ (take_out-cut h e c.left n l)
              (bind_some _ k (take_out_match-cut h1 m d.left d.right d.linked));
        restores = bind_some _ (ap (λ f. f e) s.matched ∙ k) (
            bind_some _
              (put_back_match-join h2 m d.left d.right d.linked.apart b1.1 b1.0
                ∙ ap some (join-cut h1 d.left m d.right d.linked))
              (put_back-join h1 e c.left n l.apart b0.1 b0.0
                ∙ ap some (join-cut h c.left e (some n) l)));
        chain = d.chain;
        nodes = SameNodes-trans (cut-SameNodes h c.left (some n)) s;
      }

  -- For an entry with a node behind it and a match other than itself, both in a chain of nodes of
  -- which none occurs twice: `lift` succeeds, what is left is the chain without the two, and `unlift` gives back the heap it was made from, cell for cell.
  pub lift_lem :
      (h : Heap V) (head e m n : Ptr) (xs : List Ptr)
      → Chain h head xs
      → IsNodup (head ∷ xs)
      → has e xs ≡ true
      → has m xs ≡ true
      → m ≢ e
      → h.matched e ≡ some m
      → h.next e ≡ some n
      → Lifted h head e m xs
  lift_lem h head e m n xs ch d he hm ne k nx =
      let c = Cut-out h head e xs ch d he in
      let r : c.right ≡ some n = sym c.linked.after ∙ nx in
      let d' : IsNodup (head ∷ without e xs) =
        (ground (arith, has-without e head xs, d.0), IsNodup-without e xs d.1) in
      let ch' : Chain (cut c.left (some n) h) head (without e xs) =
        subst (λ o. Chain (cut c.left o h) head (without e xs)) r c.chain in
      let hm' : has m (without e xs) ≡ true =
        ground (arith, has-without e m xs, apart_test e m (λ q. ne (sym q))) in
      lifted h head e m n xs k c r
        (Cut-out (cut c.left (some n) h) head m (without e xs) ch' d' hm')
