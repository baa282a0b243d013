-- ===== src/Linearizability/Entries/Build.antt =====
-- `push_front` and `LinkedNodes::from_entries` build a chain of the entries in order.
use key_value_distributed_sy.Base.{
  ℕ, ◌<◌, ◌≡◌, refl, ap, ◌∙◌, subst, false, Option, none, some, List, [], ◌∷◌, ◌==◌, if◌then◌else◌,
  arith, has, head?, length, All, All-mono, IsNodup, Option-cases, inl, inr,
}
use key_value_distributed_sy.Linearizability.Model.{Value}
use key_value_distributed_sy.Linearizability.Nodes.{
  Ptr, Heap, LinkedNodes, set_next, set_prev, alloc, push_front,
}
use key_value_distributed_sy.Linearizability.Nodes.Chain.{Chain}
use key_value_distributed_sy.Linearizability.Nodes.Lift.{SameNodes}
use key_value_distributed_sy.Linearizability.Entries.{
  EntryKind, call_entry, return_entry, Entry, Built, push_kind, from_entries,
}

not-has_fresh : (xs : List Ptr) (p : Ptr) → All (λ x. x < p) xs → has p xs ≡ false
not-has_fresh [] p a = refl
not-has_fresh (x ∷ xs) p a = ground (arith, not-has_fresh xs p a.1)

module _ {V : Type 0} where
  -- The nodes of a list, in order, with all their addresses allocated.
  abbrev pub Links : Heap V → List Ptr → Type 0
  Links h [] = Unit
  Links h (x ∷ xs) = Chain h x xs

  pub record IsListed (nodes : LinkedNodes) (h : Heap V) (xs : List Ptr) : Type 0 where
    pub first : nodes.head ≡ head? xs
    pub links : Links h xs
    pub allocated : All (λ x. x < h.fresh) xs
    pub nodup : IsNodup xs

  -- A new node in front.
  abbrev pub pushed : LinkedNodes → V → Option Ptr → ℕ → Heap V → LinkedNodes × Heap V
  pushed nodes v mt k h = push_front nodes h.fresh (alloc v mt k h).1

  Chain-alloc :
      (v : V) (mt : Option Ptr) (k : ℕ) (h : Heap V) (x : Ptr) (xs : List Ptr)
      → x < h.fresh
      → All (λ y. y < h.fresh) xs
      → Chain h x xs
      → Chain (alloc v mt k h).1 x xs
  Chain-alloc v mt k h x [] lx a c = ground (arith, c)
  Chain-alloc v mt k h x (y ∷ ys) lx a c =
      (ground (arith, c.0), ground (arith, c.1), Chain-alloc v mt k h y ys a.0 a.1 c.2)

  Chain-set :
      (h : Heap V) (p q x : Ptr) (o w : Option Ptr) (xs : List Ptr)
      → has p (x ∷ xs) ≡ false
      → has q xs ≡ false
      → Chain h x xs
      → Chain (set_next p o (set_prev q w h)) x xs
  Chain-set h p q x o w [] np nq c = ground (arith, c)
  Chain-set h p q x o w (y ∷ ys) np nq c = (
    ground (arith, c.0),
    ground (arith, c.1),
    Chain-set h p q y o w ys (ground arith) (ground arith) c.2,
  )

  pub push-IsListed :
      (nodes : LinkedNodes) (v : V) (mt : Option Ptr) (k : ℕ) (h : Heap V) (xs : List Ptr)
      → IsListed nodes h xs
      → IsListed (pushed nodes v mt k h).0 (pushed nodes v mt k h).1 (h.fresh ∷ xs)
  unfolding push_front
  push-IsListed nodes v mt k h [] l = rw l.first (record {
    first = refl;
    links = ground arith;
    allocated = (omega arith, tt);
    nodup = (refl, tt);
  })
  push-IsListed nodes v mt k h (x ∷ xs) l = rw l.first (record {
    first = refl;
    links = (
      ground arith,
      ground arith,
      Chain-set (alloc v mt k h).1 h.fresh x x (some x) (some h.fresh) xs
          (not-has_fresh (x ∷ xs) h.fresh l.allocated) l.nodup.0
          (Chain-alloc v mt k h x xs l.allocated.0 l.allocated.1 l.links),
    );
    allocated = (
      omega arith,
      (omega (arith, l.allocated.0), All-mono xs (λ y t. omega arith) l.allocated.1),
    );
    nodup = (not-has_fresh (x ∷ xs) h.fresh l.allocated, l.nodup);
  })

  pub push_front-SameNodes :
      (nodes : LinkedNodes) (p : Ptr) (h : Heap V) → SameNodes h (push_front nodes p h).1
  unfolding push_front
  push_front-SameNodes nodes p h = elim (Option-cases nodes.head) [
    | inl e ↦ rw e (record { fresh = refl; value = refl; matched = refl; id = refl })
    | inr (q, e) ↦ rw e (record { fresh = refl; value = refl; matched = refl; id = refl })
  ]

module _ {T : Type 0} where
  -- The node of the first return with an identifier.
  abbrev pub find_return : ℕ → List Ptr → List (Entry T) → Option Ptr
  find_return k [] es = none
  find_return k (p ∷ ps) [] = none
  find_return k (p ∷ ps) (x ∷ xs) =
      let r = find_return k ps xs in
      elim x.kind [ call_entry ↦ r | return_entry ↦ if k == x.id then some p else r ]

  -- The match of an entry among the nodes behind it.
  abbrev pub match_ptr : EntryKind → ℕ → List Ptr → List (Entry T) → Option Ptr
  match_ptr call_entry k ps xs = find_return k ps xs
  match_ptr return_entry k ps xs = none

  -- The addresses that the entries get: the last entry is allocated first.
  abbrev pub addresses : List (Entry T) → List Ptr
  addresses [] = []
  addresses (x ∷ xs) = length xs ∷ addresses xs

  -- The nodes of a heap hold the entries of a list, each linked to its match.
  abbrev pub Holds : Heap T → List Ptr → List (Entry T) → Type 0
  Holds h [] [] = Unit
  Holds h [] (x ∷ xs) = ⊥
  Holds h (p ∷ ps) [] = ⊥
  Holds h (p ∷ ps) (x ∷ xs) =
      ((h.value p ≡ x.value) × (h.id p ≡ x.id) × (h.matched p ≡ match_ptr x.kind x.id ps xs))
      × Holds h ps xs

  -- Nodes are written once, when they are allocated.
  pub Holds-push :
      (nodes : LinkedNodes) (v : T) (mt : Option Ptr) (k : ℕ) (h : Heap T) (ps : List Ptr)
      (xs : List (Entry T))
      → All (λ x. x < h.fresh) ps
      → Holds h ps xs
      → Holds (pushed nodes v mt k h).1 ps xs
  Holds-push nodes v mt k h [] [] a w = tt
  Holds-push nodes v mt k h [] (x ∷ xs) a w = w
  Holds-push nodes v mt k h (p ∷ ps) [] a w = w
  Holds-push nodes v mt k h (p ∷ ps) (x ∷ xs) a w =
      let s = push_front-SameNodes nodes h.fresh (alloc v mt k h).1 in
      (
        (
          ap (λ f. f p) s.value ∙ ground (arith, w.0.0),
          ap (λ f. f p) s.id ∙ ground (arith, w.0.1),
          ap (λ f. f p) s.matched ∙ ground (arith, w.0.2),
        ),
        Holds-push nodes v mt k h ps xs a.1 w.1,
      )

module _ {I O : Type 0} where
  pub record IsBuilt (b : Built I O) (es : List (Entry (Value I O))) : Type 0 where
    pub listed : IsListed b.nodes b.heap (addresses es)
    pub fresh : b.heap.fresh ≡ length es
    pub holds : Holds b.heap (addresses es) es
    pub matches : (k : ℕ) → b.matches k ≡ find_return k (addresses es) es

  module _ (b : Built I O) (x : Entry (Value I O)) (xs : List (Entry (Value I O)))
      (mt : Option Ptr) where
    abbrev after : LinkedNodes × Heap (Value I O)
    after = pushed b.nodes x.value mt x.id b.heap

    after-Holds :
        IsBuilt b xs
        → mt ≡ match_ptr x.kind x.id (addresses xs) xs
        → Holds after.1 (addresses (x ∷ xs)) (x ∷ xs)
    after-Holds w e =
        let s = push_front-SameNodes b.nodes b.heap.fresh (alloc x.value mt x.id b.heap).1 in
        (
          (
            ap (λ f. f (length xs)) s.value ∙ ground (arith, w.fresh),
            ap (λ f. f (length xs)) s.id ∙ ground (arith, w.fresh),
            ap (λ f. f (length xs)) s.matched ∙ ground (arith, w.fresh, e),
          ),
          Holds-push b.nodes x.value mt x.id b.heap (addresses xs) xs w.listed.allocated w.holds,
        )

    after-IsListed : IsBuilt b xs → IsListed after.0 after.1 (addresses (x ∷ xs))
    after-IsListed w =
        subst (λ p. IsListed after.0 after.1 (p ∷ addresses xs)) w.fresh
          (push-IsListed b.nodes x.value mt x.id b.heap (addresses xs) w.listed)

    push_fresh : IsBuilt b xs → after.1.fresh ≡ length (x ∷ xs)
    push_fresh w =
        (push_front-SameNodes b.nodes b.heap.fresh (alloc x.value mt x.id b.heap).1).fresh
        ∙ omega (arith, w.fresh)

  push_kind-IsBuilt :
      (kind : EntryKind) (b : Built I O) (x : Entry (Value I O)) (xs : List (Entry (Value I O)))
      → x.kind ≡ kind
      → IsBuilt b xs
      → IsBuilt (push_kind kind x b) (x ∷ xs)
  push_kind-IsBuilt call_entry b x xs e w = record {
    listed = after-IsListed b x xs (b.matches x.id) w;
    fresh = push_fresh b x xs (b.matches x.id) w;
    holds = after-Holds b x xs (b.matches x.id) w (rw e (w.matches x.id));
    matches = λ k. rw e (w.matches k);
  }
  push_kind-IsBuilt return_entry b x xs e w = record {
    listed = after-IsListed b x xs none w;
    fresh = push_fresh b x xs none w;
    holds = after-Holds b x xs none w (rw e refl);
    matches = λ k. rw e (ground (arith, w.matches k, w.fresh));
  }

  -- `from_entries` lists the entries in order, each call linked to the first return behind it that
  -- has its identifier, and each return to nothing.
  pub from_entries-IsBuilt : (es : List (Entry (Value I O))) → IsBuilt (from_entries es) es
  unfolding from_entries
  from_entries-IsBuilt [] = record {
    listed = record { first = refl; links = tt; allocated = tt; nodup = tt };
    fresh = refl;
    holds = tt;
    matches = λ k. refl;
  }
  from_entries-IsBuilt (x ∷ xs) =
      push_kind-IsBuilt x.kind (from_entries xs) x xs refl (from_entries-IsBuilt xs)
