-- ===== src/Linearizability/Nodes/Chain.antt =====
-- Doubly linked chains: taking a node out, and putting it back where it was.
use key_value_distributed_sy.Base.{
  ◌≡◌, ◌≢◌, refl, ap, fun_ext, ◌∙◌, sym, subst, true, false, Option, none, some, List, [], ◌∷◌,
  ◌==◌, arith, has, IsNodup, head?, keep, Bool-cases, inl, inr, not,
}
use key_value_distributed_sy.Linearizability.Nodes.{Ptr, Heap, update, set_next, set_prev}

update_back :
    {A : Type 0} (f : Ptr → A) (p : Ptr) (v w : A) → f p ≡ w → update (update f p v) p w ≡ f
update_back f p v w e = fun_ext λ q. ground arith

abbrev pub without : Ptr → List Ptr → List Ptr
without x = keep (λ y. not (y == x))

pub without_absent : (x : Ptr) (xs : List Ptr) → has x xs ≡ false → without x xs ≡ xs
without_absent x [] h = refl
without_absent x (y ∷ ys) h = ground (arith, without_absent x ys)

has-head? : (xs : List Ptr) (n : Ptr) → head? xs ≡ some n → has n xs ≡ true
has-head? [] n e = cc
has-head? (x ∷ xs) n e = ground arith

without_self : (x : Ptr) (xs : List Ptr) → has x xs ≡ false → without x (x ∷ xs) ≡ xs
without_self x xs h = ground (arith, without_absent x xs h)

without_ne : (x y : Ptr) (xs : List Ptr) → (x == y) ≡ false → without x (y ∷ xs) ≡ y ∷ without x xs
without_ne x y xs h = ground arith

has_ne : (p q : Ptr) (xs : List Ptr) → has p xs ≡ false → has q xs ≡ true → q ≢ p
has_ne p q xs h k e = ground arith

module _ {V : Type 0} where
  -- From `p` the links lead through `xs`, both ways, and end there.
  abbrev pub Chain : Heap V → Ptr → List Ptr → Type 0
  Chain h p [] = h.next p ≡ none
  Chain h p (x ∷ xs) = (h.next p ≡ some x) × (h.prev x ≡ some p) × Chain h x xs

  -- One node out of its chain and back again, between `p` and what follows: the halves of `lift`
  -- and `unlift` that concern one node.
  abbrev pub cut : Ptr → Option Ptr → Heap V → Heap V
  cut p none h = set_next p none h
  cut p (some n) h = set_prev n (some p) (set_next p (some n) h)

  abbrev pub join : Ptr → Ptr → Option Ptr → Heap V → Heap V
  join p x none h = set_next p (some x) h
  join p x (some n) h = set_prev n (some x) (set_next p (some x) h)

  -- What a node's neighbours say of it.
  pub record IsLinked (h : Heap V) (p x : Ptr) (o : Option Ptr) : Type 0 where
    pub before : h.prev x ≡ some p
    pub from_before : h.next p ≡ some x
    pub apart : p ≢ x
    pub after : h.next x ≡ o
    pub back : (n : Ptr) → o ≡ some n → (h.prev n ≡ some x) × (n ≢ x)

  pub join-cut :
      (h : Heap V) (p x : Ptr) (o : Option Ptr) → IsLinked h p x o → join p x o (cut p o h) ≡ h
  join-cut h p x none l =
      ap (λ f. record h { next = f }) (update_back h.next p none (some x) l.from_before)
  join-cut h p x (some n) l =
      ap (λ f. record h { next = f; prev = update (update h.prev n (some p)) n (some x) })
        (update_back h.next p (some n) (some x) l.from_before)
      ∙ ap (λ f. record h { prev = f }) (update_back h.prev n (some p) (some x) (l.back n refl).0)

  -- The node itself keeps its links while it is out.
  pub cut-links :
      (h : Heap V) (p x : Ptr) (o : Option Ptr)
      → IsLinked h p x o
      → ((cut p o h).next x ≡ o) × ((cut p o h).prev x ≡ some p)
  cut-links h p x none l = ground (arith, l.after, l.before)
  cut-links h p x (some n) l = ground (arith, l.after, l.before, l.back n)

  pub cut-frame : (h : Heap V) (p q : Ptr) (o : Option Ptr) → q ≢ p → (cut p o h).next q ≡ h.next q
  cut-frame h p q none l = ground arith
  cut-frame h p q (some n) l = ground arith

  pub cut-frame_prev :
      (h : Heap V) (p q : Ptr) (o : Option Ptr) → o ≢ some q → (cut p o h).prev q ≡ h.prev q
  cut-frame_prev h p q none l = refl
  cut-frame_prev h p q (some n) l = elim (Bool-cases (q == n)) [
    | inl e ↦ absurd (l (ground arith))
    | inr e ↦ rw e
  ]

  Chain-cut_frame :
      (h : Heap V) (p y z : Ptr) (zs : List Ptr)
      → Chain h z zs
      → has p (z ∷ zs) ≡ false
      → has y zs ≡ false
      → Chain (cut p (some y) h) z zs
  Chain-cut_frame h p y z [] ch np ny = ground arith
  Chain-cut_frame h p y z (w ∷ ws) ch np ny =
      (ground arith, ground arith, Chain-cut_frame h p y w ws ch.2 (ground arith) (ground arith))

  Chain-cut_head :
      (h : Heap V) (p x : Ptr) (xs : List Ptr)
      → Chain h x xs
      → has p xs ≡ false
      → IsNodup xs
      → Chain (cut p (head? xs) h) p xs
  Chain-cut_head h p x [] c b d = ground arith
  Chain-cut_head h p x (y ∷ ys) c b d =
      (ground arith, ground arith, Chain-cut_frame h p y y ys c.2 b d.0)

  pub Chain-head? : (h : Heap V) (p : Ptr) (xs : List Ptr) → Chain h p xs → h.next p ≡ head? xs
  Chain-head? h p [] c = c
  Chain-head? h p (x ∷ xs) c = c.0

  Chain-back :
      (h : Heap V) (x : Ptr) (xs : List Ptr)
      → Chain h x xs
      → has x xs ≡ false
      → (n : Ptr) → head? xs ≡ some n
      → (h.prev n ≡ some x) × (n ≢ x)
  Chain-back h x [] c b n e = (cc, cc)
  Chain-back h x (y ∷ ys) c b n e = (ground arith, λ d. ground arith)

  -- A node of a chain can be cut out, and what is left is a chain.
  pub record Cut (h : Heap V) (p x : Ptr) (xs : List Ptr) : Type 0 where
    pub left : Ptr
    pub right : Option Ptr
    pub linked : IsLinked h left x right
    pub left_in : has left (p ∷ xs) ≡ true
    pub right_in : (n : Ptr) → right ≡ some n → has n xs ≡ true
    pub chain : Chain (cut left right h) p (without x xs)

  pub Cut-out :
      (h : Heap V) (p x : Ptr) (xs : List Ptr)
      → Chain h p xs
      → IsNodup (p ∷ xs)
      → has x xs ≡ true
      → Cut h p x xs
  Cut-out h p x [] c d m = cc
  Cut-out h p x (y ∷ ys) c d m = elim (Bool-cases (x == y)) [
    | inl e ↦
        let xy : x ≡ y = ground arith in
        rw xy (record {
          left = p;
          right = head? ys;
          linked = record {
            before = c.1;
            from_before = c.0;
            apart = λ e. ground arith;
            after = Chain-head? h y ys c.2;
            back = Chain-back h y ys c.2 d.1.0;
          };
          left_in = ground arith;
          right_in = λ n e. ground (arith, has-head? ys n);
          chain =
              subst (Chain (cut p (head? ys) h) p) (sym (without_self y ys d.1.0))
                (Chain-cut_head h p y ys c.2 (ground arith) d.1.1);
        })
    | inr e ↦
        let r = Cut-out h y x ys c.2 d.1 (ground arith) in
        record {
          left = r.left;
          right = r.right;
          linked = r.linked;
          left_in = ground (arith, r.left_in);
          right_in = λ n q. ground (arith, r.right_in n);
          chain = subst (Chain (cut r.left r.right h) p) (sym (without_ne x y ys e)) (
            cut-frame h r.left p r.right (λ q. has_ne p r.left (y ∷ ys) d.0 r.left_in (sym q))
                ∙ c.0,
            cut-frame_prev h r.left y r.right (λ q. has_ne y y ys d.1.0 (r.right_in y q) refl)
                ∙ c.1,
            r.chain,
          );
        }
  ]
