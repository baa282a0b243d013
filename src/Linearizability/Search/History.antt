-- ===== src/Linearizability/Search/History.antt =====
-- How a history shrinks when an operation is taken out of it.
use key_value_distributed_sy.Base.{
  ℕ, ◌+◌, ◌≤◌, ◌<◌, ◌≡◌, refl, ap, ◌∙◌, sym, subst, Bool, true, false, ◌&&◌, ◌||◌, not, none, some,
  List, [], ◌∷◌, ◌==◌, if◌then◌else◌, arith, has, IsNodup, keep, length, Bool-cases, Option-cases,
  inl, inr,
}
use key_value_distributed_sy.Linearizability.Bitset.{Bitset, mem}
use key_value_distributed_sy.Linearizability.Model.{Value}
use key_value_distributed_sy.Linearizability.Nodes.{Ptr, Heap}
use key_value_distributed_sy.Linearizability.Nodes.Chain.{without}
use key_value_distributed_sy.Linearizability.Search.Spec.{
  drop_id, has_return, IsHistory, HasUniqueIds,
}

keep_ext :
    (f g : Ptr → Bool) (xs : List Ptr)
    → ((x : Ptr) → has x xs ≡ true → f x ≡ g x)
    → keep f xs ≡ keep g xs
keep_ext f g [] h = refl
keep_ext f g (x ∷ xs) h =
    let ih = keep_ext f g xs (λ y k. h y (ground arith)) in ground (arith, h x (ground arith), ih)

keep-keep : (f g : Ptr → Bool) (xs : List Ptr) → keep g (keep f xs) ≡ keep (λ x. f x && g x) xs
keep-keep f g [] = refl
keep-keep f g (x ∷ xs) = ground (arith, keep-keep f g xs)

pub has-keep : (f : Ptr → Bool) (y : Ptr) (xs : List Ptr) → has y (keep f xs) ≡ (has y xs && f y)
has-keep f y [] = refl
has-keep f y (z ∷ zs) = elim (Bool-cases (y == z)) [
  | inl e ↦ let q : y ≡ z = ground arith in rw q (ground (arith, has-keep f z zs))
  | inr e ↦ ground (arith, has-keep f y zs)
]

pub length-keep : (f : Ptr → Bool) (xs : List Ptr) → length (keep f xs) ≤ length xs
length-keep f [] = omega arith
length-keep f (x ∷ xs) = ground (arith, length-keep f xs)

pub has_of_keep :
    (f : Ptr → Bool) (y : Ptr) (xs : List Ptr)
    → has y (keep f xs) ≡ true
    → (has y xs ≡ true) × (f y ≡ true)
has_of_keep f y xs h = ground (arith, has-keep f y xs)

pub IsNodup-keep : (f : Ptr → Bool) (xs : List Ptr) → IsNodup xs → IsNodup (keep f xs)
IsNodup-keep f [] d = tt
IsNodup-keep f (x ∷ xs) d = elim (Bool-cases (f x)) [
  | inl e ↦
      let q : keep f (x ∷ xs) ≡ x ∷ keep f xs = ground (arith, e) in
      subst IsNodup (sym q) (ground (arith, has-keep f x xs, d.0), IsNodup-keep f xs d.1)
  | inr e ↦
      let q : keep f (x ∷ xs) ≡ keep f xs = ground (arith, e) in
      subst IsNodup (sym q) (IsNodup-keep f xs d.1)
]

pub length-keep_lt :
    (f : Ptr → Bool) (y : Ptr) (xs : List Ptr)
    → has y xs ≡ true
    → f y ≡ false
    → length (keep f xs) < length xs
length-keep_lt f y [] h k = cc
length-keep_lt f y (x ∷ xs) h k = elim (Bool-cases (y == x)) [
  | inl e ↦
      let q : y ≡ x = ground arith in
      let k' : f x ≡ false = rw (← q) k in ground (arith, length-keep f xs)
  | inr e ↦ ground (arith, length-keep_lt f y xs (ground arith) k)
]

module _ {V : Type 0} (h : Heap V) where
  -- What is left of a history once the operations in a set are linearized.
  abbrev pub remaining : Bitset → List Ptr → List Ptr
  remaining b = keep (λ p. not (mem b (h.id p)))

  pub remaining_set :
      (b b' : Bitset) (k : ℕ) (xs : List Ptr)
      → ((j : ℕ) → mem b' j ≡ (if k == j then true else mem b j))
      → remaining b' xs ≡ drop_id h k (remaining b xs)
  remaining_set b b' k xs law =
      keep_ext _ _ xs (λ x _. ground (arith, law (h.id x)))
      ∙ sym (keep-keep (λ p. not (mem b (h.id p))) (λ p. not (h.id p == k)) xs)

module _ {I O : Type 0} (h : Heap (Value I O)) where
  -- A call of a history has its return in it.
  pub record HasMatch (p r : Ptr) (xs : List Ptr) : Type 0 where
    pub within : has r xs ≡ true
    pub ends : h.matched r ≡ none
    pub same_id : h.id r ≡ h.id p

  pub match_of :
      (xs : List Ptr) (p r : Ptr)
      → IsHistory h xs
      → has p xs ≡ true
      → h.matched p ≡ some r
      → HasMatch p r xs
  match_of [] p r w m e = cc
  match_of (x ∷ xs) p r w m e = elim (Bool-cases (p == x)) [
    | inl q ↦
        let t : p ≡ x = ground arith in
        let i = w.0 r (ap h.matched (sym t) ∙ e) in
        record {
          within = ground (arith, i.behind);
          ends = i.ends;
          same_id = i.same_id ∙ ap h.id (sym t);
        }
    | inr q ↦
        let i = match_of xs p r w.1 (ground arith) e in
        record { within = ground (arith, i.within); ends = i.ends; same_id = i.same_id }
  ]

  pub drop_id_match :
      (xs : List Ptr) (e r : Ptr)
      → IsHistory h xs
      → HasUniqueIds h xs
      → has e xs ≡ true
      → h.matched e ≡ some r
      → drop_id h (h.id e) xs ≡ without r (without e xs)
  drop_id_match xs e r w u he k =
      keep_ext _ _ xs same ∙ sym (keep-keep (λ y. not (y == e)) (λ y. not (y == r)) xs)
    where
      ids : (x : Ptr) → has x xs ≡ true → h.id x ≡ h.id e → ((x == e) || (x == r)) ≡ true
      ids x hx q = elim (u x e hx he q) [
        | inl t ↦ ground arith
        | inr (inl t) ↦ let d = (match_of xs x e w hx t).ends in absurd (ground (arith, k, d))
        | inr (inr t) ↦ let d : r ≡ x = ground (arith, k, t) in ground arith
      ]

      same : (x : Ptr) → has x xs ≡ true → not (h.id x == h.id e) ≡ (not (x == e) && not (x == r))
      same x hx = elim (Bool-cases (h.id x == h.id e)) [
        | inl t ↦ ground (arith, ids x hx (ground arith))
        | inr t ↦ let i = (match_of xs e r w he k).same_id in ground (arith, i)
      ]

  pub IsHistory-drop_id : (k : ℕ) (xs : List Ptr) → IsHistory h xs → IsHistory h (drop_id h k xs)
  IsHistory-drop_id k [] w = tt
  IsHistory-drop_id k (x ∷ xs) w = elim (Bool-cases (h.id x == k)) [
    | inl e ↦
        let q : drop_id h k (x ∷ xs) ≡ drop_id h k xs = ground (arith, e) in
        subst (IsHistory h) (sym q) (IsHistory-drop_id k xs w.1)
    | inr e ↦
        let q : drop_id h k (x ∷ xs) ≡ x ∷ drop_id h k xs = ground (arith, e) in
        subst (IsHistory h) (sym q) (
          λ r g.
              let i = w.0 r g in
              record {
                behind =
                    ground (arith, has-keep (λ p. not (h.id p == k)) r xs, i.behind, i.same_id, e);
                ends = i.ends;
                same_id = i.same_id;
                arg = i.arg;
                res = i.res;
              },
          IsHistory-drop_id k xs w.1,
        )
  ]

  pub has_return_at :
      (xs : List Ptr) (r : Ptr) → has r xs ≡ true → h.matched r ≡ none → has_return h xs ≡ true
  has_return_at [] r m e = cc
  has_return_at (x ∷ xs) r m e = elim (Bool-cases (r == x)) [
    | inl q ↦ let t : r ≡ x = ground arith in ground (arith, ap h.matched (sym t) ∙ e)
    | inr q ↦ ground (arith, has_return_at xs r (ground arith) e)
  ]

  -- A history that is not empty has a return.
  pub has_return_lem :
      (x : Ptr) (xs : List Ptr) → IsHistory h (x ∷ xs) → has_return h (x ∷ xs) ≡ true
  has_return_lem x xs w = elim (Option-cases (h.matched x)) [
    | inl e ↦ ground (arith, e)
    | inr (r, e) ↦ let i = w.0 r e in ground (arith, e, has_return_at xs r i.behind i.ends)
  ]

  -- Without an operation a history is shorter by two nodes at least.
  pub length-drop_id :
      (xs : List Ptr) (e r : Ptr)
      → IsHistory h xs
      → HasUniqueIds h xs
      → has e xs ≡ true
      → h.matched e ≡ some r
      → length (drop_id h (h.id e) xs) + 2 ≤ length xs
  length-drop_id xs e r w u he k =
      let i = match_of xs e r w he k in
      let ne : (r == e) ≡ false = ground (arith, k, i.ends) in
      let hr : has r (without e xs) ≡ true =
        ground (arith, has-keep (λ y. not (y == e)) r xs, i.within) in
      omega (
        arith,
        ap (length {A = Ptr}) (drop_id_match xs e r w u he k),
        length-keep_lt (λ y. not (y == e)) e xs he (ground arith),
        length-keep_lt (λ y. not (y == r)) r (without e xs) hr (ground arith),
      )
