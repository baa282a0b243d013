-- ===== src/Linearizability/Search/Spec.antt =====
-- What `check_single` decides, over the immutable fields of the nodes: a history is a list of
-- nodes, and a linearization picks, again and again, a call that no return stands before.
use key_value_distributed_sy.Base.{
  ℕ, ◌≡◌, Bool, true, false, not, none, some, List, [], ◌∷◌, ◌==◌, has, keep, ◌⊎◌,
}
use key_value_distributed_sy.Linearizability.Model.{Model, Value, input, output}
use key_value_distributed_sy.Linearizability.Nodes.{Ptr, Heap}

module _ {V : Type 0} (h : Heap V) where
  -- The calls that stand before the first return.
  abbrev pub calls_prefix : List Ptr → List Ptr
  calls_prefix [] = []
  calls_prefix (p ∷ ps) =
      let r = calls_prefix ps in elim (h.matched p) [ none ↦ [] | some _ ↦ p ∷ r ]

  abbrev pub has_return : List Ptr → Bool
  has_return [] = false
  has_return (p ∷ ps) = let r = has_return ps in elim (h.matched p) [ none ↦ true | some _ ↦ r ]

  -- The history without the operation that has this identifier.
  abbrev pub drop_id : ℕ → List Ptr → List Ptr
  drop_id k = keep (λ p. not (h.id p == k))

module _ {S I O : Type 0} (m : Model S I O) (h : Heap (Value I O)) where
  pub data IsLinearizable : S → List Ptr → Type 0 where
    done : {s : S} → IsLinearizable s []
    pick :
        {s s' : S} {xs : List Ptr} (e r : Ptr) (i : I) (o : O)
        → has e (calls_prefix h xs) ≡ true
        → h.matched e ≡ some r
        → h.value e ≡ input i
        → h.value r ≡ output o
        → m.step s i o ≡ (true, s')
        → IsLinearizable s' (drop_id h (h.id e) xs)
        → IsLinearizable s xs

module _ {I O : Type 0} (h : Heap (Value I O)) where
  -- A call `p` and its return, which stands among the nodes behind it.
  pub record IsMatch (p r : Ptr) (ps : List Ptr) : Type 0 where
    pub behind : has r ps ≡ true
    pub ends : h.matched r ≡ none
    pub same_id : h.id r ≡ h.id p
    pub arg : (i : I) × (h.value p ≡ input i)
    pub res : (o : O) × (h.value r ≡ output o)

  -- Every call of the history has its return behind it.
  abbrev pub IsHistory : List Ptr → Type 0
  IsHistory [] = Unit
  IsHistory (p ∷ ps) = ((r : Ptr) → h.matched p ≡ some r → IsMatch p r ps) × IsHistory ps

  -- One identifier is one operation.
  abbrev pub HasUniqueIds : List Ptr → Type 0
  HasUniqueIds xs =
      (p q : Ptr)
      → has p xs ≡ true
      → has q xs ≡ true
      → h.id p ≡ h.id q
      → (p ≡ q) ⊎ (h.matched p ≡ some q) ⊎ (h.matched q ≡ some p)
