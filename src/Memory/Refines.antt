-- ===== src/Memory/Refines.antt =====
-- project_1/src/kvs.rs: the store implements a map.
use key_value_distributed_sy.Base.{
  ◌≡◌, refl, ap, ◌∙◌, fun_ext, Bool, Bool-cases, Option, none, some, List, [], ◌∷◌, inl, inr,
  if◌then◌else◌,
}
use key_value_distributed_sy.Base.Maps.{
  IsTest, lookup, lookup-insert, lookup-insert_other, lookup-erase, lookup-erase_other,
}
use key_value_distributed_sy.Memory.{
  MemoryStore, new_store, store_key, get_key, remove_key, is_some,
}

-- The calls of the trait that a test of the store makes, and what they answer.
pub data Call (K V : Type 0) : Type 0 where
  set_call : K → V → Call K V
  get_call : K → Call K V
  remove_call : K → Call K V

pub data Answer (V : Type 0) : Type 0 where
  done : Answer V
  value : Option V → Answer V
  removed : Bool → Answer V

module _ {K V : Type 0} (same : K → K → Bool) where
  abbrev pub answer : MemoryStore K V → Call K V → MemoryStore K V × Answer V
  answer s (set_call key v) = (store_key same s key v, done)
  answer s (get_call key) = (s, value (get_key same s key))
  answer s (remove_call key) = ((remove_key same s key).0, removed (remove_key same s key).1)

  abbrev pub answers : MemoryStore K V → List (Call K V) → List (Answer V)
  answers s [] = []
  answers s (c ∷ cs) = (answer s c).1 ∷ answers (answer s c).0 cs

  -- A map is what it answers for each key.
  abbrev with_key : (K → Option V) → K → Option V → K → Option V
  with_key f key v k = if same k key then v else f k

  abbrev pub map_answer : (K → Option V) → Call K V → (K → Option V) × Answer V
  map_answer f (set_call key v) = (with_key f key (some v), done)
  map_answer f (get_call key) = (f, value (f key))
  map_answer f (remove_call key) = (with_key f key none, removed (is_some same (f key)))

  abbrev pub map_answers : (K → Option V) → List (Call K V) → List (Answer V)
  map_answers f [] = []
  map_answers f (c ∷ cs) = (map_answer f c).1 ∷ map_answers (map_answer f c).0 cs

  module _ (t : IsTest same) where
    found : MemoryStore K V → K → Option V
    found s k = lookup same k s.cache

    found-store_key :
        (s : MemoryStore K V) (key : K) (v : V)
        → found (store_key same s key v) ≡ with_key (found s) key (some v)
    unfolding found store_key
    found-store_key s key v = fun_ext λ k. elim (Bool-cases (same k key)) [
      | inl e ↦ let q = t.sound k key e in rw (e, q, lookup-insert same t key v s.cache) refl
      | inr e ↦ rw (e, lookup-insert_other same t k key v s.cache e) refl
    ]

    found-remove_key :
        (s : MemoryStore K V) (key : K)
        → found (remove_key same s key).0 ≡ with_key (found s) key none
    unfolding found remove_key
    found-remove_key s key = fun_ext λ k. elim (Bool-cases (same k key)) [
      | inl e ↦ let q = t.sound k key e in rw (e, q, lookup-erase same t key s.cache) refl
      | inr e ↦ rw (e, lookup-erase_other same t k key s.cache e) refl
    ]

    answers-from :
        (s : MemoryStore K V) (cs : List (Call K V)) → answers s cs ≡ map_answers (found s) cs
    unfolding found get_key remove_key
    answers-from s [] = refl
    answers-from s (set_call key v ∷ cs) =
        ap (λ rest. done ∷ rest)
          (answers-from (store_key same s key v) cs
            ∙ ap (λ f. map_answers f cs) (found-store_key s key v))
    answers-from s (get_call key ∷ cs) =
        ap (λ rest. value (get_key same s key) ∷ rest) (answers-from s cs)
    answers-from s (remove_call key ∷ cs) =
        ap (λ rest. removed (remove_key same s key).1 ∷ rest)
          (answers-from (remove_key same s key).0 cs
            ∙ ap (λ f. map_answers f cs) (found-remove_key s key))

    -- Whatever calls of `set`, `get` and `remove_key` are made of a new store, in whatever order, the
    -- answers are those of a map that is empty at first. It holds when the test of keys decides their
    -- equality.
    pub answers-new_store :
        (cs : List (Call K V)) → answers (new_store same) cs ≡ map_answers (λ k. none) cs
    unfolding found lookup
    answers-new_store cs = answers-from (new_store same) cs
