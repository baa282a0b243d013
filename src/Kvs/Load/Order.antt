-- ===== src/Kvs/Load/Order.antt =====
-- The order of the log files: the last of the sorted generations is the greatest.
use key_value_distributed_sy.Base.{
  ℕ, ◌≤◌, ◌≡◌, refl, ◌∙◌, true, some, List, [], ◌∷◌, leb, arith, All, All-mono, has, Bool-cases,
  inl, inr, ◌==◌,
}
use key_value_distributed_sy.Base.Maps.{lookup}
use key_value_distributed_sy.Kvs.Log.{Bytes, Disk, same_gen}
use key_value_distributed_sy.Kvs.Load.{insert_gen, sort_gens, gens, sorted_generation, last_gen}

abbrev pub IsSorted : List ℕ → Type 0
IsSorted [] = Unit
IsSorted (x ∷ xs) = All (λ y. x ≤ y) xs × IsSorted xs

insert_gen-All : (P : ℕ → Type 0) (x : ℕ) (ys : List ℕ) → P x → All P ys → All P (insert_gen x ys)
unfolding insert_gen
insert_gen-All P x [] p a = (p, tt)
insert_gen-All P x (y ∷ ys) p a = elim (Bool-cases (leb x y)) [
  | inl e ↦ rw e (p, a)
  | inr e ↦ rw e (a.0, insert_gen-All P x ys p a.1)
]

insert_gen-IsSorted : (x : ℕ) (ys : List ℕ) → IsSorted ys → IsSorted (insert_gen x ys)
unfolding insert_gen
insert_gen-IsSorted x [] s = (tt, tt)
insert_gen-IsSorted x (y ∷ ys) s = elim (Bool-cases (leb x y)) [
  | inl e ↦
      let le : x ≤ y = ground (arith, e) in
      rw e ((le, All-mono ys (λ z t. omega (arith, le, t)) s.0), s)
  | inr e ↦
      let le : y ≤ x = ground (arith, e) in
      rw e (insert_gen-All (λ z. y ≤ z) x ys le s.0, insert_gen-IsSorted x ys s.1)
]

insert_gen-has : (k x : ℕ) (ys : List ℕ) → has k (insert_gen x ys) ≡ has k (x ∷ ys)
unfolding insert_gen
insert_gen-has k x [] = refl
insert_gen-has k x (y ∷ ys) = elim (Bool-cases (leb x y)) [
  | inl e ↦ rw e refl
  | inr e ↦ ground (arith, e, insert_gen-has k x ys)
]

pub sort_gens-IsSorted : (xs : List ℕ) → IsSorted (sort_gens xs)
unfolding sort_gens
sort_gens-IsSorted [] = tt
sort_gens-IsSorted (x ∷ xs) = insert_gen-IsSorted x (sort_gens xs) (sort_gens-IsSorted xs)

pub sort_gens-has : (k : ℕ) (xs : List ℕ) → has k (sort_gens xs) ≡ has k xs
unfolding sort_gens
sort_gens-has k [] = refl
sort_gens-has k (x ∷ xs) = insert_gen-has k x (sort_gens xs) ∙ ground (arith, sort_gens-has k xs)

le-last_gen : (k : ℕ) (xs : List ℕ) → IsSorted xs → has k xs ≡ true → k ≤ last_gen xs
le-last_gen k [] s h = cc
le-last_gen k (x ∷ []) s h = ground arith
le-last_gen k (x ∷ y ∷ ys) s h = elim (Bool-cases (k == x)) [
  | inl e ↦
      let le = le-last_gen y (y ∷ ys) s.1 (ground arith) in
      let at : k ≡ x = ground (arith, e) in omega (arith, le, s.0.0, at)
  | inr e ↦ le-last_gen k (y ∷ ys) s.1 (ground (arith, e, h))
]

pub lookup-has :
    (k : ℕ) (file : Bytes) (disk : Disk)
    → lookup same_gen k disk ≡ some file
    → has k (gens disk) ≡ true
unfolding lookup
lookup-has k file [] h = cc
lookup-has k file (p ∷ disk) h = elim (Bool-cases (k == p.0)) [
  | inl e ↦ ground (arith, e)
  | inr e ↦ ground (arith, e, lookup-has k file disk (ground (arith, e, h)))
]

-- Every log file of the directory is among the sorted generations, none of which is greater than
-- the last.
pub le-sorted_generation :
    (gen : ℕ) (file : Bytes) (disk : Disk)
    → lookup same_gen gen disk ≡ some file
    → gen ≤ last_gen (sorted_generation disk)
unfolding sorted_generation
le-sorted_generation gen file disk h =
    le-last_gen gen (sort_gens (gens disk)) (sort_gens-IsSorted (gens disk))
      (sort_gens-has gen (gens disk) ∙ lookup-has gen file disk h)
