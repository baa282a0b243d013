-- ===== src/Linearizability/Search/Cache.antt =====
-- What the cache of `check_single` knows: a property of all its entries, kept by a push, and read
-- off by a hit.
use key_value_distributed_sy.Base.{
  ℕ, ◌≡◌, sym, subst, true, ◌&&◌, List, [], ◌∷◌, arith, All, All-append, Bool-cases, inl, inr, ◌==◌,
}
use key_value_distributed_sy.Linearizability.Bitset
use key_value_distributed_sy.Linearizability.Bitset.Laws.{equals_iff}
use key_value_distributed_sy.Linearizability.Model.{Model, EqualIsSound}
use key_value_distributed_sy.Linearizability.Search.{
  CacheEntry, Cache, cache_contains, contains_in, cache_push,
}

abbrev pub AllCached : {S : Type 0} → (CacheEntry S → Type 0) → Cache S → Type 0
AllCached Q c = (k : ℕ) → All Q (c k)

pub AllCached-push :
    {S : Type 0} (Q : CacheEntry S → Type 0) (c : Cache S) (k : ℕ) (x : CacheEntry S)
    → AllCached Q c
    → Q x
    → AllCached Q (cache_push c k x)
AllCached-push Q c k x all q j = elim (Bool-cases (j == k)) [
  | inl e ↦ rw e (All-append Q (c j) (x ∷ []) (all j) (q, tt))
  | inr e ↦ rw e (all j)
]

module _ {S I O : Type 0} (m : Model S I O) (sound : EqualIsSound m)
    (Q : CacheEntry S → Type 0) where
  contains_in-All :
      (elems : List (CacheEntry S)) (x : CacheEntry S)
      → All Q elems
      → contains_in m elems x ≡ true
      → Q x
  unfolding contains_in
  contains_in-All [] x all h = cc
  contains_in-All (y ∷ ys) x all h =
      elim (Bool-cases (Bitset.equals x.linearized y.linearized && m.equal x.state y.state)) [
        | inl e ↦
            let same : y ≡ x = λ i. record {
              linearized = sym ((equals_iff x.linearized y.linearized).0 (ground arith)) i;
              state = sym (sound x.state y.state (ground arith)) i;
            } in
            subst Q same all.0
        | inr e ↦ contains_in-All ys x all.1 (ground arith)
      ]

  -- A hit is an entry of the cache.
  pub cache_contains-AllCached :
      (c : Cache S) (x : CacheEntry S) → AllCached Q c → cache_contains m c x ≡ true → Q x
  unfolding cache_contains
  cache_contains-AllCached c x all h =
      contains_in-All (c (Bitset.hash x.linearized)) x (all (Bitset.hash x.linearized)) h
