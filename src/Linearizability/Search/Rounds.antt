-- ===== src/Linearizability/Search/Rounds.antt =====
-- What single rounds of `check_single` do, and how rounds compose into a run.
use key_value_distributed_sy.Base.{
  ℕ, zero, suc, ◌+◌, ◌<◌, ◌≡◌, refl, ◌∙◌, Bool, true, false, Option, none, some, List, [], ◌∷◌,
  arith,
}
use key_value_distributed_sy.Linearizability.Bitset
use key_value_distributed_sy.Linearizability.Bitset.{Bitset}
use key_value_distributed_sy.Linearizability.Model.{Model, Value, input, output}
use key_value_distributed_sy.Linearizability.Nodes.{Ptr, Heap, lift, unlift}
use key_value_distributed_sy.Linearizability.Search.{
  CallsEntry, Search, running, returned, cache_contains, cache_push, advance, at_entry, iteration,
  finished, run,
}

module _ {S I O : Type 0} (m : Model S I O) (head : Ptr) where
  -- `n` rounds, with the flag down, lead from one state to the other.
  pub data Steps : ℕ → Search S I O → Search S I O → Type 0 where
    here : {s : Search S I O} → Steps zero s s
    next :
        {n : ℕ} {s t u : Search S I O}
        → iteration m head false s ≡ running t
        → Steps n t u
        → Steps (suc n) s u

  pub Steps-trans :
      {n k : ℕ} {s t u : Search S I O}
      → Steps n s t
      → Steps k t u
      → (j : ℕ) × (j ≡ n + k) × Steps j s u
  Steps-trans {k} here b = (k, omega arith, b)
  Steps-trans (next e a) b = let (j, q, c) = Steps-trans a b in (suc j, omega arith, next e c)

  pub Steps-run :
      (fuel : ℕ) {n : ℕ} {s t : Search S I O} (b : Bool)
      → Steps n s t
      → iteration m head false t ≡ returned b
      → n < fuel
      → run m head (λ _. false) fuel s ≡ finished b
  unfolding run
  Steps-run zero b st e h = absurd (omega arith)
  Steps-run (suc fuel) b here e h = rw (e, run)
  Steps-run (suc fuel) b (next q a) e h = rw (q, run) (Steps-run fuel b a e (omega arith))

  -- One round, by what stands at the cursor.
  pub round-empty :
      (s : Search S I O) → s.heap.next head ≡ none → iteration m head false s ≡ returned true
  unfolding iteration
  round-empty s e = rw e

  module _ (s : Search S I O) {x : Ptr} (busy : s.heap.next head ≡ some x) where
    round-at :
        (e : Ptr) (o : Option Ptr)
        → s.entry ≡ some e
        → s.heap.matched e ≡ o
        → iteration m head false s ≡ at_entry m head s e o
    unfolding iteration
    round-at e o p q = rw (busy, p, q)

    pub round-rejected :
        (e r : Ptr) (i : I) (o : O) {s' : S}
        → s.entry ≡ some e
        → s.heap.matched e ≡ some r
        → s.heap.value e ≡ input i
        → s.heap.value r ≡ output o
        → m.step s.state i o ≡ (false, s')
        → iteration m head false s ≡ running (advance s e)
    unfolding at_entry
    round-rejected e r i o p q a b c = round-at e (some r) p q ∙ rw (a, b, c)

    pub round-cached :
        (e r : Ptr) (i : I) (o : O) {s' : S} (b' : Bitset)
        → s.entry ≡ some e
        → s.heap.matched e ≡ some r
        → s.heap.value e ≡ input i
        → s.heap.value r ≡ output o
        → m.step s.state i o ≡ (true, s')
        → Bitset.set s.linearized (s.heap.id e) ≡ some b'
        → cache_contains m s.cache (record { linearized = b'; state = s' }) ≡ true
        → iteration m head false s ≡ running (advance s e)
    unfolding at_entry
    round-cached e r i o b' p q a b c d k = round-at e (some r) p q ∙ rw (a, b, c, d) rw k

    pub round-lifted :
        (e r : Ptr) (i : I) (o : O) (s' : S) (b' : Bitset) (h' : Heap (Value I O))
        → s.entry ≡ some e
        → s.heap.matched e ≡ some r
        → s.heap.value e ≡ input i
        → s.heap.value r ≡ output o
        → m.step s.state i o ≡ (true, s')
        → Bitset.set s.linearized (s.heap.id e) ≡ some b'
        → cache_contains m s.cache (record { linearized = b'; state = s' }) ≡ false
        → lift e s.heap ≡ some h'
        → iteration m head false s
          ≡ running (record {
            heap = h';
            entry = h'.next head;
            state = s';
            linearized = b';
            cache = cache_push s.cache (Bitset.hash b') (record { linearized = b'; state = s' });
            calls = record { entry = some e; state = s.state } ∷ s.calls;
          })
    unfolding at_entry
    round-lifted e r i o s' b' h' p q a b c d k l =
        round-at e (some r) p q ∙ rw (a, b, c, d) (rw (k, l) refl)

    pub round-backtrack :
        (x e : Ptr) (s0 : S) (calls : List (CallsEntry S)) (b : Bitset) (h' : Heap (Value I O))
        → s.entry ≡ some x
        → s.heap.matched x ≡ none
        → s.calls ≡ record { entry = some e; state = s0 } ∷ calls
        → Bitset.clear s.linearized (s.heap.id e) ≡ some b
        → unlift e s.heap ≡ some h'
        → iteration m head false s
          ≡ running (record {
            heap = h';
            entry = h'.next e;
            state = s0;
            linearized = b;
            cache = s.cache;
            calls = calls;
          })
    unfolding at_entry
    round-backtrack x e s0 calls b h' p q c d u = round-at x none p q ∙ rw (c, d, u)

    pub round-stuck :
        (x : Ptr)
        → s.entry ≡ some x
        → s.heap.matched x ≡ none
        → s.calls ≡ []
        → iteration m head false s ≡ returned false
    unfolding at_entry
    round-stuck x p q c = round-at x none p q ∙ rw c
