-- ===== src/Linearizability/Search/Explore.antt =====
-- The depth-first search of `check_single`, level by level: either it ends with a linearization,
-- or it comes back to the state in which it entered the level, with a return under the cursor and
-- no linearization among the calls that it has tried.
use key_value_distributed_sy.Base.{
  ℕ, ◌+◌, ◌*◌, ◌≤◌, ◌<◌, ◌≡◌, ◌≢◌, ap, ◌∙◌, sym, subst, true, false, not, Option, none, some,
  some_inj, List, ◌∷◌, ◌==◌, arith, has, head?, length, IsNodup, Bool-cases, inl, inr, ◌⊎◌,
}
use key_value_distributed_sy.Linearizability.Bitset
use key_value_distributed_sy.Linearizability.Bitset.{Bitset, IsWords, mem}
use key_value_distributed_sy.Linearizability.Bitset.Laws.{set_lem, clear-set}
use key_value_distributed_sy.Linearizability.Model.{Model, Value, input, output}
use key_value_distributed_sy.Linearizability.Nodes.{Ptr, Heap, lift, unlift}
use key_value_distributed_sy.Linearizability.Nodes.Chain.{Chain}
use key_value_distributed_sy.Linearizability.Nodes.Lift.{SameNodes, lift_lem}
use key_value_distributed_sy.Linearizability.Search.{CacheEntry, Cache, CallsEntry, Search}
use key_value_distributed_sy.Linearizability.Search.Spec.{
  calls_prefix, drop_id, IsLinearizable, pick, IsHistory, HasUniqueIds,
}
use key_value_distributed_sy.Linearizability.Search.History.{
  remaining, remaining_set, drop_id_match, IsHistory-drop_id, has-keep, length-drop_id, has_of_keep,
  IsNodup-keep, match_of,
}
use key_value_distributed_sy.Linearizability.Search.Rounds.{Steps, Steps-trans}
use key_value_distributed_sy.Linearizability.Search.Cache.{AllCached}

module _ {S I O : Type 0} (m : Model S I O) (h0 : Heap (Value I O)) (head : Ptr)
    (xs0 : List Ptr) where
  -- The heap, the list and the set of `check_single` at a level of the search.
  pub record IsLevel (h : Heap (Value I O)) (xs : List Ptr) (b : Bitset) : Type 0 where
    pub nodes : SameNodes h0 h
    pub chain : Chain h head xs
    pub nodup : IsNodup (head ∷ xs)
    pub history : IsHistory h0 xs
    pub unique : HasUniqueIds h0 xs
    pub left : xs ≡ remaining h0 b xs0
    pub words : IsWords b
    pub fits : (p : Ptr) → has p xs ≡ true → h0.id p < 64 * length b

  -- No linearization starts from this cache entry.
  abbrev pub IsDead : CacheEntry S → Type 0
  IsDead x = ¬ IsLinearizable m h0 x.state (remaining h0 x.linearized xs0)

  -- Every entry is dead, or it is of this level or one further out.
  abbrev pub IsSettled : ℕ → CacheEntry S → Type 0
  IsSettled n x = IsDead x ⊎ (n ≤ length (remaining h0 x.linearized xs0))

  -- The one cache has, beside the entries of the other, dead entries only.
  abbrev pub Extends : Cache S → Cache S → Type 1
  Extends c c' =
      (Q : CacheEntry S → Type 0)
      → ((x : CacheEntry S) → IsDead x → Q x)
      → AllCached Q c
      → AllCached Q c'

  -- No linearization of `xs` picks a call that stands before the first return of `rest`.
  abbrev pub NoPick : S → List Ptr → List Ptr → Type 0
  NoPick s xs rest =
      (e r : Ptr) (i : I) (o : O) (s' : S)
      → has e (calls_prefix h0 rest) ≡ true
      → h0.matched e ≡ some r
      → h0.value e ≡ input i
      → h0.value r ≡ output o
      → m.step s i o ≡ (true, s')
      → ¬ IsLinearizable m h0 s' (drop_id h0 (h0.id e) xs)

  -- The loop at a level, with the cursor at `cursor`.
  abbrev pub at_level :
      Heap (Value I O) → Option Ptr → S → Bitset → Cache S → List (CallsEntry S) → Search S I O
  at_level h cursor s b c calls = record {
    heap = h;
    entry = cursor;
    state = s;
    linearized = b;
    cache = c;
    calls = calls;
  }

  -- What becomes of the search from a level, within so many rounds.
  pub data Explored (h : Heap (Value I O)) (xs : List Ptr) (b : Bitset) (s : S)
      (calls : List (CallsEntry S)) (c : Cache S) (rest : List Ptr) (bound : ℕ) : Type 1 where
    found :
        (n : ℕ) (t : Search S I O)
        → n ≤ bound
        → Steps m head n (at_level h (head? rest) s b c calls) t
        → t.heap.next head ≡ none
        → IsLinearizable m h0 s xs
        → Explored h xs b s calls c rest bound
    exhausted :
        (n : ℕ) (r : Ptr) (c' : Cache S)
        → n ≤ bound
        → Steps m head n (at_level h (head? rest) s b c calls) (at_level h (some r) s b c' calls)
        → h0.matched r ≡ none
        → Extends c c'
        → NoPick s xs rest
        → Explored h xs b s calls c rest bound

  -- Rounds that change nothing but the cache and the cursor come before.
  pub Explored-after :
      {h : Heap (Value I O)} {xs : List Ptr} {b : Bitset} {s : S} {calls : List (CallsEntry S)}
      {c c1 : Cache S} {e : Ptr} {rest : List Ptr} {n k : ℕ} (bound : ℕ)
      → Steps m head n (at_level h (some e) s b c calls) (at_level h (head? rest) s b c1 calls)
      → Extends c c1
      → (NoPick s xs rest → NoPick s xs (e ∷ rest))
      → n + k ≤ bound
      → Explored h xs b s calls c1 rest k
      → Explored h xs b s calls c (e ∷ rest) bound
  Explored-after bound st ext more le (found n t l st' em lin) =
      let (j, q, st'') = Steps-trans m head st st' in found j t (omega arith) st'' em lin
  Explored-after bound st ext more le (exhausted n r c' l st' end ext' no_pick) =
      let (j, q, st'') = Steps-trans m head st st' in
      exhausted j r c' (omega arith) st'' end (λ Q dead all. ext' Q dead (ext Q dead all))
        (more no_pick)

  pub NoPick-IsLinearizable :
      (s : S) (x : Ptr) (xs : List Ptr)
      → NoPick s (x ∷ xs) (x ∷ xs)
      → ¬ IsLinearizable m h0 s (x ∷ xs)
  NoPick-IsLinearizable s x xs no_pick (pick {s'} e r i o he k a b c lin) =
      no_pick e r i o s' he k a b c lin

  pub NoPick-cons :
      (s : S) (xs : List Ptr) (e r : Ptr) (rest : List Ptr)
      → h0.matched e ≡ some r
      → ((i : I) (o : O) (s' : S)
          → h0.value e ≡ input i
          → h0.value r ≡ output o
          → m.step s i o ≡ (true, s')
          → ¬ IsLinearizable m h0 s' (drop_id h0 (h0.id e) xs))
      → NoPick s xs rest
      → NoPick s xs (e ∷ rest)
  NoPick-cons s xs e r rest k dead others p q i o s' hp kp a b c lin = elim (Bool-cases (p == e)) [
    | inl t ↦
        let pe : p ≡ e = ground arith in
        let qr : q ≡ r = some_inj (sym kp ∙ ap h0.matched pe ∙ k) in
        dead i o s' (ap h0.value (sym pe) ∙ a) (ap h0.value (sym qr) ∙ b) c
          (subst (λ z. IsLinearizable m h0 s' (drop_id h0 (h0.id z) xs)) pe lin)
    | inr t ↦ others p q i o s' (ground (arith, k)) kp a b c lin
  ]

  pub NoPick-return :
      (s : S) (xs : List Ptr) (e : Ptr) (rest : List Ptr)
      → h0.matched e ≡ none
      → NoPick s xs (e ∷ rest)
  NoPick-return s xs e rest k p q i o s' hp kp a b c lin = ground (arith, k)

  -- One level down, by the operation of the call `e`.
  pub record Descent (h : Heap (Value I O)) (xs : List Ptr) (b : Bitset) (e : Ptr) : Type 0 where
    pub heap : Heap (Value I O)
    pub set : Bitset
    pub lifts : lift e h ≡ some heap
    pub unlifts : unlift e heap ≡ some h
    pub sets : Bitset.set b (h.id e) ≡ some set
    pub clears : Bitset.clear set (heap.id e) ≡ some b
    pub level : IsLevel heap (drop_id h0 (h0.id e) xs) set
    pub shorter : length (drop_id h0 (h0.id e) xs) + 2 ≤ length xs

  SameNodes-trans' : (h h' : Heap (Value I O)) → SameNodes h0 h → SameNodes h h' → SameNodes h0 h'
  SameNodes-trans' h h' a b = record {
    fresh = b.fresh ∙ a.fresh;
    value = b.value ∙ a.value;
    matched = b.matched ∙ a.matched;
    id = b.id ∙ a.id;
  }

  pub HasUniqueIds-drop_id :
      (k : ℕ) (xs : List Ptr) → HasUniqueIds h0 xs → HasUniqueIds h0 (drop_id h0 k xs)
  HasUniqueIds-drop_id k xs u p q hp hq = u p q (has_of_keep _ p xs hp).0 (has_of_keep _ q xs hq).0

  not-mem_of_level :
      (h : Heap (Value I O)) (xs : List Ptr) (b : Bitset) (e : Ptr)
      → IsLevel h xs b
      → has e xs ≡ true
      → mem b (h0.id e) ≡ false
  not-mem_of_level h xs b e l he =
      let t = (has_of_keep (λ p. not (mem b (h0.id p))) e xs0 (ap (has e) (sym l.left) ∙ he)).1 in
      ground (arith, t)

  pub descend :
      (h : Heap (Value I O)) (xs : List Ptr) (b : Bitset) (e r n : Ptr)
      → IsLevel h xs b
      → has e xs ≡ true
      → h0.matched e ≡ some r
      → h.next e ≡ some n
      → Descent h xs b e
  descend h xs b e r n l he k nx =
      let hm = match_of h0 xs e r l.history he k in
      let ne : r ≢ e = λ q. cc (ap h0.matched q, hm.ends, k) in
      let kh : h.matched e ≡ some r = ap (λ f. f e) l.nodes.matched ∙ k in
      let f = lift_lem h head e r n xs l.chain l.nodup he hm.within ne kh nx in
      let small = l.fits e he in
      let (b', sets, size, law, words) = set_lem b (h0.id e) small in
      let out = not-mem_of_level h xs b e l he in
      let same = drop_id_match h0 xs e r l.history l.unique he k in
      record {
        heap = f.after;
        set = b';
        lifts = f.lifts;
        unlifts = f.restores;
        sets = ap (λ g. Bitset.set b (g e)) l.nodes.id ∙ sets;
        clears =
            ap (λ g. Bitset.clear b' (g e)) (f.nodes.id ∙ l.nodes.id)
            ∙ clear-set b b' (h0.id e) l.words small out sets;
        level = record {
          nodes = SameNodes-trans' h f.after l.nodes f.nodes;
          chain = subst (Chain f.after head) (sym same) f.chain;
          nodup = (
            ground (arith, has-keep (λ p. not (h0.id p == h0.id e)) head xs, l.nodup.0),
            IsNodup-keep _ xs l.nodup.1,
          );
          history = IsHistory-drop_id h0 (h0.id e) xs l.history;
          unique = HasUniqueIds-drop_id (h0.id e) xs l.unique;
          left = ap (drop_id h0 (h0.id e)) l.left ∙ sym (remaining_set h0 b b' (h0.id e) xs0 law);
          words = words l.words;
          fits = λ p hp. omega (arith, l.fits p (has_of_keep _ p xs hp).0, size);
        };
        shorter = length-drop_id h0 xs e r l.history l.unique he k;
      }
