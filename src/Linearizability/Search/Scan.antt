-- ===== src/Linearizability/Search/Scan.antt =====
-- One level of the search of `check_single`: the cursor walks over the calls before the first
-- return, and the search goes one level down at each call that the model accepts.
use key_value_distributed_sy.Base.{
  ℕ, suc, ◌+◌, ◌≡◌, refl, ap, ◌∙◌, sym, subst, Bool, true, false, some, List, [], ◌∷◌, arith, has,
  head?, length, inl, inr,
}
use key_value_distributed_sy.Linearizability.Bitset
use key_value_distributed_sy.Linearizability.Bitset.{Bitset}
use key_value_distributed_sy.Linearizability.Model.{Model, Value, input, output, EqualIsSound}
use key_value_distributed_sy.Linearizability.Nodes.{Ptr, Heap}
use key_value_distributed_sy.Linearizability.Nodes.Chain.{Chain-head?}
use key_value_distributed_sy.Linearizability.Search.{
  CacheEntry, Cache, CallsEntry, running, cache_contains, cache_push, iteration,
}
use key_value_distributed_sy.Linearizability.Search.Spec.{
  calls_prefix, drop_id, IsLinearizable, pick, done,
}
use key_value_distributed_sy.Linearizability.Search.Rounds.{
  Steps, here, next, Steps-trans, round-rejected, round-cached, round-lifted, round-backtrack,
}
use key_value_distributed_sy.Linearizability.Search.Cache.{
  AllCached, AllCached-push, cache_contains-AllCached,
}
use key_value_distributed_sy.Linearizability.Search.Explore.{
  IsLevel, IsDead, IsSettled, Extends, NoPick, at_level, Explored, found, exhausted, Explored-after,
  NoPick-IsLinearizable, NoPick-cons, Descent,
}

module _ {S I O : Type 0} (m : Model S I O) (sound : EqualIsSound m) (h0 : Heap (Value I O))
    (head : Ptr) (xs0 : List Ptr) where
  -- The model's answer at a call is one: what a step from it leads to is determined.
  picked_state :
      {s s' s'' : S} {i i' : I} {o o' : O} {b : Bool} (e r : Ptr)
      → h0.value e ≡ input i
      → h0.value r ≡ output o
      → h0.value e ≡ input i'
      → h0.value r ≡ output o'
      → m.step s i o ≡ (b, s')
      → m.step s i' o' ≡ (true, s'')
      → (b ≡ true) × (s' ≡ s'')
  picked_state {s} {i} {i'} {o} {o'} e r a b a' b' c c' =
      let ei : i ≡ i' = cc (a, a') in
      let eo : o ≡ o' = cc (b, b') in
      let t = sym c ∙ ap (λ z. m.step s z o) ei ∙ ap (λ z. m.step s i' z) eo ∙ c' in
      (ap (λ z. z.0) t, ap (λ z. z.1) t)

  module _ (h : Heap (Value I O)) (xs : List Ptr) (b : Bitset) (l : IsLevel m h0 head xs0 h xs b)
      (s : S) (calls : List (CallsEntry S)) (e r n : Ptr) (rest : List Ptr) (i : I) (o : O)
      (he : has e xs ≡ true) (k : h0.matched e ≡ some r) (ve : h0.value e ≡ input i)
      (vr : h0.value r ≡ output o) (nx : h.next e ≡ some n) (hd : head? rest ≡ some n) {x : Ptr}
      (busy : h.next head ≡ some x) (bound : ℕ)
      (ih : (c : Cache S)
        → AllCached (IsSettled m h0 head xs0 (length xs)) c
        → Explored m h0 head xs0 h xs b s calls c rest bound)
      (c : Cache S) (ok : AllCached (IsSettled m h0 head xs0 (length xs)) c) where
    k' : h.matched e ≡ some r
    k' = ap (λ f. f e) l.nodes.matched ∙ k

    ve' : h.value e ≡ input i
    ve' = ap (λ f. f e) l.nodes.value ∙ ve

    vr' : h.value r ≡ output o
    vr' = ap (λ f. f r) l.nodes.value ∙ vr

    -- The cursor moves on with nothing else changed.
    move :
        iteration m head false (at_level m h0 head xs0 h (some e) s b c calls)
          ≡ running (at_level m h0 head xs0 h (h.next e) s b c calls)
        → Steps m head 1
            (at_level m h0 head xs0 h (some e) s b c calls)
            (at_level m h0 head xs0 h (head? rest) s b c calls)
    move t =
        next (t ∙ ap (λ z. running (at_level m h0 head xs0 h z s b c calls)) (nx ∙ sym hd)) here

    pub scan_rejected :
        (s' : S)
        → m.step s i o ≡ (false, s')
        → Explored m h0 head xs0 h xs b s calls c (e ∷ rest) (bound + 2)
    scan_rejected s' st =
        Explored-after m h0 head xs0 (bound + 2)
          (move (round-rejected m head _ busy e r i o refl k' ve' vr' st)) (λ Q dead all. all)
          (NoPick-cons m h0 head xs0 s xs e r rest k
            (λ i' o' s'' a b' t _. cc (picked_state e r ve vr a b' st t).0))
          (omega arith) (ih c ok)

    dead_pick :
        (s' : S)
        → m.step s i o ≡ (true, s')
        → (¬ IsLinearizable m h0 s' (drop_id h0 (h0.id e) xs))
        → NoPick m h0 head xs0 s xs rest
        → NoPick m h0 head xs0 s xs (e ∷ rest)
    dead_pick s' st dead = NoPick-cons m h0 head xs0 s xs e r rest k λ i' o' s'' a b' t lin. dead (
        subst (λ z. IsLinearizable m h0 z (drop_id h0 (h0.id e) xs))
          (sym (picked_state e r ve vr a b' st t).1) lin)

    module _ (d : Descent m h0 head xs0 h xs b e) where
      abbrev pub below : List Ptr
      below = drop_id h0 (h0.id e) xs

      abbrev pub entry_of : S → CacheEntry S
      entry_of s' = record { linearized = d.set; state = s' }

      settled_dead :
          (s' : S)
          → IsSettled m h0 head xs0 (length xs) (entry_of s')
          → ¬ IsLinearizable m h0 s' below
      settled_dead s' (inl dead) lin = dead (subst (IsLinearizable m h0 s') d.level.left lin)
      settled_dead s' (inr far) lin =
          absurd (omega (arith, d.shorter, ap (length {A = Ptr}) d.level.left))

      pub scan_cached :
          (s' : S)
          → m.step s i o ≡ (true, s')
          → cache_contains m c (entry_of s') ≡ true
          → Explored m h0 head xs0 h xs b s calls c (e ∷ rest) (bound + 2)
      scan_cached s' st hit =
          Explored-after m h0 head xs0 (bound + 2)
            (move (round-cached m head _ busy e r i o d.set refl k' ve' vr' st d.sets hit))
            (λ Q dead all. all)
            (dead_pick s' st (
              settled_dead s' (
                cache_contains-AllCached m sound (IsSettled m h0 head xs0 (length xs)) c
                  (entry_of s') ok hit)))
            (omega arith) (ih c ok)

      abbrev pub pushed : S → Cache S
      pushed s' = cache_push c (Bitset.hash d.set) (entry_of s')

      abbrev pub frame : List (CallsEntry S)
      frame = record { entry = some e; state = s } ∷ calls

      down :
          (s' : S)
          → m.step s i o ≡ (true, s')
          → cache_contains m c (entry_of s') ≡ false
          → iteration m head false (at_level m h0 head xs0 h (some e) s b c calls)
            ≡ running (at_level m h0 head xs0 d.heap (head? below) s' d.set (pushed s') frame)
      down s' st miss =
          round-lifted m head _ busy e r i o s' d.set d.heap refl k' ve' vr' st d.sets miss d.lifts
          ∙ ap (λ z. running (at_level m h0 head xs0 d.heap z s' d.set (pushed s') frame))
              (Chain-head? d.heap head below d.level.chain)

      -- The level below has no operation left: the loop ends.
      pub scan_done :
          (s' : S)
          → m.step s i o ≡ (true, s')
          → cache_contains m c (entry_of s') ≡ false
          → has e (calls_prefix h0 xs) ≡ true
          → below ≡ []
          → Explored m h0 head xs0 h xs b s calls c (e ∷ rest) (bound + 2)
      scan_done s' st miss hp empty =
          found 1 (at_level m h0 head xs0 d.heap (head? below) s' d.set (pushed s') frame)
            (omega arith) (next (down s' st miss) here)
            (Chain-head? d.heap head below d.level.chain ∙ ap head? empty)
            (pick e r i o hp k ve vr st (subst (IsLinearizable m h0 s') (sym empty) done))

      not-IsLinearizable-below :
          (s' : S) (y : Ptr) (ys : List Ptr)
          → below ≡ y ∷ ys
          → NoPick m h0 head xs0 s' below below
          → ¬ IsLinearizable m h0 s' below
      not-IsLinearizable-below s' y ys shape np lin =
          NoPick-IsLinearizable m h0 head xs0 s' y ys
            (subst (λ z. NoPick m h0 head xs0 s' z z) shape np)
            (subst (IsLinearizable m h0 s') shape lin)

      -- The search of the level below has ended, one way or the other.
      pub scan_below :
          (s' : S) (y : Ptr) (ys : List Ptr) (kd : ℕ)
          → m.step s i o ≡ (true, s')
          → cache_contains m c (entry_of s') ≡ false
          → has e (calls_prefix h0 xs) ≡ true
          → below ≡ y ∷ ys
          → Explored m h0 head xs0 d.heap below d.set s' frame (pushed s') below kd
          → Explored m h0 head xs0 h xs b s calls c (e ∷ rest) (bound + (kd + 2))
      scan_below s' y ys kd st miss hp shape (found n t le steps em lin) =
          found (suc n) t (omega arith) (next (down s' st miss) steps) em
            (pick e r i o hp k ve vr st lin)
      scan_below s' y ys kd st miss hp shape (exhausted n z c' le steps end ext np) =
          let dead = not-IsLinearizable-below s' y ys shape np in
          let dead' : IsDead m h0 head xs0 (entry_of s') =
            λ lin. dead (subst (IsLinearizable m h0 s') (sym d.level.left) lin) in
          let ext' : Extends m h0 head xs0 c c' = λ Q all_dead all.
            ext Q all_dead
              (AllCached-push Q c _ (entry_of s') all (all_dead (entry_of s') dead')) in
          let back =
            round-backtrack m head (at_level m h0 head xs0 d.heap (some z) s' d.set c' frame)
              (Chain-head? d.heap head below d.level.chain ∙ ap head? shape) z e s calls b h refl
              (ap (λ f. f z) d.level.nodes.matched ∙ end) refl d.clears d.unlifts in
          let (j, q, all_steps) = Steps-trans m head (next (down s' st miss) steps) (
            next (back ∙ ap (λ w. running (at_level m h0 head xs0 h w s b c' calls)) (nx ∙ sym hd))
              here) in
          Explored-after m h0 head xs0 (bound + (kd + 2)) all_steps ext' (dead_pick s' st dead)
            (omega arith) (ih c' (ext' (IsSettled m h0 head xs0 (length xs)) (λ x. inl) ok))
