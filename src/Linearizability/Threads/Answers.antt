-- ===== src/Linearizability/Threads/Answers.antt =====
-- What `wait_res` makes of the answers, and what `check_operations` decides.
use key_value_distributed_sy.Base.{
  ◌≡◌, refl, Bool, true, false, ◌&&◌, not, List, [], ◌∷◌, arith, length, All, ◌⊎◌,
}
use key_value_distributed_sy.Base.Int.{leb_ℤ}
use key_value_distributed_sy.Linearizability.Model.{Model, Operations}
use key_value_distributed_sy.Linearizability.Entries.{make_entries, from_entries}
use key_value_distributed_sy.Linearizability.Search.{Run}
use key_value_distributed_sy.Linearizability.Checker.Realtime.{IsLinear}
use key_value_distributed_sy.Linearizability.Threads.{
  Waited, result, answer, wait_res, sent_all, joined, tx_left, each, check_built,
}

abbrev pub all_true : List Bool → Bool
all_true [] = true
all_true (b ∷ bs) = b && all_true bs

-- When each of at least one thread sends its answer, `wait_res` ends without a panic, with the
-- conjunction of the answers, and it sets the flag exactly when that is `false`.
pub wait_res-answers :
    (b : Bool) (bs : List Bool)
    → wait_res (each result (b ∷ bs)) tx_left (length (b ∷ bs)) true
      ≡ answer (all_true (b ∷ bs)) (not (all_true (b ∷ bs)))
unfolding wait_res
wait_res-answers false bs = refl
wait_res-answers true [] = refl
wait_res-answers true (c ∷ bs) = ground (arith, wait_res-answers c bs)

module _ {S I O : Type 0} (m : Model S I O) where
  -- No operation returns before it is called.
  abbrev pub IsTimed : Operations I O → Type 0
  IsTimed = All (λ op. leb_ℤ op.call op.finish ≡ true)

  abbrev checked : Operations I O → Run
  checked ops = check_built m (from_entries (make_entries ops))

  -- The answers to some parts.
  record Answered (subs : List (Operations I O)) (bs : List Bool) : Type 0 where
    messages : sent_all (each checked subs) ≡ each result bs
    ended : (res : Waited) → joined (each checked subs) res ≡ res
    size : length subs ≡ length bs
    right :
        (all_true bs ≡ true) × All (IsLinear m) subs
        ⊎ (all_true bs ≡ false) × (¬ All (IsLinear m) subs)
