-- ===== src/Memory/Tests.antt =====
-- The theorem on the store in memory, on strings.
use key_value_distributed_sy.Base.{ℕ, ◌≡◌, none, List, [], ◌∷◌}
use key_value_distributed_sy.Base.Maps.{same_text-IsTest}
use key_value_distributed_sy.Base.Text.{Text, same_text}
use key_value_distributed_sy.Memory.{new_store}
use key_value_distributed_sy.Memory.Refines.{
  Call, set_call, get_call, remove_call, answers, map_answers, answers-new_store,
}

abbrev calls : List (Call Text ℕ)
calls =
    set_call (107 ∷ []) 1 ∷ get_call (107 ∷ []) ∷ remove_call (107 ∷ []) ∷ get_call (107 ∷ []) ∷ []

answers-new_store_example :
    answers same_text (new_store same_text) calls ≡ map_answers same_text (λ k. none) calls
answers-new_store_example = answers-new_store same_text same_text-IsTest calls
