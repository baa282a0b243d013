-- ===== src/Tester/Storage/Tests.antt =====
-- The theorems on the storage, on two servers that commit two entries.
use key_value_distributed_sy.Base.{ℕ, ◌≡◌, refl, Option, none, some, List, [], ◌∷◌, ◌⊎◌, All}
use key_value_distributed_sy.Tester.Storage.{
  Entry, Log, insert, Storage, new_storage, n_committed, apply_command,
}
use key_value_distributed_sy.Tester.Storage.Agreement.{IsContiguous, IsBelow}
use key_value_distributed_sy.Tester.Storage.Accepts.{IsAccepted, IsTaken, apply_command_lem}
use key_value_distributed_sy.Tester.Storage.Counts.{holders, commit_all, n_committed-commit_all}

abbrev commits : List (ℕ × ℕ × Entry)
commits = (0, 1, 7) ∷ (1, 1, 7) ∷ (0, 2, 8) ∷ []

abbrev first : Log
first = insert (insert (λ k. none) 1 7) 2 8

abbrev second : Log
second = insert (λ k. none) 1 7

abbrev storage : Storage
storage = record { logs = first ∷ second ∷ []; max_index = 2; max_index0 = 0 }

all_taken : commit_all commits (new_storage 2) ≡ some storage
unfolding apply_command
all_taken = refl

n_committed-commit_all_example :
    (found : Option Entry) × (n_committed storage 1 ≡ some (2, found))
    × (holders storage.logs 1 ≡ 0 → found ≡ none)
    × All (λ log. (log 1 ≡ none) ⊎ (log 1 ≡ found)) storage.logs
    × All IsContiguous storage.logs
    × All (IsBelow storage.max_index) storage.logs
n_committed-commit_all_example = n_committed-commit_all 2 commits storage 1 all_taken

apply_command_lem_example :
    (IsAccepted 1 2 9 storage
      × ((t : Storage) × (apply_command 1 2 9 storage ≡ some t) × IsTaken 1 2 9 storage t))
    ⊎ ((¬ IsAccepted 1 2 9 storage) × (apply_command 1 2 9 storage ≡ none))
apply_command_lem_example = apply_command_lem 1 2 9 storage
