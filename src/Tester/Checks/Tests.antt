-- ===== src/Tester/Checks/Tests.antt =====
-- The theorems on what the tester asks of the servers, on two servers.
use key_value_distributed_sy.Base.{
  ◌<◌, ℕ, ◌≤◌, ◌≡◌, ◌↔◌, refl, Bool, true, false, Option, none, some, List, [], ◌∷◌, ◌⊎◌, ◌==◌,
  if◌then◌else◌,
}
use key_value_distributed_sy.Tester.Storage.{Entry, Log, Storage, insert, n_committed, new_storage}
use key_value_distributed_sy.Tester.Checks.{check_terms, Look, wait, Starts, Turn, one}
use key_value_distributed_sy.Tester.Checks.Terms.{IsAgreed, check_terms_iff}
use key_value_distributed_sy.Tester.Checks.Waits.{IsPast, wait-in_time}
use key_value_distributed_sy.Tester.Checks.Agrees.{Looked, Taken, IsCommon, IsStarted, one-IsCommon}

abbrev all_on : ℕ → Bool
all_on i = true

-- Server 0 has the term 0, and the others the term 4.
abbrev late_terms : ℕ → Option ℕ
late_terms i = some (if i == 0 then 0 else 4)

terms_pass : check_terms 3 all_on late_terms ≡ some 4
unfolding check_terms
terms_pass = refl

check_terms_iff_example :
    (check_terms 3 all_on late_terms ≡ some 4) ↔ IsAgreed all_on late_terms 3 4
check_terms_iff_example = check_terms_iff all_on late_terms 3 4

abbrev before : Storage
before = new_storage 2

abbrev first : Log
first = insert (λ k. none) 1 7

abbrev after : Storage
after = record { logs = first ∷ (λ k. none) ∷ []; max_index = 1; max_index0 = 0 }

-- The entry is there when the loop looks for the second time.
abbrev looks : ℕ → Look
looks k = record { storage = if k == 0 then before else after; terms = late_terms }

abbrev found : Option Entry
found = some 7

wait_run : wait 2 1 1 none looks after ≡ some (10, found)
unfolding wait n_committed
wait_run = refl

wait-in_time_example :
    (10 ≤ 30710)
    × (((found ≡ none) × (k : ℕ) × (k < 30) × IsPast 2 none (looks k).terms)
        ⊎ ((count : ℕ) × (n_committed after 1 ≡ some (count, found)) × (1 ≤ count)))
wait-in_time_example = wait-in_time 2 1 1 none looks after 10 found wait_run

-- Server 1 leads, and server 0 refuses.
abbrev answers : Starts
answers i = some (if i == 1 then some 1 else none)

abbrev turns : List Turn
turns = record { answers = answers; looks = before ∷ after ∷ [] } ∷ []

one_run : one 2 all_on 7 1 false turns ≡ some 1
unfolding one n_committed
one_run = refl

one-IsCommon_example :
    (t : Turn) × Taken t turns
    × IsStarted 2 all_on t.answers 1
    × ((s : Storage) × Looked s t.looks × IsCommon 7 1 1 s)
one-IsCommon_example = one-IsCommon 2 all_on 7 1 false turns 1 one_run
