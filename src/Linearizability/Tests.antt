-- ===== src/Linearizability/Tests.antt =====
-- The theorems on crates/linearizability at concrete histories, heaps and bitsets.
use key_value_distributed_sy.Base.{
  ℕ, ◌≡◌, refl, true, false, none, some, List, [], ◌∷◌, ◌==◌, arith, ◌⊎◌,
}
use key_value_distributed_sy.Base.Int.{pos}
use key_value_distributed_sy.Linearizability.Bitset
use key_value_distributed_sy.Linearizability.Bitset.{Bitset, mem, IsWords, clear, new}
use key_value_distributed_sy.Linearizability.Model.{Operation, Operations}
use key_value_distributed_sy.Base.Text.{Text, same_text}
use key_value_distributed_sy.Linearizability.Models.{
  KvInput, KvOutput, get, put, append, kv_model, partition, group_ops,
}
use key_value_distributed_sy.Linearizability.Models.Keys.{kv_model-EqualIsSound}
use key_value_distributed_sy.Linearizability.Nodes.{Heap, update, lift, unlift}
use key_value_distributed_sy.Linearizability.Nodes.Lift.{Lifted, lift_lem}
use key_value_distributed_sy.Linearizability.Search.{
  finished, iteration, cache_contains, check_single,
}
use key_value_distributed_sy.Linearizability.Entries.{make_entries, from_entries}
use key_value_distributed_sy.Linearizability.Entries.Build.{IsBuilt, from_entries-IsBuilt}
use key_value_distributed_sy.Linearizability.Entries.Sorted.{make_entries-IsComplete}
use key_value_distributed_sy.Linearizability.Checker.Spec.{IsComplete, Linearizes}
use key_value_distributed_sy.Linearizability.Checker.Total.{check_single-decides}
use key_value_distributed_sy.Linearizability.Checker.Kill.{check_single_sound}
use key_value_distributed_sy.Linearizability.Threads.{answer, check_operations}

abbrev key_x : Text
key_x = 120 ∷ []

abbrev key_y : Text
key_y = 121 ∷ []

-- `put x a`, while a `get x` that sees it runs, and an `append` to `y`.
abbrev put_a : Operation KvInput KvOutput
put_a = record {
  input = record { op = put; key = key_x; value = 97 ∷ [] };
  call = pos 0;
  output = record { value = [] };
  finish = pos 10;
}

abbrev get_a : Operation KvInput KvOutput
get_a = record {
  input = record { op = get; key = key_x; value = [] };
  call = pos 5;
  output = record { value = 97 ∷ [] };
  finish = pos 7;
}

abbrev append_b : Operation KvInput KvOutput
append_b = record {
  input = record { op = append; key = key_y; value = 98 ∷ [] };
  call = pos 6;
  output = record { value = [] };
  finish = pos 8;
}

abbrev on_x : Operations KvInput KvOutput
on_x = put_a ∷ get_a ∷ []

abbrev all_ops : Operations KvInput KvOutput
all_ops = put_a ∷ get_a ∷ append_b ∷ []

-- A `get` that saw a value nobody wrote.
abbrev lost_get : Operation KvInput KvOutput
lost_get = record get_a { output = record { value = 99 ∷ [] } }

found_run :
    check_single kv_model
      (from_entries (make_entries on_x)).nodes
      (from_entries (make_entries on_x)).heap
      (λ _. false)
    ≡ finished true
unfolding check_single make_entries from_entries iteration Bitset.set new cache_contains lift
    same_text Bitset.hash
found_run = refl

lost_run :
    check_operations kv_model partition (put_a ∷ lost_get ∷ append_b ∷ []) ≡ answer false true
unfolding check_operations partition group_ops make_entries from_entries iteration Bitset.set new
    cache_contains lift clear unlift
lost_run = refl

on_x-IsComplete : IsComplete 2 (make_entries on_x)
on_x-IsComplete = make_entries-IsComplete on_x (refl, (refl, tt))

check_single-decides_example :
    ((check_single kv_model
          (from_entries (make_entries on_x)).nodes
          (from_entries (make_entries on_x)).heap
          (λ _. false)
        ≡ finished true)
      × ((order : List ℕ) × Linearizes kv_model [] (make_entries on_x) order))
    ⊎ ((check_single kv_model
            (from_entries (make_entries on_x)).nodes
            (from_entries (make_entries on_x)).heap
            (λ _. false)
          ≡ finished false)
        × ((order : List ℕ) → ¬ Linearizes kv_model [] (make_entries on_x) order))
check_single-decides_example =
    check_single-decides kv_model 2 (make_entries on_x) kv_model-EqualIsSound on_x-IsComplete

check_single_sound_example :
    ((check_single kv_model
          (from_entries (make_entries on_x)).nodes
          (from_entries (make_entries on_x)).heap
          (λ f. f == 3)
        ≡ finished true)
      × ((order : List ℕ) × Linearizes kv_model [] (make_entries on_x) order))
    ⊎ (check_single kv_model
          (from_entries (make_entries on_x)).nodes
          (from_entries (make_entries on_x)).heap
          (λ f. f == 3)
        ≡ finished false)
check_single_sound_example =
    check_single_sound kv_model 2 (make_entries on_x) (λ f. f == 3) kv_model-EqualIsSound
      on_x-IsComplete

make_entries-IsComplete_example : IsComplete 3 (make_entries all_ops)
make_entries-IsComplete_example = make_entries-IsComplete all_ops (refl, (refl, (refl, tt)))

from_entries-IsBuilt_example : IsBuilt (from_entries (make_entries on_x)) (make_entries on_x)
from_entries-IsBuilt_example = from_entries-IsBuilt (make_entries on_x)

-- A sentinel at 0, a call at 1 and its return at 2.
abbrev three_nodes : Heap ℕ
three_nodes = record {
  fresh = 3;
  value = λ p. p;
  matched = update (λ _. none) 1 (some 2);
  id = λ _. 0;
  next = update (update (λ _. none) 0 (some 1)) 1 (some 2);
  prev = update (update (λ _. none) 1 (some 0)) 2 (some 1);
}

lift_lem_example : Lifted three_nodes 0 1 2 (1 ∷ 2 ∷ [])
lift_lem_example =
    lift_lem three_nodes 0 1 2 2 (1 ∷ 2 ∷ []) (refl, refl, (refl, refl, refl))
      (refl, (refl, (refl, tt))) refl refl (λ e. omega arith) refl refl

set_run : Bitset.set (0 ∷ 5 ∷ []) 65 ≡ some (0 ∷ 7 ∷ [])
unfolding Bitset.set
set_run = refl

abbrev one_word : Bitset
one_word = 1 ∷ []

abbrev two_words : Bitset
two_words = 1 ∷ 0 ∷ []
