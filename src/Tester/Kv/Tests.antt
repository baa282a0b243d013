-- ===== src/Tester/Kv/Tests.antt =====
-- The theorems on the partitions, on three servers of which server 1 is the leader.
use key_value_distributed_sy.Base.{
  ℕ, ◌+◌, ◌*◌, ◌<◌, ◌≡◌, refl, Bool, true, false, Option, none, some, List, [], ◌∷◌, ◌==◌, length,
  has, arith,
}
use key_value_distributed_sy.Base.Decimal.{to_string, to_string_inj}
use key_value_distributed_sy.Labrpc.Network.{NetworkCore, create}
use key_value_distributed_sy.Tester.Config.Ends.{is_enabled}
use key_value_distributed_sy.Tester.Kv.{
  KvConfig, blank, ends_of, connect, disconnect, partition, split, start_server, shutdown_server,
  new, KvStep, start_of, shutdown_of, run_steps,
}
use key_value_distributed_sy.Tester.Kv.Loops.{IsApart}
use key_value_distributed_sy.Tester.Kv.Groups.{linked, IsDisjoint, partition-linked}
use key_value_distributed_sy.Tester.Kv.Cut.{chosen, same_group}
use key_value_distributed_sy.Tester.Kv.Runs.{run_steps-split}
use key_value_distributed_sy.Base.Text.{Text}

-- A node is represented by its number.
abbrev c : KvConfig ℕ
c = record (blank 3 none 9 0) { kvservers = λ i. some i; endnames = λ i j. to_string (3 * i + j) }

abbrev is_leader : ℕ → Bool
is_leader i = i == 1

apart : IsApart (ends_of c)
apart i j k l hi hj hk hl e =
    let same = to_string_inj (3 * i + j) (3 * k + l) e in (omega arith, omega arith)

disjoint : IsDisjoint (0 ∷ 2 ∷ []) (1 ∷ [])
disjoint i h k = absurd (ground (arith, h, k))

unwrap_net : Option NetworkCore → NetworkCore
unwrap_net none = create
unwrap_net (some net) = net

abbrev cut : NetworkCore
cut = unwrap_net (partition (ends_of c) (0 ∷ 2 ∷ []) (1 ∷ []) c.net)

cut_run : partition (ends_of c) (0 ∷ 2 ∷ []) (1 ∷ []) c.net ≡ some cut
unfolding partition connect disconnect unwrap_net
cut_run = refl

partition-linked_example :
    is_enabled cut (c.endnames 0 1)
    ≡ linked (0 ∷ 2 ∷ []) (1 ∷ []) 0 1 (is_enabled c.net (c.endnames 0 1))
partition-linked_example =
    partition-linked (ends_of c) (0 ∷ 2 ∷ []) (1 ∷ []) c.net cut apart disjoint cut_run 0 1
      (omega arith) (omega arith)

-- A new tester, whose server 2 is shut down and started again.
abbrev make : List Text → ℕ → ℕ → Option ℕ → ℕ
make names i saved maxraftstate = i

unwrap_config : Option (KvConfig ℕ) → KvConfig ℕ
unwrap_config none = c
unwrap_config (some d) = d

abbrev fresh : KvConfig ℕ
fresh = unwrap_config (new make 3 true none 7 0)

fresh_run : new make 3 true none 7 0 ≡ some fresh
unfolding new start_server connect unwrap_config
fresh_run = refl

abbrev steps : List KvStep
steps = shutdown_of 2 ∷ start_of 2 ∷ []

abbrev restarted : KvConfig ℕ
restarted = unwrap_config (run_steps make steps fresh)

restarted_run : run_steps make steps fresh ≡ some restarted
unfolding new start_server shutdown_server connect disconnect unwrap_config
restarted_run = refl

run_steps-split_example :
    (restarted.n < 2 * length (split is_leader restarted).0)
    × (has (chosen is_leader restarted) (split is_leader restarted).0 ≡ false)
    × (net : NetworkCore) × (partition
          (ends_of restarted)
          (split is_leader restarted).0
          (split is_leader restarted).1
          restarted.net
        ≡ some net)
    × ((a b : ℕ)
        → a < restarted.n
        → b < restarted.n
        → is_enabled net (restarted.endnames a b)
          ≡ some (same_group (split is_leader restarted).0 a b))
run_steps-split_example =
    run_steps-split make 3 true none 7 0 steps fresh restarted is_leader fresh_run restarted_run
      (omega arith)
