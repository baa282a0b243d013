-- ===== src/Tester/Leaders/Tests.antt =====
-- The theorem on `check_one_leader`, on three servers of which one leads in the second turn.
use key_value_distributed_sy.Base.{
  ℕ, ◌<◌, ◌≡◌, refl, Bool, ◌&&◌, ◌||◌, Option, some, ltb, ◌==◌, if◌then◌else◌,
}
use key_value_distributed_sy.Tester.Leaders.{State, check_one_leader}
use key_value_distributed_sy.Tester.Leaders.Claims.{IsQuiet, IsOneLeader, check_one_leader_lem}

-- Server 0 is a leader of an old term that is not connected.
abbrev connected : ℕ → Bool
connected i = ltb 0 i

abbrev states : ℕ → ℕ → Option State
states k i =
    some (record { term = if i == 0 then 1 else 4; is_leader = (i == 0) || ((i == 2) && ltb 0 k) })

run : check_one_leader 3 connected states ≡ some 2
unfolding check_one_leader
run = refl

check_one_leader_lem_example :
    (k : ℕ) × (k < 10) × IsQuiet 3 connected states 0 k × IsOneLeader 3 connected states k 2
check_one_leader_lem_example = check_one_leader_lem 3 connected states 2 run
