-- ===== src/Tester/Config/Tests.antt =====
-- The theorems on the tester of Raft, on two servers of which one is crashed and started again.
use key_value_distributed_sy.Base.{ℕ, ◌≡◌, refl, false, ◌&&◌, some, List, [], ◌∷◌, arith}
use key_value_distributed_sy.Base.Decimal.{to_string}
use key_value_distributed_sy.Base.Text.{Text, same_text}
use key_value_distributed_sy.Labrpc.Network
use key_value_distributed_sy.Labrpc.Network.{
  NetworkCore, Server, Draws, Plan, give_up, process_rpc, enable, delete_server, create_client,
  add_server, set_reliable, set_long_delays, end_info, server_of, plan_for,
}
use key_value_distributed_sy.Tester.Persister.{save_state_and_snapshot}
use key_value_distributed_sy.Tester.Config.{
  Config, disconnect, connect, crash1, start1_ext, new_with, crash_of, connect_of, run_steps,
}
use key_value_distributed_sy.Tester.Config.Ends.{is_enabled}
use key_value_distributed_sy.Tester.Config.Runs.{run_steps-is_enabled}
use key_value_distributed_sy.Tester.Config.Crashes.{run_steps-crash1}
use key_value_distributed_sy.Tester.Config.Retired.{run_steps-given_up}

-- A node is represented by the address of its persister.
abbrev make : List Text → ℕ → ℕ → ℕ
make names i saved = saved

abbrev fresh : Config ℕ
fresh = new_with make 2 false 0 0

abbrev crashed : Config ℕ
crashed = crash1 1 fresh

crashed_run : run_steps make (crash_of 1 ∷ []) fresh ≡ some crashed
unfolding new_with start1_ext crash1 disconnect connect
crashed_run = refl

-- Between the two servers nothing is sent now.
crashed_off : (crashed.connected 0 && crashed.connected 1) ≡ false
unfolding new_with start1_ext crash1 disconnect connect
crashed_off = refl

run_steps-is_enabled_example :
    is_enabled crashed.net (crashed.endnames 0 1)
    ≡ some (crashed.connected 0 && crashed.connected 1)
run_steps-is_enabled_example =
    run_steps-is_enabled make 2 false 0 0 (crash_of 1 ∷ []) crashed crashed_run 0 1 (omega arith)
      (omega arith)

run_steps-crash1_example :
    (save_state_and_snapshot (fresh.saved 1) (3 ∷ []) (4 ∷ []) crashed.persisters).cells
      (crashed.saved 1)
    ≡ fresh.persisters.cells (fresh.saved 1)
run_steps-crash1_example =
    run_steps-crash1 make 2 false 0 0 [] fresh refl 1 1 (omega arith) (omega arith) (3 ∷ [])
      (4 ∷ [])

abbrev again : Config ℕ
again = connect 1 (start1_ext make 1 crashed)

again_run : run_steps make (connect_of 1 ∷ []) (start1_ext make 1 crashed) ≡ some again
unfolding new_with start1_ext crash1 disconnect connect
again_run = refl

abbrev draws : Draws
draws = record {
  short = 3;
  drop_request = 500;
  drop_reply = 500;
  reorder = 0;
  upper = 0;
  delay = 0;
  timeout = 42;
}

-- The network counts the RPC.
abbrev counted : NetworkCore
counted = record again.net { count = 1 }

sent : process_rpc again.net (crashed.endnames 1 0) draws ≡ some (counted, give_up 42)
unfolding new_with start1_ext crash1 disconnect connect process_rpc end_info server_of plan_for
    enable delete_server create_client add_server set_reliable set_long_delays Network.connect
    same_text to_string
sent = refl

run_steps-given_up_example : (ms : ℕ) × (give_up 42 ≡ give_up ms)
run_steps-given_up_example =
    run_steps-given_up make 2 false 0 0 (crash_of 1 ∷ []) (connect_of 1 ∷ []) crashed again
      crashed_run 1 0 (omega arith) (omega arith) again_run draws counted (give_up 42) sent
