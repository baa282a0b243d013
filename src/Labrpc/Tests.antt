-- ===== src/Labrpc/Tests.antt =====
-- The theorems on crates/labrpc on a network of one client and one server.
use key_value_distributed_sy.Base.{ℕ, ◌≡◌, refl, true, false, Option, none, some, [], ◌∷◌}
use key_value_distributed_sy.Base.Text.{Text, same_text}
use key_value_distributed_sy.Labrpc.Network.{
  Server, NetworkCore, create, add_server, create_client, connect, enable, Draws, dispatch_to,
  process_rpc, ok, Hooks, process_dispatched,
}
use key_value_distributed_sy.Labrpc.Network.Delivery.{
  IsDelivered, IsHeldFor, process_dispatched-IsDelivered, process_rpc-reliable,
}

abbrev client : Text
client = 99 ∷ []

abbrev server : Server
server = record { name = 115 ∷ []; id = 0 }

abbrev ready : NetworkCore
ready =
    add_server server
      (enable client true (connect client server.name (create_client client create)))

abbrev draws : Draws
draws = record {
  short = 30;
  drop_request = 500;
  drop_reply = 500;
  reorder = 100;
  upper = 10;
  delay = 12;
  timeout = 230;
}

abbrev no_hooks : Option (Hooks ℕ ℕ)
no_hooks = none

answered :
    process_dispatched ready client server false (some 300) no_hooks 5 (ok 7) ≡ some (300, ok 7)
unfolding process_dispatched add_server enable connect create_client same_text
answered = refl

process_dispatched-IsDelivered_example :
    IsDelivered ready client server false × IsHeldFor (some 300) 300
process_dispatched-IsDelivered_example =
    process_dispatched-IsDelivered ready client server false (some 300) no_hooks 5 (ok 7) 7 300
      answered

process_rpc-reliable_example :
    (net' : NetworkCore) × (process_rpc ready client draws
      ≡ some (net', dispatch_to none false none server))
process_rpc-reliable_example = process_rpc-reliable create client server draws refl refl
