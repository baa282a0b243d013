-- ===== src/Tester/Config.antt =====
-- raft/src/raft/config.rs: the tester of Raft, with its servers on the simulated network. A slice of
-- length `n` is a function from indices, and the operations panic, `none`, on an index that is not
-- below `n`. Raft is a parameter: `N` stands for its nodes and `make` for `Raft::new` and `Node::new`,
-- from the names of the clients, the number of the server and the address of its persister. The clock
-- is left out, and what the servers apply is in Tester/Storage. Proofs are in the child modules.
pub mod Ends
pub mod Wired
pub mod Joined
pub mod Starts
pub mod Rows
pub mod Runs
pub mod Kept
pub mod Crashes
pub mod Retired
mod Tests
use key_value_distributed_sy.Base.{
  ℕ, zero, suc, ◌+◌, Bool, true, false, not, Option, none, some, List, [], ◌∷◌, ◌++◌, ltb,
  if◌then◌else◌,
}
use key_value_distributed_sy.Base.Decimal.{to_string}
use key_value_distributed_sy.Base.Loops.{each, put}
use key_value_distributed_sy.Base.Text.{Text}
use key_value_distributed_sy.Labrpc.Network
use key_value_distributed_sy.Labrpc.Network.{
  NetworkCore, Server, create, create_client, enable, add_server, delete_server, set_reliable,
  set_long_delays,
}
use key_value_distributed_sy.Tester.Persister.{
  Persisters, new_persister, make_persister, copy_persister,
}
use key_value_distributed_sy.Tester.Storage.{Storage, new_storage}

-- With the counters behind `uniqstring`, the numbers of servers and the new persisters, and the nodes
-- that were killed.
pub record Config (N : Type 0) : Type 0 where
  pub net : NetworkCore
  pub n : ℕ
  pub rafts : ℕ → Option N
  pub connected : ℕ → Bool
  pub saved : ℕ → ℕ
  pub endnames : ℕ → ℕ → Text
  pub storage : Storage
  pub next_id : ℕ
  pub next_server : ℕ
  pub persisters : Persisters
  pub killed : List N

-- `if chosen { net.enable(name, on) }`
abbrev pub enable_if : Bool → Bool → Text → NetworkCore → NetworkCore
enable_if true on name net = enable name on net
enable_if false on name net = net

-- The names of the first `k` clients.
abbrev pub names : ℕ → (ℕ → Text) → List Text
names zero row = []
names (suc k) row = names k row ++ row k ∷ []

module _ {N : Type 0} where
  abbrev pub with_net : (NetworkCore → NetworkCore) → Config N → Config N
  with_net f c = record c { net = f c.net }

  -- The loops of `disconnect`.
  unfoldable pub disconnect : ℕ → Config N → Config N
  disconnect i c =
      let outgoing = each c.n (λ j. enable (c.endnames i j) false) c.net in
      let incoming = each c.n (λ j. enable (c.endnames j i) false) outgoing in
      record c { connected = put c.connected i false; net = incoming }

  unfoldable pub connect : ℕ → Config N → Config N
  connect i c =
      let connected = put c.connected i true in
      let outgoing = each c.n (λ j. enable_if (connected j) true (c.endnames i j)) c.net in
      let incoming = each c.n (λ j. enable_if (connected j) true (c.endnames j i)) outgoing in
      record c { connected = connected; net = incoming }

  abbrev pub kill_node : Option N → List N → List N
  kill_node none killed = killed
  kill_node (some rf) killed = rf ∷ killed

  unfoldable pub crash1 : ℕ → Config N → Config N
  unfolding disconnect
  crash1 i c =
      let off = with_net (delete_server (to_string i)) (disconnect i c) in
      let (p, persisters) = copy_persister (off.saved i) off.persisters in
      record off {
        persisters = persisters;
        saved = put off.saved i p;
        rafts = put off.rafts i none;
        killed = kill_node (off.rafts i) off.killed;
      }

  -- `self.endnames[i][j] = uniqstring()`
  abbrev pub name_end : ℕ → ℕ → Config N → Config N
  name_end i j c = record c {
    endnames = put c.endnames i (put (c.endnames i) j (to_string c.next_id));
    next_id = suc c.next_id;
  }

  abbrev pub make_client : ℕ → ℕ → Config N → Config N
  make_client i j c =
      let name = c.endnames i j in
      record c { net = Network.connect name (to_string j) (create_client name c.net) }

  abbrev pub add_raft : (List Text → ℕ → ℕ → N) → ℕ → Config N → Config N
  add_raft make i c =
      let node = make (names c.n (c.endnames i)) i (c.saved i) in
      record c {
        rafts = put c.rafts i (some node);
        net = add_server (record { name = to_string i; id = c.next_server }) c.net;
        next_server = suc c.next_server;
      }

  unfoldable pub start1_ext : (List Text → ℕ → ℕ → N) → ℕ → Config N → Config N
  unfolding crash1
  start1_ext make i c =
      let crashed = crash1 i c in
      let cleared = record crashed { endnames = put crashed.endnames i (λ _. []) } in
      let named = each c.n (name_end i) cleared in add_raft make i (each c.n (make_client i) named)

  abbrev pub save_new : ℕ → Config N → Config N
  save_new i c =
      let made = make_persister c.persisters in
      record c { persisters = made.1; saved = put c.saved i made.0 }

  -- The fields before the servers are started; `next_id` and `next_server` are what the counters hold.
  abbrev pub blank : ℕ → Bool → ℕ → ℕ → Config N
  blank n unreliable next_id next_server = record {
    net = set_long_delays true (set_reliable (not unreliable) create);
    n = n;
    rafts = λ _. none;
    connected = λ _. true;
    saved = λ _. 0;
    endnames = λ _ _. [];
    storage = new_storage n;
    next_id = next_id;
    next_server = next_server;
    persisters = record { cells = λ _. new_persister; next = 0 };
    killed = [];
  }

  unfoldable pub new_with : (List Text → ℕ → ℕ → N) → ℕ → Bool → ℕ → ℕ → Config N
  unfolding start1_ext connect
  new_with make n unreliable next_id next_server =
      let saved = each n save_new (blank n unreliable next_id next_server) in
      let started = each n (start1_ext make) saved in each n connect started

-- What a test does with the servers.
pub data TestStep : Type 0 where
  start_of crash_of connect_of disconnect_of : ℕ → TestStep

module _ {N : Type 0} (make : List Text → ℕ → ℕ → N) where
  abbrev pub index_of : TestStep → ℕ
  index_of (start_of i) = i
  index_of (crash_of i) = i
  index_of (connect_of i) = i
  index_of (disconnect_of i) = i

  abbrev pub take_step : TestStep → Config N → Config N
  take_step (start_of i) = start1_ext make i
  take_step (crash_of i) = crash1 i
  take_step (connect_of i) = connect i
  take_step (disconnect_of i) = disconnect i

  -- An index out of bounds is a panic.
  abbrev pub run_steps : List TestStep → Config N → Option (Config N)
  run_steps [] c = some c
  run_steps (step ∷ steps) c =
      let rest = run_steps steps (take_step step c) in
      if ltb (index_of step) c.n then rest else none
