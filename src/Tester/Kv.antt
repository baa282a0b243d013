-- ===== src/Tester/Kv.antt =====
-- raft/src/kv/config.rs: the tester of the key-value servers over Raft. `none` is a panic, but in
-- `leader`, where it is `Err(Error::NoLeader)`. The servers are a parameter: `N` stands for the nodes,
-- `make` for what makes one from the names of its clients, its number, the address of its persister
-- and `maxraftstate`, and `is_leader` for what a node says. A slice of length `n` is a function from
-- indices. The clock is left out. Proofs are in the child modules.
pub mod Each
pub mod Loops
pub mod Groups
pub mod Split
pub mod Cut
pub mod Names
pub mod Runs
mod Tests
use key_value_distributed_sy.Base.{
  ◌>>=◌, ℕ, zero, suc, ◌+◌, ◌/◌, Bool, true, false, ◌&&◌, not, Option, none, some, List, [], ◌∷◌,
  ◌++◌, ltb, ◌==◌, if◌then◌else◌, length,
}
use key_value_distributed_sy.Base.Decimal.{to_string}
use key_value_distributed_sy.Base.Loops.{each, put}
use key_value_distributed_sy.Base.Text.{Text, same_text}
use key_value_distributed_sy.Labrpc.Network
use key_value_distributed_sy.Labrpc.Network.{
  NetworkCore, create, create_client, enable, add_server, delete_server, set_reliable, insert,
  HashMap,
}
use key_value_distributed_sy.Tester.Persister.{
  Persisters, new_persister, make_persister, copy_persister, raft_state, snapshot,
}
use key_value_distributed_sy.Tester.Config.{names, kill_node}

-- With the counters behind `uniqstring` and the numbers of servers, and the nodes that were killed.
pub record KvConfig (N : Type 0) : Type 0 where
  pub net : NetworkCore
  pub n : ℕ
  pub kvservers : ℕ → Option N
  pub saved : ℕ → ℕ
  pub endnames : ℕ → ℕ → Text
  pub clerks : HashMap (ℕ → Text)
  pub next_client_id : ℕ
  pub maxraftstate : Option ℕ
  pub ops : ℕ
  pub next_id : ℕ
  pub next_server : ℕ
  pub persisters : Persisters
  pub killed : List N

-- `for j in js`, where a turn may panic.
abbrev pub each_of : {S : Type 0} → List ℕ → (ℕ → S → Option S) → S → Option S
each_of [] f s = some s
each_of (j ∷ js) f s = do next ← f j s; each_of js f next

-- `(0..n).collect()`
abbrev pub all : ℕ → List ℕ
all zero = []
all (suc k) = all k ++ k ∷ []

-- What `connect` and `disconnect` read of the servers.
pub record Ends : Type 0 where
  pub n : ℕ
  pub endnames : ℕ → ℕ → Text

-- `net.enable(&endnames[i][j], on)`
abbrev pub enable_end : Ends → ℕ → ℕ → Bool → NetworkCore → Option NetworkCore
enable_end ends i j on net =
    if ltb i ends.n && ltb j ends.n then some (enable (ends.endnames i j) on net) else none

-- The same below the test `!endnames[i].is_empty()`, of a row of length `n`.
abbrev pub disable_end : Ends → ℕ → ℕ → ℕ → NetworkCore → Option NetworkCore
disable_end ends row i j net =
    if ltb row ends.n
    then if not (ends.n == 0) then enable_end ends i j false net else some net
    else none

unfoldable pub connect : Ends → ℕ → List ℕ → NetworkCore → Option NetworkCore
connect ends i to net = do
  outgoing ← each_of to (λ j. enable_end ends i j true) net
  each_of to (λ j. enable_end ends j i true) outgoing

unfoldable pub disconnect : Ends → ℕ → List ℕ → NetworkCore → Option NetworkCore
disconnect ends i from net = do
  outgoing ← each_of from (λ j. disable_end ends i i j) net
  each_of from (λ j. disable_end ends j j i) outgoing

-- One turn of the loops of `partition`.
abbrev pub isolate : Ends → List ℕ → List ℕ → ℕ → NetworkCore → Option NetworkCore
isolate ends own other i net = do off ← disconnect ends i other net; connect ends i own off

unfoldable pub partition : Ends → List ℕ → List ℕ → NetworkCore → Option NetworkCore
partition ends p1 p2 net = do
  first ← each_of p1 (isolate ends p1 p2) net
  each_of p2 (isolate ends p2 p1) first

abbrev pub connect_all : Ends → NetworkCore → Option NetworkCore
connect_all ends = each_of (all ends.n) (λ i. connect ends i (all ends.n))

-- The first node of `0..k` that says that it is the leader.
module _ {N : Type 0} (is_leader : N → Bool) (kvservers : ℕ → Option N) where
  abbrev pub claims : Option N → Bool
  claims none = false
  claims (some kv) = is_leader kv

  abbrev pub leader_before : ℕ → Option ℕ
  leader_before zero = none
  leader_before (suc k) = elim (leader_before k) [
    | some i ↦ some i
    | none ↦ if claims (kvservers k) then some k else none
  ]

abbrev pub unwrap_or : Option ℕ → ℕ → ℕ
unwrap_or none d = d
unwrap_or (some i) d = i

-- One turn of the loop of `make_partition`.
abbrev pub place : ℕ → ℕ → ℕ → List ℕ × List ℕ → List ℕ × List ℕ
place n l i (p1, p2) =
    if not (i == l)
    then if ltb (length p1) (n / 2 + 1) then (p1 ++ i ∷ [], p2) else (p1, p2 ++ i ∷ [])
    else (p1, p2)

-- `make_partition` for the leader `l`.
unfoldable pub make_partition : ℕ → ℕ → List ℕ × List ℕ
make_partition n l = let (p1, p2) = each n (place n l) ([], []) in (p1, p2 ++ l ∷ [])

-- `if n > logsize { logsize = n }`
abbrev pub larger : ℕ → ℕ → ℕ
larger k size = if ltb size k then k else size

-- `uniqstring()`, once for each of the servers.
abbrev pub fresh_names : ℕ → ℕ → Text
fresh_names next_id j = to_string (next_id + j)

-- A fresh set of ClientEnds.
abbrev pub make_ends : ℕ → (ℕ → Text) → NetworkCore → NetworkCore
make_ends n row =
    each n (λ j net. Network.connect (row j) (to_string j) (create_client (row j) net))

module _ {N : Type 0} where
  abbrev pub ends_of : KvConfig N → Ends
  ends_of c = record { n = c.n; endnames = c.endnames }

  abbrev pub leader : (N → Bool) → KvConfig N → Option ℕ
  leader is_leader c = leader_before is_leader c.kvservers c.n

  abbrev pub split : (N → Bool) → KvConfig N → List ℕ × List ℕ
  split is_leader c = make_partition c.n (unwrap_or (leader is_leader c) 0)

  abbrev pub log_size : KvConfig N → ℕ
  log_size c = each c.n (λ i. larger (length (raft_state (c.saved i) c.persisters))) 0

  abbrev pub snapshot_size : KvConfig N → ℕ
  snapshot_size c = each c.n (λ i. larger (length (snapshot (c.saved i) c.persisters))) 0

  -- A new persister with what the old one holds.
  abbrev pub renew : ℕ → KvConfig N → KvConfig N
  renew i c =
      let (p, persisters) = copy_persister (c.saved i) c.persisters in
      record c { persisters = persisters; saved = put c.saved i p }

  abbrev pub stop : ℕ → KvConfig N → KvConfig N
  stop i c = record c {
    kvservers = put c.kvservers i none;
    killed = kill_node (c.kvservers i) c.killed;
  }

  unfoldable pub shutdown_server : ℕ → KvConfig N → Option (KvConfig N)
  shutdown_server i c = do
    net ← disconnect (ends_of c) i (all c.n) c.net
    let off : KvConfig N = record c { net = delete_server (to_string i) net }
    if ltb i c.n then some (stop i (renew i off)) else none

  abbrev pub add_kv : (List Text → ℕ → ℕ → Option ℕ → N) → ℕ → KvConfig N → KvConfig N
  add_kv make i c =
      let node = make (names c.n (c.endnames i)) i (c.saved i) c.maxraftstate in
      record c {
        kvservers = put c.kvservers i (some node);
        net = add_server (record { name = to_string i; id = c.next_server }) c.net;
        next_server = suc c.next_server;
      }

  unfoldable pub start_server :
      (List Text → ℕ → ℕ → Option ℕ → N) → ℕ → KvConfig N → Option (KvConfig N)
  start_server make i c =
      let row = fresh_names c.next_id in
      let named : KvConfig N = record c {
        endnames = put c.endnames i row;
        next_id = c.next_id + c.n;
        net = make_ends c.n row c.net;
      } in
      if ltb i c.n then some (add_kv make i (renew i named)) else none

  abbrev pub save_new : ℕ → KvConfig N → KvConfig N
  save_new i c =
      let made = make_persister c.persisters in
      record c { persisters = made.1; saved = put c.saved i made.0 }

  abbrev pub blank : ℕ → Option ℕ → ℕ → ℕ → KvConfig N
  blank n maxraftstate next_id next_server = record {
    net = create;
    n = n;
    kvservers = λ _. none;
    saved = λ _. 0;
    endnames = λ _ _. [];
    clerks = λ _. none;
    next_client_id = n + 1000;
    maxraftstate = maxraftstate;
    ops = 0;
    next_id = next_id;
    next_server = next_server;
    persisters = record { cells = λ _. new_persister; next = 0 };
    killed = [];
  }

  unfoldable pub new :
      (List Text → ℕ → ℕ → Option ℕ → N) → ℕ → Bool → Option ℕ → ℕ → ℕ → Option (KvConfig N)
  new make n unreliable maxraftstate next_id next_server = do
    let saved : KvConfig N = each n save_new (blank n maxraftstate next_id next_server)
    started ← each_of (all n) (start_server make) saved
    net ← connect_all (ends_of started) started.net
    some (record started { net = set_reliable (not unreliable) net })

  abbrev pub op : KvConfig N → KvConfig N
  op c = record c { ops = suc c.ops }

  abbrev pub delete_client : Text → KvConfig N → KvConfig N
  delete_client ck_name c = record c {
    clerks = λ name. if same_text name ck_name then none else c.clerks name;
  }

  unfoldable pub connect_client_by_name : Text → List ℕ → KvConfig N → Option (KvConfig N)
  connect_client_by_name ck_name to c = do
    row ← c.clerks ck_name
    net ← each_of to (λ j net. if ltb j c.n then some (enable (row j) true net) else none) c.net
    some (record c { net = net })

  -- With the name of the clerk; its ends are shuffled before it is made.
  unfoldable pub make_client : List ℕ → KvConfig N → Option (Text × KvConfig N)
  unfolding connect_client_by_name
  make_client to c =
      let row = fresh_names c.next_id in
      let ck_name = to_string (c.next_id + c.n) in
      let made : KvConfig N = record c {
        net = make_ends c.n row c.net;
        clerks = insert c.clerks ck_name row;
        next_client_id = suc c.next_client_id;
        next_id = c.next_id + c.n + 1;
      } in
      do connected ← connect_client_by_name ck_name to made; some (ck_name, connected)

-- What a test does with the servers.
pub data KvStep : Type 0 where
  start_of shutdown_of : ℕ → KvStep
  partition_of : List ℕ → List ℕ → KvStep

module _ {N : Type 0} (make : List Text → ℕ → ℕ → Option ℕ → N) where
  abbrev pub partition_net : List ℕ → List ℕ → KvConfig N → Option (KvConfig N)
  partition_net p1 p2 c = do net ← partition (ends_of c) p1 p2 c.net; some (record c { net = net })

  abbrev pub take_step : KvStep → KvConfig N → Option (KvConfig N)
  take_step (start_of i) = start_server make i
  take_step (shutdown_of i) = shutdown_server i
  take_step (partition_of p1 p2) = partition_net p1 p2

  abbrev pub run_steps : List KvStep → KvConfig N → Option (KvConfig N)
  run_steps [] c = some c
  run_steps (step ∷ steps) c = do next ← take_step step c; run_steps steps next
