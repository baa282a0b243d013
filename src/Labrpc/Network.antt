-- ===== src/Labrpc/Network.antt =====
-- crates/labrpc/src/network.rs: the endpoints of the network and what becomes of an RPC. A
-- `HashMap` is a function from keys. What `thread_rng` gives is an argument. `none` is a panic, of
-- `map[key]` on a missing key. Proofs are in the child module.
pub mod Delivery
use key_value_distributed_sy.Base.{
  ◌>>=◌, ℕ, ◌+◌, ◌%◌, Bool, true, false, ◌&&◌, ◌||◌, not, Option, none, some, ltb, ◌==◌,
  if◌then◌else◌,
}
use key_value_distributed_sy.Base.Text.{Text, same_text}

abbrev pub HashMap : Type 0 → Type 0
HashMap V = Text → Option V

module _ {V : Type 0} where
  abbrev pub insert : HashMap V → Text → V → HashMap V
  insert m key v k = if same_text k key then some v else m k

-- What the network reads of a server: its name, and the number that tells it from another server
-- with that name.
pub record Server : Type 0 where
  pub name : Text
  pub id : ℕ

pub record Endpoints : Type 0 where
  pub enabled : HashMap Bool
  pub servers : HashMap (Option Server)
  pub connections : HashMap (Option Text)

pub record NetworkCore : Type 0 where
  pub reliable : Bool
  pub long_delays : Bool
  pub long_reordering : Bool
  pub endpoints : Endpoints
  pub count : ℕ

pub record EndInfo : Type 0 where
  pub enabled : Bool
  pub reliable : Bool
  pub long_reordering : Bool
  pub server : Option Server

abbrev pub create : NetworkCore
create = record {
  reliable = true;
  long_delays = false;
  long_reordering = false;
  endpoints = record { enabled = λ _. none; servers = λ _. none; connections = λ _. none };
  count = 0;
}

-- A change of the endpoints under their lock.
abbrev pub with_endpoints : (Endpoints → Endpoints) → NetworkCore → NetworkCore
with_endpoints f net = record net { endpoints = f net.endpoints }

unfoldable pub add_server : Server → NetworkCore → NetworkCore
add_server server =
    with_endpoints (λ eps. record eps { servers = insert eps.servers server.name (some server) })

-- `if let Some(s) = eps.servers.get_mut(name) { *s = None }`
unfoldable pub delete_server : Text → NetworkCore → NetworkCore
delete_server name = with_endpoints (λ eps. elim (eps.servers name) [
  | none ↦ eps
  | some _ ↦ record eps { servers = insert eps.servers name none }
])

unfoldable pub create_client : Text → NetworkCore → NetworkCore
create_client name = with_endpoints (λ eps. record eps {
  enabled = insert eps.enabled name false;
  connections = insert eps.connections name none;
})

unfoldable pub connect : Text → Text → NetworkCore → NetworkCore
connect client_name server_name =
    with_endpoints
      (λ eps. record eps { connections = insert eps.connections client_name (some server_name) })

unfoldable pub enable : Text → Bool → NetworkCore → NetworkCore
enable client_name enabled =
    with_endpoints (λ eps. record eps { enabled = insert eps.enabled client_name enabled })

unfoldable pub set_reliable : Bool → NetworkCore → NetworkCore
set_reliable on net = record net { reliable = on }

unfoldable pub set_long_reordering : Bool → NetworkCore → NetworkCore
set_long_reordering on net = record net { long_reordering = on }

unfoldable pub set_long_delays : Bool → NetworkCore → NetworkCore
set_long_delays on net = record net { long_delays = on }

abbrev pub total_count : NetworkCore → ℕ
total_count net = net.count

-- `if let Some(Some(server_name)) = eps.connections.get(client_name)`
unfoldable pub server_of : Endpoints → Option (Option Text) → Option (Option Server)
server_of eps (some (some server_name)) = eps.servers server_name
server_of eps (some none) = some none
server_of eps none = some none

unfoldable pub end_info : NetworkCore → Text → Option EndInfo
unfolding server_of
end_info net client_name = do
  server ← server_of net.endpoints (net.endpoints.connections client_name)
  enabled ← net.endpoints.enabled client_name
  some (record {
    enabled = enabled;
    reliable = net.reliable;
    long_reordering = net.long_reordering;
    server = server;
  })

-- `servers.get(name).map_or(true, |o| o.map(|s| s.id != server_id).unwrap_or(true))`
is_gone : Option (Option Server) → ℕ → Bool
is_gone none server_id = true
is_gone (some none) server_id = true
is_gone (some (some s)) server_id = not (s.id == server_id)

unfoldable pub is_server_dead : NetworkCore → Text → Text → ℕ → Option Bool
unfolding is_gone
is_server_dead net client_name server_name server_id = do
  enabled ← net.endpoints.enabled client_name
  some (not enabled || is_gone (net.endpoints.servers server_name) server_id)

-- The random numbers of one RPC, in the order in which the code asks for them; `gen_range(0, n)` is
-- the remainder by `n`.
pub record Draws : Type 0 where
  pub short : ℕ
  pub drop_request : ℕ
  pub drop_reply : ℕ
  pub reorder : ℕ
  pub upper : ℕ
  pub delay : ℕ
  pub timeout : ℕ

-- What `Network::process_rpc` decides, with delays in milliseconds but for `drop_request`, whose
-- delay it counts in seconds.
pub data Plan : Type 0 where
  give_up : ℕ → Plan
  drop_request : ℕ → Plan
  dispatch_to : Option ℕ → Bool → Option ℕ → Server → Plan

reordering : Bool → Draws → Option ℕ
reordering long_reordering d =
    if long_reordering && ltb (d.reorder % 900) 600
    then some (200 + d.delay % (1 + d.upper % 2000))
    else none

unfoldable pub plan_for : NetworkCore → EndInfo → Bool → Option Server → Draws → Plan
unfolding reordering
plan_for net info true (some server) d =
    let short_delay : Option ℕ = if not info.reliable then some (d.short % 27) else none in
    if not info.reliable && ltb (d.drop_request % 1000) 100
    then drop_request (d.short % 27)
    else dispatch_to short_delay (not info.reliable && ltb (d.drop_reply % 1000) 100)
        (reordering info.long_reordering d) server
plan_for net info true none d =
    give_up (if net.long_delays then d.timeout % 7000 else d.timeout % 100)
plan_for net info false server d =
    give_up (if net.long_delays then d.timeout % 7000 else d.timeout % 100)

-- `Network::process_rpc` up to the call of the free function, with the network counting the RPC.
unfoldable pub process_rpc : NetworkCore → Text → Draws → Option (NetworkCore × Plan)
unfolding end_info plan_for
process_rpc net client_name d = do
  let net' : NetworkCore = record net { count = net.count + 1 }
  info ← end_info net' client_name
  some (net', plan_for net' info info.enabled info.server d)

-- `Error`. A formatted message is represented by the string that is put into it, and the errors of
-- the codec and of a cancelled channel are told apart by a number.
pub data Failure : Type 0 where
  timed_out stopped : Failure
  unimplemented : Text → Failure
  other : Text → Failure
  foreign : ℕ → Failure

pub data Reply (A : Type 0) : Type 0 where
  ok : A → Reply A
  err : Failure → Reply A

pub record Hooks (Req Resp : Type 0) : Type 0 where
  pub before_dispatch : Req → Reply Unit
  pub after_dispatch : Reply Resp → Reply Resp

-- The delay of a reply that is reordered.
abbrev pub delay_of : Option ℕ → ℕ
delay_of none = 0
delay_of (some ms) = ms

module _ {Resp : Type 0} where
  -- What is left to do with an answer, once it is known whether the server is dead, with the
  -- milliseconds for which it is held back then. Nothing is checked after that.
  reply_to : Bool → Bool → Option ℕ → Resp → ℕ × Reply Resp
  reply_to dead drop_reply long_reordering resp =
      if dead
      then (0, err stopped)
      else if drop_reply
      then (0, err timed_out)
      else (delay_of long_reordering, ok resp)

  after_answer :
      NetworkCore → Text → Server → Bool → Option ℕ → Reply Resp → Option (ℕ × Reply Resp)
  after_answer net client_name server drop_reply long_reordering (err e) = some (0, err e)
  after_answer net client_name server drop_reply long_reordering (ok resp) = do
    dead ← is_server_dead net client_name server.name server.id
    some (reply_to dead drop_reply long_reordering resp)

module _ {Req Resp : Type 0} where
  hook_before : Option (Hooks Req Resp) → Req → Reply Unit
  hook_before none req = ok tt
  hook_before (some h) req = h.before_dispatch req

  hook_after : Option (Hooks Req Resp) → Reply Resp → Reply Resp
  hook_after none resp = resp
  hook_after (some h) resp = h.after_dispatch resp

  after_before :
      NetworkCore
      → Text
      → Server
      → Bool
      → Option ℕ
      → Option (Hooks Req Resp)
      → Reply Resp
      → Reply Unit
      → Option (ℕ × Reply Resp)
  after_before net client_name server drop_reply long_reordering hooks resp (err e) =
      some (0, err e)
  after_before net client_name server drop_reply long_reordering hooks resp (ok _) =
      after_answer net client_name server drop_reply long_reordering (hook_after hooks resp)

  -- The free function `process_rpc`. `resp` is what the `select!` gives, the server's answer or
  -- `Error::Stopped` from `server_dead`, and `net` the network when it is asked after that. With the
  -- milliseconds that pass between that and the reply.
  unfoldable pub process_dispatched :
      NetworkCore
      → Text
      → Server
      → Bool
      → Option ℕ
      → Option (Hooks Req Resp)
      → Req
      → Reply Resp
      → Option (ℕ × Reply Resp)
  unfolding after_before after_answer hook_before hook_after reply_to is_server_dead
  process_dispatched net client_name server drop_reply long_reordering hooks req resp =
      after_before net client_name server drop_reply long_reordering hooks resp
        (hook_before hooks req)
