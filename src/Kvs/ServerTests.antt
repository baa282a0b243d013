-- ===== src/Kvs/ServerTests.antt =====
-- The theorems on the server, the client and their program, with the sample codec.
use key_value_distributed_sy.Base.{
  ℕ, zero, suc, subst, ◌≤◌, ◌<◌, ◌≡◌, refl, true, false, Option, none, some, List, [], ◌∷◌, ◌++◌,
  inr, length, arith,
}
use key_value_distributed_sy.Base.Text.{Text}
use key_value_distributed_sy.Kvs.Errors.{syntax, eof, Decoded, parsed, refused, panicked, is_ok, ok}
use key_value_distributed_sy.Kvs.Log.{Command, set, Bytes, take, to_bytes}
use key_value_distributed_sy.Kvs.Sample.{sample, parse}
use key_value_distributed_sy.Kvs.Engine.{KvsEngine}
use key_value_distributed_sy.Kvs.Server.{
  Wire, Socket, Incoming, accept_failed, accepted, run, serve_client, process_request, executed,
  max_retries,
}
use key_value_distributed_sy.Kvs.Server.Retries.{pauses, failures, run_retries}
use key_value_distributed_sy.Kvs.Server.Requests.{serve_all, run_first_unserved}
use key_value_distributed_sy.Kvs.Client.{
  Stream, ClientWire, connect, client_get, client_set, client_remove,
}
use key_value_distributed_sy.Kvs.Client.Connects.{first_success, outcome, reported, connect_first}
use key_value_distributed_sy.Kvs.Client.Answers.{IsReading, client_fails}
use key_value_distributed_sy.Kvs.Main.{
  EngineFile, Exit, served, Engines, kvs, sled, Names, World, IsNaming, ended, main, missing,
  holding, wrong_engine, main_records,
}

abbrev read_back : Option Command → Decoded Command
read_back none = refused syntax
read_back (some c) = parsed c

abbrev wire : Wire
wire = record {
  to_vec = λ c. inr (to_bytes sample c);
  from_slice = λ bytes. read_back (parse bytes);
}

abbrev client_of : Command → Socket
client_of c = record { arrived = to_bytes sample c; reads = true; writes = true }

-- An engine that keeps the value that was set last, under every key.
abbrev engine : KvsEngine (Option Text)
engine = record {
  engine_set = λ s key value. (some value, ok tt);
  engine_get = λ s key. (s, ok s);
  engine_remove = λ s key. (none, ok tt);
}

abbrev key : Text
key = 107 ∷ []

abbrev store : Option Text
store = none

abbrev clients : List Incoming
clients = accept_failed ∷ accepted (client_of (set key (97 ∷ []))) ∷ []

abbrev store_after : Option Text
store_after = some (97 ∷ [])

clients_served : serve_all engine wire store clients ≡ some store_after
unfolding serve_client process_request executed
clients_served = refl

run_retries_example :
    ((run engine wire store clients).0.retries ≤ max_retries)
    × ((run engine wire store clients).0.slept ≡ pauses (run engine wire store clients).0.retries)
    × ((run engine wire store clients).1 ≡ none
        → ((run engine wire store clients).0.retries ≡ failures clients)
          × (failures clients < max_retries))
run_retries_example = run_retries engine wire store clients

-- A client whose request is not a command.
abbrev confused : Socket
confused = record { arrived = 9 ∷ 9 ∷ []; reads = true; writes = true }

unserved : is_ok (serve_client engine wire store_after confused).1 ≡ false
unfolding serve_client process_request
unserved = refl

run_first_unserved_example :
    ((run engine wire store (clients ++ (accepted confused ∷ []))).1 ≡ some panicked)
    × ((run engine wire store (clients ++ (accepted confused ∷ []))).0.engine
        ≡ (serve_client engine wire store_after confused).0)
    × ((run engine wire store (clients ++ (accepted confused ∷ []))).0.retries ≡ failures clients)
run_first_unserved_example =
    run_first_unserved engine wire store store_after clients [] confused clients_served
      (omega arith) unserved

-- The third attempt succeeds.
abbrev attempts : ℕ → Option ℕ
attempts zero = none
attempts (suc zero) = none
attempts (suc (suc n)) = some n

connect_first_example : reported (connect attempts) ≡ some (outcome (first_success attempts 5 0))
connect_first_example = connect_first attempts

-- A stream that holds what is to be read from it.
abbrev stream : Stream Bytes
stream = record { write_all = λ s bytes. some s; read = λ s n. some (s, take n s) }

abbrev client_wire : ClientWire
client_wire = record { to_vec = λ c. inr (to_bytes sample c); from_slice = λ bytes. refused eof }

length-take : (n : ℕ) (bytes : Bytes) → length (take n bytes) ≤ n
length-take zero bytes = omega arith
length-take (suc n) [] = omega arith
length-take (suc n) (b ∷ bytes) = let h = length-take n bytes in omega arith

stream-IsReading : IsReading stream
stream-IsReading s t n bytes e =
    let same : take n s ≡ bytes = cc in subst (λ b. length b ≤ n) same (length-take n s)

client_fails_example :
    (is_ok (client_get stream client_wire (1 ∷ 2 ∷ []) key).1 ≡ false)
    × (is_ok (client_set stream client_wire (1 ∷ 2 ∷ []) key (97 ∷ [])).1 ≡ false)
    × (is_ok (client_remove stream client_wire (1 ∷ 2 ∷ []) key).1 ≡ false)
client_fails_example =
    client_fails stream client_wire stream-IsReading refl (1 ∷ 2 ∷ []) key (97 ∷ [])

abbrev parse_name : Text → Option Engines
parse_name [] = none
parse_name (zero ∷ _) = some kvs
parse_name (suc _ ∷ _) = some sled

abbrev display_name : Engines → Text
display_name kvs = 0 ∷ []
display_name sled = 1 ∷ []

abbrev names : Names
names = record { parse = parse_name; display = display_name }

names-IsNaming : IsNaming names
names-IsNaming kvs = refl
names-IsNaming sled = refl

abbrev world : World
world = record { writes = true; pool = none; disk = []; incoming = clients }

-- The next run meets the log file that the first one made.
abbrev later : World
later = record { writes = true; pool = none; disk = (1, []) ∷ []; incoming = clients }

abbrev program : World → Option Engines → EngineFile → EngineFile × Exit
program = main names sample wire

main_records_example :
    (program world (some sled) missing
      ≡ ended names sample wire (holding (display_name kvs), served names sample wire world none))
    × (program later (some sled) (program world (some sled) missing).0
        ≡ ((program world (some sled) missing).0, wrong_engine))
    × (program later (some kvs) (program world (some sled) missing).0
        ≡ ended names sample wire
            ((program world (some sled) missing).0, served names sample wire later none))
    × (program later none (program world (some sled) missing).0
        ≡ ended names sample wire
            ((program world (some sled) missing).0, served names sample wire later none))
main_records_example =
    main_records names sample wire world later (some sled) names-IsNaming refl refl
