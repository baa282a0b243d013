-- ===== src/Kvs/Server.antt =====
-- project_5/src/server.rs: the server, over an engine. Proofs are in
-- the child modules.
pub mod Retries
pub mod Requests
use key_value_distributed_sy.Base.{
  ℕ, suc, ◌*◌, Bool, true, false, Option, none, some, List, [], ◌∷◌, ◌⊎◌, inl, inr, ltb,
  if◌then◌else◌,
}
use key_value_distributed_sy.Base.Text.{Text}
use key_value_distributed_sy.Kvs.Errors.{
  CacheError, server_error, too_many_retries, io_error, Result, ok, err, panicked, Category,
  from_serde, Decoded, parsed, refused,
}
use key_value_distributed_sy.Kvs.Engine.{KvsEngine}
use key_value_distributed_sy.Kvs.Log.{Command, set, get, remove, Bytes, take}

-- What the server uses of serde_json.
pub record Wire : Type 0 where
  pub to_vec : Command → Category ⊎ Bytes
  pub from_slice : Bytes → Decoded Command

-- A connection: the bytes that have arrived when it is read, and whether reading and writing succeed.
pub record Socket : Type 0 where
  pub arrived : Bytes
  pub reads : Bool
  pub writes : Bool

-- What one turn of the loop of `run` meets; `bind_failed` is also an error of `local_addr`.
pub data Incoming : Type 0 where
  bind_failed accept_failed : Incoming
  accepted : Socket → Incoming

abbrev pub buffer_len : ℕ
buffer_len = 128

abbrev pub max_backoff : ℕ
max_backoff = 64

abbrev pub max_retries : ℕ
max_retries = 5

-- The locals of the loop of `run`, with the seconds that it has slept, the last first.
pub record Loop (E : Type 0) : Type 0 where
  pub engine : E
  pub backoff : ℕ
  pub retries : ℕ
  pub slept : List ℕ

abbrev pub started : {E : Type 0} → E → Loop E
started e = record { engine = e; backoff = 1; retries = 0; slept = [] }

module _ {E : Type 0} (api : KvsEngine E) (wire : Wire) where
  -- An engine's answer followed by the command in place of it.
  abbrev pub echoed : {A : Type 0} → Command → E × Result A → E × Result Command
  echoed cmd (e, ok a) = (e, ok cmd)
  echoed cmd (e, err x) = (e, err x)
  echoed cmd (e, panicked) = (e, panicked)

  -- The closure of the first `and_then`.
  unfoldable pub executed : E → Command → E × Result Command
  executed e (set key value) = echoed (set key value) (api.engine_set e key value)
  executed e (get key) = echoed (get key) (api.engine_get e key)
  executed e (remove key) = echoed (remove key) (api.engine_remove e key)

  abbrev pub vec_result : Category ⊎ Bytes → Result Bytes
  vec_result (inl c) = err (from_serde c)
  vec_result (inr bytes) = ok bytes

  -- The second `and_then`.
  abbrev pub serialized : E × Result Command → E × Result Bytes
  serialized (e, ok cmd) = (e, vec_result (wire.to_vec cmd))
  serialized (e, err x) = (e, err x)
  serialized (e, panicked) = (e, panicked)

  abbrev pub on_request : E → Decoded Command → E × Result Bytes
  on_request e (parsed cmd) = serialized (executed e cmd)
  on_request e (refused c) = (e, err (from_serde c))

  unfoldable pub process_request : E → Bytes → E × Result Bytes
  process_request e request = on_request e (wire.from_slice request)

  abbrev pub is_decoded : Decoded Command → Bool
  is_decoded (parsed cmd) = true
  is_decoded (refused c) = false

  -- The answer is written when it decodes as a command, and panics otherwise.
  abbrev pub answered : Bool → Bool → E → Bytes → E × Result Bytes
  answered true true e response = (e, ok response)
  answered true false e response = (e, err io_error)
  answered false writes e response = (e, panicked)

  abbrev pub respond : Bool → E × Result Bytes → E × Result Bytes
  respond writes (e, ok response) =
      answered (is_decoded (wire.from_slice response)) writes e response
  respond writes (e, err x) = (e, err x)
  respond writes (e, panicked) = (e, panicked)

  -- With the bytes that it writes in place of `()`.
  unfoldable pub serve_client : E → Socket → E × Result Bytes
  serve_client e tcp =
      if tcp.reads
      then respond tcp.writes (process_request e (take buffer_len tcp.arrived))
      else (e, err io_error)

  -- `expect`: a client that is not served ends the server.
  abbrev pub expected : Loop E → E × Result Bytes → Loop E × Option (Result Unit)
  expected s (e, ok response) = (record s { engine = e }, none)
  expected s (e, err x) = (record s { engine = e }, some panicked)
  expected s (e, panicked) = (record s { engine = e }, some panicked)

  -- One turn of the loop; with a result when it leaves the loop.
  unfoldable pub turn : Loop E → Incoming → Loop E × Option (Result Unit)
  turn s bind_failed = (s, some (err io_error))
  turn s (accepted tcp) = expected s (serve_client s.engine tcp)
  turn s accept_failed = if ltb max_backoff s.backoff then (s, some (err io_error)) else (
    record s { backoff = s.backoff * 2; retries = suc s.retries; slept = s.backoff ∷ s.slept },
    none,
  )

  abbrev pub go_on :
      Loop E × Option (Result Unit) → Loop E × Option (Result Unit) → Loop E × Option (Result Unit)
  go_on (s, some res) rest = (s, some res)
  go_on (s, none) rest = rest

  -- The loop over what comes in, with `none` while it waits for more.
  unfoldable pub run_from : Loop E → List Incoming → Loop E × Option (Result Unit)
  run_from s [] =
      if ltb s.retries max_retries
      then (s, none)
      else (s, some (err (server_error too_many_retries)))
  run_from s (x ∷ xs) =
      let now = turn s x in
      let rest = run_from now.0 xs in
      if ltb s.retries max_retries
      then go_on now rest
      else (s, some (err (server_error too_many_retries)))

  unfoldable pub run : E → List Incoming → Loop E × Option (Result Unit)
  run e xs = run_from (started e) xs
