-- ===== src/Kvs/Client.antt =====
-- project_5/src/{client.rs, response.rs}: the client. Proofs are in the child modules.
pub mod Connects
pub mod Answers
use key_value_distributed_sy.Base.{
  ℕ, zero, suc, ◌*◌, Bool, true, false, Option, none, some, List, [], ◌∷◌, ◌⊎◌, inl, inr, ltb,
  if◌then◌else◌,
}
use key_value_distributed_sy.Base.Text.{Text}
use key_value_distributed_sy.Kvs.Errors.{
  CacheError, server_error, too_many_retries, io_error, Result, ok, err, panicked, Category,
  from_serde, Decoded, parsed, refused,
}
use key_value_distributed_sy.Kvs.Log.{Command, set, get, remove, Bytes}

pub data ServerResponse (T : Type 0) : Type 0 where
  response_ok : Option T → ServerResponse T
  response_err : Text → ServerResponse T

-- "No response received".
abbrev pub no_response : Text
no_response =
    78 ∷ 111 ∷ 32 ∷ 114 ∷ 101 ∷ 115 ∷ 112 ∷ 111 ∷ 110 ∷ 115 ∷ 101 ∷ 32 ∷ 114 ∷ 101 ∷ 99 ∷ 101 ∷ 105
    ∷ 118 ∷ 101 ∷ 100 ∷ []

-- `ServerResponse::ok`; its second arm is never reached.
abbrev pub response_value : {T : Type 0} → ServerResponse T → Result (Option T)
response_value (response_ok (some m)) = ok (some m)
response_value (response_ok none) = err (server_error no_response)
response_value (response_err e) = err (server_error e)

abbrev pub max_backoff : ℕ
max_backoff = 64

abbrev pub max_retries : ℕ
max_retries = 5

-- The locals of the loop of `connect`, with the seconds that it has slept, the last first.
pub record Attempt : Type 0 where
  pub backoff : ℕ
  pub retries : ℕ
  pub slept : List ℕ

module _ {S : Type 0} (attempts : ℕ → Option S) where
  -- An attempt that failed; with an error when the loop ends.
  unfoldable pub on_failure : Attempt → Attempt × Option CacheError
  on_failure a = if ltb max_backoff a.backoff then (a, some io_error) else (
    record { backoff = a.backoff * 2; retries = suc a.retries; slept = a.backoff ∷ a.slept },
    none,
  )

  abbrev pub after_failure :
      Attempt × Option CacheError → Option (Attempt × Result S) → Option (Attempt × Result S)
  after_failure (a, some e) rest = some (a, err e)
  after_failure (a, none) rest = rest

  abbrev pub on_attempt :
      Attempt → Option S → Option (Attempt × Result S) → Option (Attempt × Result S)
  on_attempt a (some stream) rest = some (a, ok stream)
  on_attempt a none rest = after_failure (on_failure a) rest

  -- The loop on fuel, `none` when that runs out. `attempts n` is what the attempt after `n` failures
  -- comes to.
  unfoldable pub connect_from : ℕ → Attempt → Option (Attempt × Result S)
  connect_from zero a = none
  connect_from (suc fuel) a =
      let rest = connect_from fuel (on_failure a).0 in
      if ltb a.retries max_retries
      then on_attempt a (attempts a.retries) rest
      else some (a, err (server_error too_many_retries))

  abbrev pub first_attempt : Attempt
  first_attempt = record { backoff = 1; retries = 0; slept = [] }

  unfoldable pub connect : Option (Attempt × Result S)
  unfolding connect_from
  connect = connect_from (suc max_retries) first_attempt

-- The two halves of a stream, behind their buffers; `none` is an error. `read` is given the length of
-- the slice to read into.
pub record Stream (S : Type 0) : Type 0 where
  pub write_all : S → Bytes → Option S
  pub read : S → ℕ → Option (S × Bytes)

-- What the client uses of serde_json.
pub record ClientWire : Type 0 where
  pub to_vec : Command → Category ⊎ Bytes
  pub from_slice : Bytes → Decoded (ServerResponse Text)

module _ {S : Type 0} (io : Stream S) (wire : ClientWire) where
  abbrev pub response_result : Decoded (ServerResponse Text) → Result (ServerResponse Text)
  response_result (parsed (response_ok res)) = ok (response_ok res)
  response_result (parsed (response_err e)) = err (server_error e)
  response_result (refused c) = err (from_serde c)

  abbrev pub on_read : S → Option (S × Bytes) → S × Result (ServerResponse Text)
  on_read s none = (s, err io_error)
  on_read s (some (t, bytes)) = (t, response_result (wire.from_slice bytes))

  -- The response is read into an empty vector.
  abbrev pub on_written : S → Option S → S × Result (ServerResponse Text)
  on_written s none = (s, err io_error)
  on_written s (some t) = on_read t (io.read t 0)

  abbrev pub on_serialized : S → Category ⊎ Bytes → S × Result (ServerResponse Text)
  on_serialized s (inl c) = (s, err (from_serde c))
  on_serialized s (inr bytes) = on_written s (io.write_all s bytes)

  unfoldable pub process_requests : S → Command → S × Result (ServerResponse Text)
  process_requests s command = on_serialized s (wire.to_vec command)

  abbrev pub got : Result (ServerResponse Text) → Result (Option Text)
  got (ok response) = response_value response
  got (err e) = err e
  got panicked = panicked

  abbrev pub was_set : Result (ServerResponse Text) → Result Unit
  was_set (ok response) = ok tt
  was_set (err e) = err e
  was_set panicked = panicked

  abbrev pub was_removed : Result (Option Text) → Result Unit
  was_removed (ok value) = ok tt
  was_removed (err e) = err e
  was_removed panicked = panicked

  unfoldable pub client_get : S → Text → S × Result (Option Text)
  unfolding process_requests
  client_get s key = let (t, res) = process_requests s (get key) in (t, got res)

  unfoldable pub client_set : S → Text → Text → S × Result Unit
  unfolding process_requests
  client_set s key value = let (t, res) = process_requests s (set key value) in (t, was_set res)

  unfoldable pub client_remove : S → Text → S × Result Unit
  unfolding process_requests
  client_remove s key = let (t, res) = process_requests s (remove key) in (t, was_removed (got res))
