-- ===== src/Labrpc/Calls.antt =====
-- crates/labrpc/src/{client.rs, macros.rs}: a call of a client, and the services that the macro
-- `service!` makes, whose methods here have one type of request and one of response. Proofs are in the
-- child module.
pub mod Roundtrip
mod Tests
use key_value_distributed_sy.Base.{ℕ, Option, none, some, List, [], ◌∷◌, ◌++◌, ◌⊎◌, inl, inr}
use key_value_distributed_sy.Base.Text.{Text}
use key_value_distributed_sy.Labrpc.Network.{
  HashMap, Failure, stopped, unimplemented, foreign, Reply, ok, err,
}
use key_value_distributed_sy.Labrpc.Service.{Factory, ServerBuilder, add_service}

abbrev pub Bytes : Type 0
Bytes = List ℕ

-- What is used of labcodec, with the numbers of its errors.
pub record Messages (Req Rsp : Type 0) : Type 0 where
  pub encode_req : Req → ℕ ⊎ Bytes
  pub decode_req : Bytes → ℕ ⊎ Req
  pub encode_rsp : Rsp → ℕ ⊎ Bytes
  pub decode_rsp : Bytes → ℕ ⊎ Rsp

-- What becomes of an `Rpc`: the network is gone, the sender of the response is dropped, or there is an
-- answer.
pub data Outcome : Type 0 where
  closed cancelled : Outcome
  answered : Reply Bytes → Outcome

-- The number of `Error::Recv(Canceled)`.
abbrev pub canceled : ℕ
canceled = 0

-- "unknown " and " in ".
abbrev pub unknown_method : Text → Text → Text
unknown_method method service =
    (117 ∷ 110 ∷ 107 ∷ 110 ∷ 111 ∷ 119 ∷ 110 ∷ 32 ∷ [])
    ++ (method ++ ((32 ∷ 105 ∷ 110 ∷ 32 ∷ []) ++ service))

-- `concat!(service, ".", method)`
abbrev pub fq_name : Text → Text → Text
fq_name service method = service ++ 46 ∷ method

module _ {Req Rsp : Type 0} (messages : Messages Req Rsp) where
  abbrev pub decoded_rsp : ℕ ⊎ Rsp → Reply Rsp
  decoded_rsp (inl e) = err (foreign e)
  decoded_rsp (inr rsp) = ok rsp

  abbrev pub received : Outcome → Reply Rsp
  received closed = err stopped
  received cancelled = err (foreign canceled)
  received (answered (ok resp)) = decoded_rsp (messages.decode_rsp resp)
  received (answered (err e)) = err e

  abbrev pub send_encoded : (Bytes → Outcome) → ℕ ⊎ Bytes → Reply Rsp
  send_encoded send (inl e) = err (foreign e)
  send_encoded send (inr buf) = received (send buf)

  -- `Client::call`, once its future is done.
  unfoldable pub call : (Bytes → Outcome) → Req → Reply Rsp
  call send req = send_encoded send (messages.encode_req req)

  abbrev pub encoded_rsp : ℕ ⊎ Bytes → Reply Bytes
  encoded_rsp (inl e) = err (foreign e)
  encoded_rsp (inr rsp) = ok rsp

  abbrev pub response_of : Reply Rsp → Reply Bytes
  response_of (ok rsp) = encoded_rsp (messages.encode_rsp rsp)
  response_of (err e) = err e

  abbrev pub run_method : (Req → Reply Rsp) → ℕ ⊎ Req → Reply Bytes
  run_method method (inl e) = err (foreign e)
  run_method method (inr req) = response_of (method req)

  abbrev pub handle_named : Text → Text → Bytes → Option (Req → Reply Rsp) → Reply Bytes
  handle_named service name req none = err (unimplemented (unknown_method name service))
  handle_named service name req (some method) = run_method method (messages.decode_req req)

  -- The factory of a service.
  unfoldable pub handler : Text → HashMap (Req → Reply Rsp) → Factory Bytes Bytes
  handler service methods name req = handle_named service name req (methods name)

  unfoldable pub add_methods :
      Text
      → HashMap (Req → Reply Rsp)
      → ServerBuilder Bytes Bytes
      → ServerBuilder Bytes Bytes × Reply Unit
  unfolding handler add_service
  add_methods service methods builder = add_service builder service (handler service methods)
