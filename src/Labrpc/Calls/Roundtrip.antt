-- ===== src/Labrpc/Calls/Roundtrip.antt =====
-- A call from the client to the method of a service and back.
use key_value_distributed_sy.Base.{ℕ, ◌≡◌, refl, false, Option, none, some, inr}
use key_value_distributed_sy.Base.Text.{Text}
use key_value_distributed_sy.Labrpc.Network.{
  HashMap, NetworkCore, Server, is_server_dead, process_dispatched, Reply, ok, err,
}
use key_value_distributed_sy.Labrpc.Network.Delivery.{process_dispatched-alive}
use key_value_distributed_sy.Labrpc.Service.{ServerBuilder, build, dispatch}
use key_value_distributed_sy.Labrpc.Service.Dispatch.{IsPlain, dispatch-add_service}
use key_value_distributed_sy.Labrpc.Calls.{
  Bytes, Messages, Outcome, cancelled, answered, fq_name, call, received, handler, response_of,
  add_methods,
}

-- labcodec reads back the messages that it writes, and writes them all.
pub record IsCodec {Req Rsp : Type 0} (messages : Messages Req Rsp) : Type 0 where
  pub requests :
      (req : Req)
      → (buf : Bytes) × (messages.encode_req req ≡ inr buf) × (messages.decode_req buf ≡ inr req)
  pub responses :
      (rsp : Rsp)
      → (buf : Bytes) × (messages.encode_rsp rsp ≡ inr buf) × (messages.decode_rsp buf ≡ inr rsp)

-- A panic of the task of an RPC drops the sender of the response.
abbrev pub outcome_of : Option (ℕ × Reply Bytes) → Outcome
outcome_of none = cancelled
outcome_of (some (ms, reply)) = answered reply

module _ {Req Rsp : Type 0} (messages : Messages Req Rsp) (laws : IsCodec messages) where
  received-response_of :
      (reply : Reply Rsp) → received messages (answered (response_of messages reply)) ≡ reply
  received-response_of (ok rsp) = let (buf, e, d) = laws.responses rsp in rw (e, d) refl
  received-response_of (err e) = refl

  -- A client calls a method of a service whose name was free when it was added, over a network that
  -- finds the server alive and drops no reply, without hooks: the call comes to what the method
  -- answers, its errors included. The names have no dot, and labcodec reads back what it writes.
  pub call-dispatch :
      (builder : ServerBuilder Bytes Bytes) (service method : Text)
      (methods : HashMap (Req → Reply Rsp)) (run : Req → Reply Rsp) (next_id : ℕ)
      (net : NetworkCore) (client_name : Text) (server : Server) (long_reordering : Option ℕ)
      (req : Req)
      → IsPlain service
      → IsPlain method
      → builder.services service ≡ none
      → methods method ≡ some run
      → is_server_dead net client_name server.name server.id ≡ some false
      → call messages
          (λ buf. outcome_of (
            process_dispatched net client_name server false long_reordering none buf
              (dispatch
                (build (add_methods messages service methods builder).0 next_id).0
                (fq_name service method)
                buf).1))
          req
        ≡ run req
  unfolding call add_methods handler
  call-dispatch builder service method methods run next_id net client_name server long_reordering
        req p q free has alive =
      let (buf, encoded, decoded) = laws.requests req in
      let (built, added, again, answer, count) =
        dispatch-add_service builder service method (handler messages service methods) next_id buf p
          q free in
      let reply : handler messages service methods method buf ≡ response_of messages (run req) =
        rw (has, decoded) refl in
      let (ms, delivered) =
        process_dispatched-alive net client_name server long_reordering buf
          (response_of messages (run req)) alive in
      rw (encoded, added, answer, reply, delivered) (received-response_of (run req))
